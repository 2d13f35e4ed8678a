-- ===== src/App/Shown.antt =====
-- internal/cli/app.go: what the query that the flags make lets through.
use prec.Base.{
  ◌≡◌, refl, sym, ap, ◌∙◌, ◌⊎◌, inl, inr, Bool, true, false, ◌&&◌, List, [], ◌∷◌, arith,
  if◌then◌else◌, Bool-cases, ok, ◌>>=◌, bind-eq-ok, map_result, ok_injective,
}
use prec.Text.{Text, codes, equal, equal_iff, one_of, is_space, trim_space, switch}
use mathlib.Core.Path.{subst}
use prec.Event.{CommandEvent}
use prec.Query.Operator.{find_operator, is_supported_string_operator, compare_string}
use prec.Query.Field.{TimeParser, field_type_for, string_value}
use prec.Query.Split.{QueryError, split_by_delimiter, split_by_and_delimiters}
use prec.Query.Clause.{Compiled, parse_clause, normalize_value}
use prec.Query.Filter.{
  Filter, all_match, any_match, parse_spec_expression, build, match_all, matches,
}
use prec.Query.Filter.Meaning.{build_onto-Adds, all_match-cons}
use prec.App.{
  RootCli, normalize_source, has_record_type_query, process_spec, process_and_save_spec,
  with_record_types, effective_query_specs,
}

-- A query text that gives the values a field may have.
abbrev alternatives : Text → List Text → List (List Compiled)
alternatives key [] = []
alternatives key (value ∷ values) =
    (((λ ev. compare_string (string_value key ev) value (codes "=")), false) ∷ [])
    ∷ alternatives key values

equal_to : (x value : Text) → compare_string x value (codes "=") ≡ equal x value
unfolding compare_string switch equal
equal_to x value = refl

any_match-alternatives :
    (key : Text) (values : List Text) (ev : CommandEvent)
    → any_match (alternatives key values) ev ≡ one_of (string_value key ev) values
unfolding any_match all_match one_of
any_match-alternatives key [] ev = refl
any_match-alternatives key (value ∷ values) ev =
    ground (arith, equal_to (string_value key ev) value, any_match-alternatives key values ev)

module _ (clock : TimeParser) where
  abbrev Allows : Text → Text → List Text → Type 0
  Allows spec key values =
      parse_spec_expression clock spec ≡ ok (any_match (alternatives key values), false)

  user-Allows : Allows (codes "source=user") (codes "source") (codes "user" ∷ [])
  unfolding parse_spec_expression split_by_delimiter trim_space is_space split_by_and_delimiters
      parse_clause find_operator field_type_for equal is_supported_string_operator normalize_value
  user-Allows = refl

  system-Allows : Allows (codes "source=system") (codes "source") (codes "system" ∷ [])
  unfolding parse_spec_expression split_by_delimiter trim_space is_space split_by_and_delimiters
      parse_clause find_operator field_type_for equal is_supported_string_operator normalize_value
  system-Allows = refl

  process-Allows :
      Allows process_spec
        (codes "record_type")
        (codes "proc_command" ∷ codes "proc_fail" ∷ codes "proc_loss" ∷ [])
  unfolding parse_spec_expression split_by_delimiter trim_space is_space split_by_and_delimiters
      parse_clause find_operator field_type_for equal is_supported_string_operator normalize_value
  process-Allows = refl

  save-Allows :
      Allows process_and_save_spec
        (codes "record_type")
        (codes "proc_command" ∷ codes "proc_fail" ∷ codes "proc_loss" ∷ codes "file_save" ∷ [])
  unfolding parse_spec_expression split_by_delimiter trim_space is_space split_by_and_delimiters
      parse_clause find_operator field_type_for equal is_supported_string_operator normalize_value
  save-Allows = refl

  -- All of the texts are compiled, and hold for the event.
  abbrev Hold : List Text → CommandEvent → Type 0
  Hold specs ev =
      (cs : List Compiled) × (map_result (parse_spec_expression clock) specs ≡ ok cs)
      × (all_match cs ev ≡ true)

  build-Hold :
      (specs : List Text) (lf : Filter) (ev : CommandEvent)
      → build clock specs ≡ ok lf
      → matches lf ev ≡ true
      → Hold specs ev
  unfolding build matches match_all
  build-Hold specs lf ev built m =
      let (cs, parsed, adds) =
        build_onto-Adds clock specs (record { predicates = []; needs_finalized_command = false }) lf
          built in
      (cs, parsed, sym (adds.matched ev) ∙ m)

  Hold-first :
      (spec key : Text) (values specs : List Text) (ev : CommandEvent)
      → Allows spec key values
      → Hold (spec ∷ specs) ev
      → (one_of (string_value key ev) values ≡ true) × Hold specs ev
  Hold-first spec key values specs ev a (cs, parsed, m) =
      let (c, hc, e1) =
        bind-eq-ok (parse_spec_expression clock spec)
          (λ c. map_result (parse_spec_expression clock) specs >>= λ rest. ok (c ∷ rest)) parsed in
      let (rest, hr, e2) =
        bind-eq-ok (map_result (parse_spec_expression clock) specs) (λ rest. ok (c ∷ rest)) e1 in
      let both : (c.0 ev && all_match rest ev) ≡ true =
        sym (all_match-cons c rest ev)
        ∙ (ap (λ xs. all_match xs ev) (ok_injective {E = QueryError} e2) ∙ m) in
      let same : c ≡ (any_match (alternatives key values), false) =
        ok_injective {E = QueryError} (sym hc ∙ a) in
      let here : any_match (alternatives key values) ev ≡ true =
        sym (ap (λ (x : Compiled). x.0 ev) same) ∙ ground arith in
      (sym (any_match-alternatives key values ev) ∙ here, (rest, hr, ground arith))

-- The source that is asked for, unless it is any.
abbrev wanted_source : Text → Text
wanted_source source = if equal source (codes "system") then codes "system" else codes "user"

-- The record types that are shown unless the query asks for some.
abbrev wanted_types : Bool → List Text
wanted_types file_events =
    if file_events
    then codes "proc_command" ∷ codes "proc_fail" ∷ codes "proc_loss" ∷ codes "file_save" ∷ []
    else codes "proc_command" ∷ codes "proc_fail" ∷ codes "proc_loss" ∷ []

module _ (clock : TimeParser) where
  with_record_types-Hold :
      (file_events : Bool) (specs : List Text) (ev : CommandEvent)
      → Hold clock (with_record_types file_events specs) ev
      → (((file_events ≡ true) × (has_record_type_query specs ≡ true))
          ⊎ (one_of (string_value (codes "record_type") ev) (wanted_types file_events) ≡ true))
        × Hold clock specs ev
  unfolding with_record_types
  with_record_types-Hold false specs ev h =
      let (types, rest) =
        Hold-first clock process_spec (codes "record_type") _ specs ev (process-Allows clock) h in
      (inr types, rest)
  with_record_types-Hold true specs ev h = elim (Bool-cases (has_record_type_query specs)) [
    | inl e ↦
        let same : with_record_types true specs ≡ specs = rw (with_record_types, e) refl in
        (inl (refl, e), subst (λ (xs : List Text). Hold clock xs ev) same h)
    | inr e ↦
        let same : with_record_types true specs ≡ process_and_save_spec ∷ specs =
          rw (with_record_types, e) refl in
        let (types, rest) =
          Hold-first clock process_and_save_spec (codes "record_type") _ specs ev
            (save-Allows clock) (subst (λ (xs : List Text). Hold clock xs ev) same h) in
        (inr types, rest)
  ]

  -- What a compiled query shows.
  pub record IsShown (cli : RootCli) (ev : CommandEvent) : Type 0 where
    pub source :
        (normalize_source cli.source ≡ codes "any")
        ⊎ (one_of
              (string_value (codes "source") ev)
              (wanted_source (normalize_source cli.source) ∷ [])
            ≡ true)
    pub types :
        ((cli.file_events ≡ true) × (has_record_type_query cli.query ≡ true))
        ⊎ (one_of (string_value (codes "record_type") ev) (wanted_types cli.file_events) ≡ true)
    pub asked : Hold clock cli.query ev

  -- If the query that `effectiveQuerySpecs` makes of the flags is compiled, and matches an event: the event
  -- has the source that is asked for, the user if none is, unless any source is; its record type is that of
  -- a command, a failure or a loss, or also that of a saved file if file events are asked for, unless these
  -- are and the query texts ask for a record type; and each query text holds for it.
  pub effective_query_specs-IsShown :
      (cli : RootCli) (lf : Filter) (ev : CommandEvent)
      → build clock (effective_query_specs cli) ≡ ok lf
      → matches lf ev ≡ true
      → IsShown cli ev
  unfolding effective_query_specs
  effective_query_specs-IsShown cli lf ev built m =
      let h = build-Hold clock (effective_query_specs cli) lf ev built m in
      let specs = with_record_types cli.file_events cli.query in
      let source = normalize_source cli.source in
      elim (Bool-cases (equal source (codes "any"))) [
        | inl e ↦
            let same : effective_query_specs cli ≡ specs = rw (effective_query_specs, e) refl in
            let (types, asked) =
              with_record_types-Hold cli.file_events cli.query ev
                (subst (λ (xs : List Text). Hold clock xs ev) same h) in
            record {
              source = inl ((equal_iff source (codes "any")).0 e);
              types = types;
              asked = asked;
            }
        | inr e ↦ elim (Bool-cases (equal source (codes "system"))) [
          | inl f ↦
              let same : effective_query_specs cli ≡ codes "source=system" ∷ specs =
                rw (effective_query_specs, e, f) refl in
              let (from, rest) =
                Hold-first clock (codes "source=system") (codes "source") _ specs ev
                  (system-Allows clock) (subst (λ (xs : List Text). Hold clock xs ev) same h) in
              let (types, asked) = with_record_types-Hold cli.file_events cli.query ev rest in
              record { source = inr (rw f from); types = types; asked = asked }
          | inr f ↦
              let same : effective_query_specs cli ≡ codes "source=user" ∷ specs =
                rw (effective_query_specs, e, f) refl in
              let (from, rest) =
                Hold-first clock (codes "source=user") (codes "source") _ specs ev
                  (user-Allows clock) (subst (λ (xs : List Text). Hold clock xs ev) same h) in
              let (types, asked) = with_record_types-Hold cli.file_events cli.query ev rest in
              record { source = inr (rw f from); types = types; asked = asked }
        ]
      ]
