-- ===== src/Query/Filter/Meaning.antt =====
-- internal/query/filter.go: what a filter that `Build` returns means.
use prec.Base.{
  Every, ◌≡◌, refl, sym, ap, ap₂, ◌∙◌, ◌↔◌, ◌⊎◌, inl, inr, Bool, true, false, ◌&&◌, ◌||◌, List, [],
  ◌∷◌, ◌++◌, map, arith, if◌then◌else◌, Result, ok, ◌>>=◌, bind-eq-ok, map_result, ok_injective,
}
use mathlib.Core.Path.{subst}
use prec.Text.{Text, codes}
use prec.Event.{CommandEvent}
use prec.Query.Field.{TimeParser}
use prec.Query.Split.{QueryError, split_by_delimiter}
use prec.Query.Clause.{Predicate, Compiled}
use prec.Query.Filter.{
  Filter, all_match, term_needs, parse_spec_expression, build_onto, build, match_all, matches,
  any_match, terms_need, parse_term,
}

match_all-append :
    (ps qs : List Predicate) (ev : CommandEvent)
    → match_all (ps ++ qs) ev ≡ (match_all ps ev && match_all qs ev)
unfolding match_all
match_all-append [] qs ev = refl
match_all-append (p ∷ ps) qs ev = ground (arith, match_all-append ps qs ev)

-- `Filter` after one more query text.
abbrev with_spec : Filter → Compiled → Filter
with_spec out compiled = record {
  predicates = out.predicates ++ (compiled.0 ∷ []);
  needs_finalized_command = if compiled.1 then true else out.needs_finalized_command;
}

match_one : (p : Predicate) (ev : CommandEvent) → match_all (p ∷ []) ev ≡ p ev
match_one p ev = unfold match_all in ground arith

pub all_match-cons :
    (c : Compiled) (cs : List Compiled) (ev : CommandEvent)
    → all_match (c ∷ cs) ev ≡ (c.0 ev && all_match cs ev)
all_match-cons (p, needs) cs ev = unfold all_match in ground arith

-- What `Build` adds to a filter.
pub record Adds (out f : Filter) (cs : List Compiled) : Type 0 where
  pub matched :
      (ev : CommandEvent)
      → match_all f.predicates ev ≡ (match_all out.predicates ev && all_match cs ev)
  pub needed : f.needs_finalized_command ≡ (out.needs_finalized_command || term_needs cs)

pub build_onto-Adds :
    (clock : TimeParser) (specs : List Text) (out f : Filter)
    → build_onto clock specs out ≡ ok f
    → (cs : List Compiled) × (map_result (parse_spec_expression clock) specs ≡ ok cs)
      × Adds out f cs
unfolding build_onto
build_onto-Adds clock [] out f e = (
  [],
  refl,
  subst (λ (g : Filter). Adds out g []) (ok_injective e)
      (record {
        matched = λ ev. unfold all_match in ground arith;
        needed = unfold term_needs in ground arith;
      }),
)
build_onto-Adds clock (spec ∷ specs) out f e =
    let (c, parsed, e') =
      bind-eq-ok (parse_spec_expression clock spec) (λ c. build_onto clock specs (with_spec out c))
        e in
    let (cs, rest, adds) = build_onto-Adds clock specs (with_spec out c) f e' in
    (c ∷ cs, rw (parsed, rest), Adds-cons out f c cs adds)
  where
    Adds-cons :
        (out f : Filter) (c : Compiled) (cs : List Compiled)
        → Adds (with_spec out c) f cs
        → Adds out f (c ∷ cs)
    Adds-cons out f (p, needs) cs a = record {
      matched = λ ev. ground (
        arith,
        a.matched ev,
        match_all-append out.predicates (p ∷ []) ev,
        match_one p ev,
        all_match-cons (p, needs) cs ev,
      );
      needed = unfold term_needs in ground (arith, a.needed);
    }

-- Some element of the list has the property.
abbrev pub Some : {A : Type 0} → (A → Type 0) → List A → Type 0
Some P [] = ⊥
Some P (x ∷ xs) = P x ⊎ Some P xs

-- A query text as its terms, and each term as its clauses.
abbrev pub clauses_of : TimeParser → Text → Result QueryError (List (List Compiled))
clauses_of clock spec = split_by_delimiter spec (codes "||") >>= map_result (parse_term clock)

abbrev Holds : CommandEvent → Compiled → Type 0
Holds ev c = c.0 ev ≡ true

through : {a b : Bool} {P : Type 0} → a ≡ b → (b ≡ true) ↔ P → (a ≡ true) ↔ P
through e p = ((λ h. p.0 (sym e ∙ h)), (λ h. e ∙ p.1 h))

and_step :
    (a b : Bool) {P Q : Type 0} → (a ≡ true) ↔ P → (b ≡ true) ↔ Q → ((a && b) ≡ true) ↔ (P × Q)
and_step a b p q =
    ((λ h. (p.0 (ground arith), q.0 (ground arith))), (λ h. ground (arith, p.1 h.0, q.1 h.1)))

or_step :
    (a b : Bool) {P Q : Type 0} → (a ≡ true) ↔ P → (b ≡ true) ↔ Q → ((a || b) ≡ true) ↔ (P ⊎ Q)
or_step true b p q = ((λ h. inl (p.0 refl)), (λ h. refl))
or_step false b {P} {Q} p q = ((λ h. inr (q.0 h)), right)
  where
    right : P ⊎ Q → b ≡ true
    right (inl h) = cc (p.1 h)
    right (inr h) = q.1 h

none_step : {P : Type 0} → (P → ⊥) → (false ≡ true) ↔ P
none_step n = ((λ e. cc), (λ p. absurd (n p)))

all_match_iff :
    (ev : CommandEvent) (cs : List Compiled) → (all_match cs ev ≡ true) ↔ Every (Holds ev) cs
all_match_iff ev [] = unfold all_match in ((λ _. tt), (λ _. refl))
all_match_iff ev (c ∷ cs) =
    rw (all_match-cons c cs ev)
      (and_step (c.0 ev) (all_match cs ev) ((λ h. h), (λ h. h)) (all_match_iff ev cs))

any_match-cons :
    (c : List Compiled) (cs : List (List Compiled)) (ev : CommandEvent)
    → any_match (c ∷ cs) ev ≡ (all_match c ev || any_match cs ev)
any_match-cons c cs ev = unfold any_match in ground arith

any_match_iff :
    (ev : CommandEvent) (terms : List (List Compiled))
    → (any_match terms ev ≡ true) ↔ Some (Every (Holds ev)) terms
any_match_iff ev [] = unfold any_match in none_step (λ e. e)
any_match_iff ev (t ∷ terms) =
    rw (any_match-cons t terms ev)
      (or_step (all_match t ev) (any_match terms ev) (all_match_iff ev t) (any_match_iff ev terms))

-- The clause asks for the joined end record.
abbrev Needs : Compiled → Type 0
Needs c = c.1 ≡ true

term_needs_iff : (cs : List Compiled) → (term_needs cs ≡ true) ↔ Some Needs cs
term_needs_iff [] = unfold term_needs in none_step (λ e. e)
term_needs_iff ((p, needs) ∷ cs) =
    unfold_step p needs cs (or_step needs (term_needs cs) ((λ h. h), (λ h. h)) (term_needs_iff cs))
  where
    unfold_step :
        (p : Predicate) (needs : Bool) (cs : List Compiled)
        → ((needs || term_needs cs) ≡ true) ↔ ((needs ≡ true) ⊎ Some Needs cs)
        → (term_needs ((p, needs) ∷ cs) ≡ true) ↔ ((needs ≡ true) ⊎ Some Needs cs)
    unfold_step p needs cs h = unfold term_needs in h

terms_need_iff :
    (terms : List (List Compiled)) → (terms_need terms ≡ true) ↔ Some (Some Needs) terms
terms_need_iff [] = unfold terms_need in none_step (λ e. e)
terms_need_iff (t ∷ terms) =
    unfold_step t terms
      (or_step (term_needs t) (terms_need terms) (term_needs_iff t) (terms_need_iff terms))
  where
    unfold_step :
        (t : List Compiled) (terms : List (List Compiled)) {P : Type 0}
        → ((term_needs t || terms_need terms) ≡ true) ↔ P
        → (terms_need (t ∷ terms) ≡ true) ↔ P
    unfold_step t terms h = unfold terms_need in h

-- What `parseSpecExpression` makes of the clauses of a query text.
abbrev joined : List (List Compiled) → Compiled
joined terms = (any_match terms, terms_need terms)

parse_spec_expression-clauses_of :
    (clock : TimeParser) (spec : Text) (c : Compiled)
    → parse_spec_expression clock spec ≡ ok c
    → (terms : List (List Compiled)) × (clauses_of clock spec ≡ ok terms) × (c ≡ joined terms)
unfolding parse_spec_expression
parse_spec_expression-clauses_of clock spec c e =
    let finish : List (List Compiled) → Result QueryError Compiled = λ terms. ok (joined terms) in
    let (or_terms, cut, e') =
      bind-eq-ok (split_by_delimiter spec (codes "||"))
        (λ or_terms. map_result (parse_term clock) or_terms >>= finish) e in
    let (terms, parsed, e'') = bind-eq-ok (map_result (parse_term clock) or_terms) finish e' in
    (terms, rw (cut, parsed), sym (ok_injective e''))

dnf_of :
    (clock : TimeParser) (specs : List Text) (cs : List Compiled)
    → map_result (parse_spec_expression clock) specs ≡ ok cs
    → (dnf : List (List (List Compiled))) × (map_result (clauses_of clock) specs ≡ ok dnf)
      × (cs ≡ map joined dnf)
dnf_of clock [] cs e = ([], refl, sym (ok_injective e))
dnf_of clock (spec ∷ specs) cs e =
    let (c, parsed, e') =
      bind-eq-ok (parse_spec_expression clock spec)
        (λ y. map_result (parse_spec_expression clock) specs >>= λ ys. ok (y ∷ ys)) e in
    let (rest, parsed_rest, e'') =
      bind-eq-ok (map_result (parse_spec_expression clock) specs) (λ ys. ok (c ∷ ys)) e' in
    let (terms, cut, is_joined) = parse_spec_expression-clauses_of clock spec c parsed in
    let (dnf, cut_rest, are_joined) = dnf_of clock specs rest parsed_rest in
    (terms ∷ dnf, rw (cut, cut_rest), sym (ok_injective e'') ∙ ap₂ ◌∷◌ is_joined are_joined)

Every-spec_iff :
    (ev : CommandEvent) (dnf : List (List (List Compiled)))
    → (all_match (map joined dnf) ev ≡ true) ↔ Every (Some (Every (Holds ev))) dnf
Every-spec_iff ev [] = unfold all_match in ((λ _. tt), (λ _. refl))
Every-spec_iff ev (terms ∷ dnf) = rw (all_match-cons (joined terms) (map joined dnf) ev) (
    and_step (any_match terms ev) (all_match (map joined dnf) ev) (any_match_iff ev terms)
      (Every-spec_iff ev dnf))

Some-spec_iff :
    (dnf : List (List (List Compiled)))
    → (term_needs (map joined dnf) ≡ true) ↔ Some (Some (Some Needs)) dnf
Some-spec_iff [] = unfold term_needs in none_step (λ e. e)
Some-spec_iff (terms ∷ dnf) = unfold_step terms dnf (
    or_step (terms_need terms) (term_needs (map joined dnf)) (terms_need_iff terms)
      (Some-spec_iff dnf))
  where
    unfold_step :
        (terms : List (List Compiled)) (dnf : List (List (List Compiled))) {P : Type 0}
        → ((terms_need terms || term_needs (map joined dnf)) ≡ true) ↔ P
        → (term_needs (map joined (terms ∷ dnf)) ≡ true) ↔ P
    unfold_step terms dnf h = unfold term_needs in h

-- If `Build` succeeds then every query text has been cut into terms of compiled clauses. The filter
-- matches an event exactly when in every text some term holds with all its clauses, and it asks for
-- end records exactly when some clause does.
pub build-clauses_of :
    (clock : TimeParser) (specs : List Text) (f : Filter)
    → build clock specs ≡ ok f
    → (dnf : List (List (List Compiled))) × (map_result (clauses_of clock) specs ≡ ok dnf)
      × ((ev : CommandEvent)
          → (matches f ev ≡ true) ↔ Every (Some (Every (λ c. c.0 ev ≡ true))) dnf)
      × ((f.needs_finalized_command ≡ true) ↔ Some (Some (Some (λ c. c.1 ≡ true))) dnf)
unfolding build matches
build-clauses_of clock specs f e =
    let (cs, parsed, a) =
      build_onto-Adds clock specs (record { predicates = []; needs_finalized_command = false }) f
        e in
    let (dnf, cut, same) = dnf_of clock specs cs parsed in
    (
      dnf,
      cut,
      (λ ev.
          through
            (a.matched ev ∙ unfold match_all in ap (λ (l : List Compiled). all_match l ev) same)
            (Every-spec_iff ev dnf)),
      through (a.needed ∙ ap term_needs same) (Some-spec_iff dnf),
    )
