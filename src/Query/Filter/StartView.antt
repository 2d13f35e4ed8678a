-- ===== src/Query/Filter/StartView.antt =====
-- internal/query/filter.go: filters and the fields that an end record fills in.
use prec.Base.{
  Every, Every-append, ◌≡◌, refl, true, false, Option, List, [], ◌∷◌, ◌++◌, arith, if◌then◌else◌, ℤ,
  Result, ok, ◌>>=◌, bind-eq-ok, map_result, ok_injective,
}
use mathlib.Core.Path.{subst}
use prec.Text.{Text, codes}
use prec.Event.{CommandEvent}
use prec.Query.Field.{TimeParser}
use prec.Query.Split.{QueryError, split_by_delimiter, split_by_and_delimiters}
use prec.Query.Clause.{Predicate, Compiled, parse_clause}
use prec.Query.Clause.StartView.{with_end, IgnoresEnd, parse_clause-IgnoresEnd}
use prec.Query.Filter.{
  Filter, all_match, any_match, term_needs, terms_need, parse_term, parse_spec_expression,
  build_onto, build, match_all, matches,
}

-- The results of a loop share what each call guarantees.
map_result-Every :
    {E A B : Type 0} (P : B → Type 0) (f : A → Result E B)
    → ((a : A) (b : B) → f a ≡ ok b → P b)
    → (xs : List A) (ys : List B) → map_result f xs ≡ ok ys
    → Every P ys
map_result-Every P f h [] [] e = tt
map_result-Every P f h [] (y ∷ ys) e = cc
map_result-Every P f h (x ∷ xs) ys e =
    let (b, eb, e') = bind-eq-ok (f x) (λ y. map_result f xs >>= λ rest. ok (y ∷ rest)) e in
    let (rest, er, e'') = bind-eq-ok (map_result f xs) (λ rest. ok (b ∷ rest)) e' in
    subst (Every P) (ok_injective e'') (h x b eb, map_result-Every P f h xs rest er)

abbrev Sound : Compiled → Type 0
Sound c = c.1 ≡ false → IgnoresEnd c.0

module _ (ev : CommandEvent) (t : Text) (d x : Option ℤ) where
  all_match-IgnoresEnd :
      (conjunction : List Compiled)
      → Every Sound conjunction
      → term_needs conjunction ≡ false
      → all_match conjunction (with_end ev t d x) ≡ all_match conjunction ev
  unfolding all_match term_needs
  all_match-IgnoresEnd [] s h = refl
  all_match-IgnoresEnd ((p, needs) ∷ conjunction) s h =
      rw (s.0 (ground arith) ev t d x, all_match-IgnoresEnd conjunction s.1 (ground arith))

  any_match-IgnoresEnd :
      (disjunction : List (List Compiled))
      → Every (Every Sound) disjunction
      → terms_need disjunction ≡ false
      → any_match disjunction (with_end ev t d x) ≡ any_match disjunction ev
  unfolding any_match terms_need
  any_match-IgnoresEnd [] s h = refl
  any_match-IgnoresEnd (conjunction ∷ disjunction) s h = rw (
    all_match-IgnoresEnd conjunction s.0 (ground arith),
    any_match-IgnoresEnd disjunction s.1 (ground arith),
  )

parse_term-Sound :
    (clock : TimeParser) (or_term : Text) (conjunction : List Compiled)
    → parse_term clock or_term ≡ ok conjunction
    → Every Sound conjunction
unfolding parse_term
parse_term-Sound clock or_term conjunction e =
    let (clauses, _, e') =
      bind-eq-ok (split_by_and_delimiters or_term) (map_result (parse_clause clock)) e in
    map_result-Every Sound (parse_clause clock) (parse_clause-IgnoresEnd clock) clauses conjunction
      e'

parse_spec_expression-Sound :
    (clock : TimeParser) (spec : Text) (c : Compiled)
    → parse_spec_expression clock spec ≡ ok c
    → Sound c
unfolding parse_spec_expression
parse_spec_expression-Sound clock spec c e =
    let finish : List (List Compiled) → Result QueryError Compiled =
      λ disjunction. ok (any_match disjunction, terms_need disjunction) in
    let (or_terms, _, e') =
      bind-eq-ok (split_by_delimiter spec (codes "||"))
        (λ or_terms. map_result (parse_term clock) or_terms >>= finish) e in
    let (disjunction, parsed, e'') =
      bind-eq-ok (map_result (parse_term clock) or_terms) finish e' in
    subst Sound (ok_injective e'') λ h ev t d x.
      any_match-IgnoresEnd ev t d x disjunction
        (map_result-Every (Every Sound) (parse_term clock) (parse_term-Sound clock) or_terms
          disjunction parsed)
        h

abbrev EveryIgnoresEnd : Filter → Type 0
EveryIgnoresEnd f = f.needs_finalized_command ≡ false → Every IgnoresEnd f.predicates

-- `Filter` after one more query text.
abbrev with_spec : Filter → Compiled → Filter
with_spec out compiled = record {
  predicates = out.predicates ++ (compiled.0 ∷ []);
  needs_finalized_command = if compiled.1 then true else out.needs_finalized_command;
}

with_spec-EveryIgnoresEnd :
    (out : Filter) (c : Compiled)
    → EveryIgnoresEnd out
    → Sound c
    → EveryIgnoresEnd (with_spec out c)
with_spec-EveryIgnoresEnd out (p, true) g s h = cc
with_spec-EveryIgnoresEnd out (p, false) g s h =
    Every-append IgnoresEnd out.predicates (p ∷ []) (g h) (s refl, tt)

build_onto-EveryIgnoresEnd :
    (clock : TimeParser) (specs : List Text) (out f : Filter)
    → EveryIgnoresEnd out
    → build_onto clock specs out ≡ ok f
    → EveryIgnoresEnd f
unfolding build_onto
build_onto-EveryIgnoresEnd clock [] out f g e = subst EveryIgnoresEnd (ok_injective e) g
build_onto-EveryIgnoresEnd clock (spec ∷ specs) out f g e =
    let (c, parsed, e') =
      bind-eq-ok (parse_spec_expression clock spec) (λ c. build_onto clock specs (with_spec out c))
        e in
    build_onto-EveryIgnoresEnd clock specs (with_spec out c) f
      (with_spec-EveryIgnoresEnd out c g (parse_spec_expression-Sound clock spec c parsed)) e'

match_all-IgnoresEnd :
    (ps : List Predicate) (ev : CommandEvent) (t : Text) (d x : Option ℤ)
    → Every IgnoresEnd ps
    → match_all ps (with_end ev t d x) ≡ match_all ps ev
unfolding match_all
match_all-IgnoresEnd [] ev t d x h = refl
match_all-IgnoresEnd (p ∷ ps) ev t d x h = rw (h.0 ev t d x, match_all-IgnoresEnd ps ev t d x h.1)

-- A filter that `Build` compiles from any list of query texts, and that does not ask for the
-- joined end record, answers for every event as it does with any other end timestamp, duration
-- and exit status in its place.
pub build-IgnoresEnd :
    (clock : TimeParser) (specs : List Text) (f : Filter)
    → build clock specs ≡ ok f
    → f.needs_finalized_command ≡ false
    → (ev : CommandEvent) (t : Text) (d x : Option ℤ) → matches f (with_end ev t d x) ≡ matches f ev
unfolding build matches
build-IgnoresEnd clock specs f e h ev t d x = match_all-IgnoresEnd f.predicates ev t d x (
    build_onto-EveryIgnoresEnd clock specs
      (record { predicates = []; needs_finalized_command = false }) f (λ _. tt) e h)
