-- ===== src/Query/Filter.antt =====
-- internal/query/filter.go: `Build`, `Filter` and `SpecHasKey`.
pub mod StartView
pub mod Meaning
use prec.Base.{
  ℕ, zero, suc, ◌+◌, ◌-◌, ◌*◌, ◌/◌, ◌%◌, ◌^◌, ◌≤◌, ◌<◌, min, String, ◌≡◌, refl, sym, ap, ap₂, ◌∙◌,
  ◌≡⟨◌⟩◌, ◌∎, ◌≢◌, ◌↔◌, ◌⊎◌, inl, inr, Bool, true, false, not, ◌&&◌, ◌||◌, Option, none, some, List,
  [], ◌∷◌, ◌++◌, map, append-nil, append_assoc, arith, ltb, leb, ◌==◌, if◌then◌else◌, Bool-cases,
  Option-cases, ==_iff, ltb→lt, lt→ltb, leb→le, tests, length, get_elem?, get_or, set, take, drop,
  replicate, length-append, ℤ, pos, negsuc, pos_part, neg_part, ltb_ℤ, leb_ℤ, eqb_ℤ, ◌≤ℤ◌,
  eqb_ℤ_iff, Result, ok, err, ◌>>=◌, bind-eq-ok, map_result,
}
use prec.Text.{Text, codes}
use prec.Event.{CommandEvent}
use prec.Query.Field.{TimeParser}
use prec.Query.Split.{QueryError, split_by_delimiter, split_by_and_delimiters}
use prec.Query.Clause.{Predicate, Compiled, parse_clause, clause_has_key}

-- `Filter`
pub record Filter : Type 0 where
  pub predicates : List Predicate
  pub needs_finalized_command : Bool

-- The two loops of the closure that `parseSpecExpression` returns.
unfoldable pub all_match : List Compiled → CommandEvent → Bool
all_match [] ev = true
all_match ((pred, _) ∷ conjunction) ev = if not (pred ev) then false else all_match conjunction ev

unfoldable pub any_match : List (List Compiled) → CommandEvent → Bool
unfolding all_match
any_match [] ev = false
any_match (conjunction ∷ disjunction) ev =
    if all_match conjunction ev then true else any_match disjunction ev

-- `needsFinalizedCommand` after the loop over the clauses of one term, and over all terms.
unfoldable pub term_needs : List Compiled → Bool
term_needs [] = false
term_needs ((_, needs) ∷ conjunction) = needs || term_needs conjunction

unfoldable pub terms_need : List (List Compiled) → Bool
unfolding term_needs
terms_need [] = false
terms_need (conjunction ∷ disjunction) = term_needs conjunction || terms_need disjunction

module _ (clock : TimeParser) where
  -- The body of the loop over `orTerms`.
  unfoldable pub parse_term : Text → Result QueryError (List Compiled)
  parse_term or_term = split_by_and_delimiters or_term >>= map_result (parse_clause clock)

  -- `parseSpecExpression`
  unfoldable pub parse_spec_expression : Text → Result QueryError Compiled
  unfolding parse_term any_match terms_need
  parse_spec_expression spec = split_by_delimiter spec (codes "||") >>= λ or_terms.
      map_result parse_term or_terms >>= λ disjunction.
      ok (any_match disjunction, terms_need disjunction)

  -- The loop of `Build`; `out` is what it has collected.
  unfoldable pub build_onto : List Text → Filter → Result QueryError Filter
  unfolding parse_spec_expression
  build_onto [] out = ok out
  build_onto (spec ∷ specs) out = parse_spec_expression spec >>= λ compiled.
      build_onto specs (record {
        predicates = out.predicates ++ (compiled.0 ∷ []);
        needs_finalized_command = if compiled.1 then true else out.needs_finalized_command;
      })

  -- `Build`
  unfoldable pub build : List Text → Result QueryError Filter
  unfolding build_onto
  build specs = build_onto specs (record { predicates = []; needs_finalized_command = false })

-- `Filter.Match`
unfoldable pub match_all : List Predicate → CommandEvent → Bool
match_all [] ev = true
match_all (pred ∷ predicates) ev = if not (pred ev) then false else match_all predicates ev

unfoldable pub matches : Filter → CommandEvent → Bool
unfolding match_all
matches f ev = match_all f.predicates ev

-- The loops of `SpecHasKey`; a term that cannot be cut ends the search.
unfoldable any_clause_has_key : List Text → Text → Bool
any_clause_has_key [] key = false
any_clause_has_key (clause ∷ clauses) key =
    if clause_has_key clause key then true else any_clause_has_key clauses key

unfoldable any_term_has_key : List Text → Text → Bool
unfolding any_clause_has_key
any_term_has_key [] key = false
any_term_has_key (or_term ∷ or_terms) key = elim (split_by_and_delimiters or_term) [
  | err _ ↦ false
  | ok clauses ↦ if any_clause_has_key clauses key then true else any_term_has_key or_terms key
]

-- `SpecHasKey`
unfoldable pub spec_has_key : Text → Text → Bool
unfolding any_term_has_key
spec_has_key spec key = elim (split_by_delimiter spec (codes "||")) [
  | err _ ↦ false
  | ok or_terms ↦ any_term_has_key or_terms key
]
