-- ===== src/Rules.antt =====
-- internal/filter/filter.go: the daemon's allow and deny rules. The two fields of `config.Config`
-- that are read besides the rules are arguments of `new_matcher`.
pub mod Laws
use prec.Base.{
  ℕ, zero, suc, ◌+◌, ◌-◌, ◌*◌, ◌/◌, ◌%◌, ◌^◌, ◌≤◌, ◌<◌, min, String, ◌≡◌, refl, sym, ap, ap₂, ◌∙◌,
  ◌≡⟨◌⟩◌, ◌∎, ◌≢◌, ◌↔◌, ◌⊎◌, inl, inr, Bool, true, false, not, ◌&&◌, ◌||◌, Option, none, some, List,
  [], ◌∷◌, ◌++◌, map, append-nil, append_assoc, arith, ltb, leb, ◌==◌, if◌then◌else◌, Bool-cases,
  Option-cases, ==_iff, ltb→lt, lt→ltb, leb→le, tests, length, get_elem?, get_or, set, take, drop,
  replicate, length-append, ℤ, pos, negsuc, pos_part, neg_part, ltb_ℤ, leb_ℤ, eqb_ℤ, ◌≤ℤ◌,
  eqb_ℤ_iff, Result, ok, err, ◌>>=◌, bind-eq-ok, map_result,
}
use prec.Text.{Text, codes, is_empty, equal, trim_space}
use prec.Event.{CommandEvent, source_user}
use prec.Query.Field.{TimeParser}
use prec.Query.Split.{QueryError}
use prec.Query.Filter.{Filter, build, matches}

-- `compiledRule`
pub record CompiledRule : Type 0 where
  pub allow : Bool
  pub filter : Filter

-- `Matcher`
pub record Matcher : Type 0 where
  pub default_allow : Bool
  pub rules : List CompiledRule
  pub user_only : Bool

pub data RuleError : Type 0 where
  empty_rule : RuleError
  missing_action : Text → RuleError
  empty_expression : Text → RuleError
  bad_query : QueryError → RuleError

module _ (clock : TimeParser) where
  unfoldable compile_expression : Bool → Text → Text → Result RuleError CompiledRule
  compile_expression allow trimmed expr =
      if is_empty expr then err (empty_expression trimmed) else elim (build clock (expr ∷ [])) [
        | err e ↦ err (bad_query e)
        | ok compiled ↦ ok (record { allow = allow; filter = compiled })
      ]

  -- `trimmed[0]` and what stands behind it.
  unfoldable pub compile_trimmed : Text → Result RuleError CompiledRule
  unfolding compile_expression
  compile_trimmed [] = err empty_rule
  compile_trimmed (prefix ∷ rest) =
      if not (prefix == b'+') && not (prefix == b'-')
      then err (missing_action (prefix ∷ rest))
      else compile_expression (prefix == b'+') (prefix ∷ rest) (trim_space rest)

  -- `compileRule`
  unfoldable pub compile_rule : Text → Result RuleError CompiledRule
  unfolding compile_trimmed
  compile_rule raw = compile_trimmed (trim_space raw)

  -- The loop of `NewMatcher` from index `i` on; an error carries its index.
  unfoldable pub compile_rules : ℕ → List Text → Result (ℕ × RuleError) (List CompiledRule)
  compile_rules i [] = ok []
  compile_rules i (raw ∷ filter) = elim (compile_rule raw) [
    | err e ↦ err (i, e)
    | ok rule ↦ compile_rules (i + 1) filter >>= λ rules. ok (rule ∷ rules)
  ]

  -- `NewMatcher`
  unfoldable new_matcher : List Text → Text → Bool → Result (ℕ × RuleError) Matcher
  unfolding compile_rules
  new_matcher filter filter_default user_only = compile_rules 0 filter >>= λ rules. ok (record {
    default_allow = not (equal filter_default (codes "deny"));
    rules = rules;
    user_only = user_only;
  })

-- The loop of `Matcher.Match`.
unfoldable pub first_rule : List CompiledRule → Bool → CommandEvent → Bool
first_rule [] default_allow ev = default_allow
first_rule (rule ∷ rules) default_allow ev =
    if matches rule.filter ev then rule.allow else first_rule rules default_allow ev

-- `Matcher.Match`
unfoldable pub keeps : Matcher → CommandEvent → Bool
unfolding first_rule equal
keeps m ev =
    if m.user_only && not (equal ev.source source_user)
    then false
    else first_rule m.rules m.default_allow ev
