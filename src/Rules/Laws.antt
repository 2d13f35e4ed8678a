-- ===== src/Rules/Laws.antt =====
-- internal/filter/filter.go: which rule decides, and which rule an error names.
use prec.Base.{
  ℕ, ◌+◌, ◌≡◌, refl, sym, ap, ◌∙◌, ◌≢◌, ◌⊎◌, inl, inr, Bool, true, false, not, ◌&&◌, List, [], ◌∷◌,
  ◌++◌, arith, Bool-cases, length, ok, err, ◌>>=◌, map_result, Result-cases, bind_ok-eq-err,
}
use mathlib.Core.Path.{subst}
use prec.Text.{Text, equal, equal_iff}
use prec.Event.{CommandEvent, source_user}
use prec.Query.Field.{TimeParser}
use prec.Query.Filter.{matches}
use prec.Rules.{CompiledRule, Matcher, RuleError, compile_rule, compile_rules, first_rule, keeps}

-- No rule of the list matches the event.
abbrev NoneMatch : List CompiledRule → CommandEvent → Type 0
NoneMatch [] ev = Unit {0}
NoneMatch (rule ∷ rules) ev = (matches rule.filter ev ≡ false) × NoneMatch rules ev

-- Rules in order: those before `rule` do not match, and it does.
pub record Decides (rules : List CompiledRule) (ev : CommandEvent) : Type 0 where
  pub before : List CompiledRule
  pub rule : CompiledRule
  pub after : List CompiledRule
  pub splits : rules ≡ before ++ (rule ∷ after)
  pub unmatched : NoneMatch before ev
  pub matched : matches rule.filter ev ≡ true

-- Either a first matching rule decides, or no rule matches and the default does.
abbrev pub Verdict : List CompiledRule → Bool → CommandEvent → Bool → Type 0
Verdict rules default_allow ev verdict =
    ((d : Decides rules ev) × (verdict ≡ d.rule.allow))
    ⊎ (NoneMatch rules ev × (verdict ≡ default_allow))

first_rule-Verdict :
    (rules : List CompiledRule) (default_allow : Bool) (ev : CommandEvent)
    → Verdict rules default_allow ev (first_rule rules default_allow ev)
first_rule-Verdict [] default_allow ev = inr (tt, unfold first_rule in refl)
first_rule-Verdict (rule ∷ rules) default_allow ev = elim (Bool-cases (matches rule.filter ev)) [
  | inl hit ↦ inl (
    record {
      before = [];
      rule = rule;
      after = rules;
      splits = refl;
      unmatched = tt;
      matched = hit;
    },
    unfold first_rule in rw hit,
  )
  | inr miss ↦ later rule rules default_allow ev miss (first_rule-Verdict rules default_allow ev)
]
  where
    later :
        (rule : CompiledRule) (rules : List CompiledRule) (default_allow : Bool) (ev : CommandEvent)
        → matches rule.filter ev ≡ false
        → Verdict rules default_allow ev (first_rule rules default_allow ev)
        → Verdict (rule ∷ rules) default_allow ev (first_rule (rule ∷ rules) default_allow ev)
    later rule rules default_allow ev miss (inl (d, e)) = inl (
      record {
        before = rule ∷ d.before;
        rule = d.rule;
        after = d.after;
        splits = ap (◌∷◌ rule) d.splits;
        unmatched = (miss, d.unmatched);
        matched = d.matched;
      },
      unfold first_rule in rw miss e,
    )
    later rule rules default_allow ev miss (inr (n, e)) =
        inr ((miss, n), unfold first_rule in rw miss e)

-- What `Matcher.Match` answers: false for an event of another source than the user's if the
-- matcher is restricted to the user's; and else the action of the first rule that matches, or the
-- default if none does.
pub keeps-Verdict :
    (m : Matcher) (ev : CommandEvent)
    → ((m.user_only ≡ true) × (ev.source ≢ source_user) × (keeps m ev ≡ false))
      ⊎ (((m.user_only ≡ false) ⊎ (ev.source ≡ source_user))
          × Verdict m.rules m.default_allow ev (keeps m ev))
keeps-Verdict m ev = elim (Bool-cases (m.user_only && not (equal ev.source source_user))) [
  | inl stop ↦
      let refused : keeps m ev ≡ false = unfold keeps in rw stop in
      inl (ground arith, (λ e. ground (arith, equal_iff ev.source source_user)), refused)
  | inr go ↦
      let asked : keeps m ev ≡ first_rule m.rules m.default_allow ev = unfold keeps in rw go in
      inr (
        unrestricted go,
        subst (Verdict m.rules m.default_allow ev) (sym asked)
            (first_rule-Verdict m.rules m.default_allow ev),
      )
]
  where
    unrestricted :
        (m.user_only && not (equal ev.source source_user)) ≡ false
        → (m.user_only ≡ false) ⊎ (ev.source ≡ source_user)
    unrestricted go = elim (Bool-cases m.user_only) [
      | inr anyone ↦ inl anyone
      | inl only ↦ inr ((equal_iff ev.source source_user).0 (ground arith))
    ]

compile_rules-err :
    (clock : TimeParser) (i : ℕ) (raw : Text) (rules : List Text) (e : RuleError)
    → compile_rule clock raw ≡ err e
    → compile_rules clock i (raw ∷ rules) ≡ err (i, e)
compile_rules-err clock i raw rules e h = unfold compile_rules in rw (h, compile_rules)

compile_rules-ok :
    (clock : TimeParser) (i : ℕ) (raw : Text) (rules : List Text) (rule : CompiledRule)
    → compile_rule clock raw ≡ ok rule
    → compile_rules clock i (raw ∷ rules)
      ≡ (compile_rules clock (i + 1) rules >>= λ rest. ok (rule ∷ rest))
compile_rules-ok clock i raw rules rule h = unfold compile_rules in rw (h, compile_rules)

-- An error of `NewMatcher` names a rule: that rule is the first that does not compile, and the
-- error is its own.
pub compile_rules-first_error :
    (clock : TimeParser) (rules : List Text) (i k : ℕ) (e : RuleError)
    → compile_rules clock i rules ≡ err (k, e)
    → (before : List Text) × (raw : Text) × (after : List Text) × (compiled : List CompiledRule)
      × (rules ≡ before ++ (raw ∷ after))
      × (k ≡ i + length before)
      × (map_result (compile_rule clock) before ≡ ok compiled)
      × (compile_rule clock raw ≡ err e)
compile_rules-first_error clock [] i k e h = unfold compile_rules in cc
compile_rules-first_error clock (raw ∷ rules) i k e h =
    elim (Result-cases (compile_rule clock raw)) [
      | inr (e', bad) ↦
          let index : i ≡ k = cc (compile_rules-err clock i raw rules e' bad) in
          let why : e' ≡ e = cc (compile_rules-err clock i raw rules e' bad) in
          ([], raw, rules, [], refl, omega arith, refl, cc)
      | inl (rule, good) ↦
          let tail : compile_rules clock (i + 1) rules ≡ err (k, e) =
            bind_ok-eq-err (compile_rules clock (i + 1) rules) (λ rs. rule ∷ rs)
              (sym (compile_rules-ok clock i raw rules rule good) ∙ h) in
          let (before, bad, after, compiled, splits, index, fine, why) =
            compile_rules-first_error clock rules (i + 1) k e tail in
          (
            raw ∷ before,
            bad,
            after,
            rule ∷ compiled,
            ap (◌∷◌ raw) splits,
            omega arith,
            rw (good, fine),
            why,
          )
    ]
