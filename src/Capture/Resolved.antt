-- ===== src/Capture/Resolved.antt =====
-- internal/collector/capture_filter_linux.go: the loops of `compileCaptureFilter`.
use prec.Base.{
  ℕ, ◌+◌, ◌≤◌, ◌≡◌, inl, inr, false, List, [], ◌∷◌, ◌++◌, arith, ◌==◌, Bool-cases, length, ok,
  bind-eq-ok, ok_injective,
}
use mathlib.Core.Path.{subst}
use prec.Base.{Every, Every-append, Every-map}
use prec.Text.{Text, codes, trim_space}
use prec.Capture.{
  CaptureClause, CapturePolicy, bad_rule, bad_term, bad_clause, capture_identity_max,
  split_capture_expression, parse_capture_clause,
}
use prec.Capture.Policy.{
  resolve, relabel, index_of, compile_clauses, compile_terms, capture_expression, capture_trimmed,
  capture_rules, compile_capture_filter,
}
use prec.Capture.Identities.{Resolved, Sound, resolve-Step}

-- A sound policy, and resolved clauses of the rule that is being compiled.
abbrev SoundWith : CapturePolicy × List CaptureClause → Type 0
SoundWith p = Sound p.0 × Every (Resolved p.0.identities) p.1

compile_clauses-Sound :
    (texts : List Text) (rule term clause : ℕ) (policy : CapturePolicy)
    (compiled : List CaptureClause) (p : CapturePolicy × List CaptureClause)
    → SoundWith (policy, compiled)
    → compile_clauses rule term clause texts policy compiled ≡ ok p
    → SoundWith p
unfolding compile_clauses
compile_clauses-Sound [] rule term clause policy compiled p s h = subst SoundWith (ok_injective h) s
compile_clauses-Sound (text ∷ texts) rule term clause policy compiled p s h =
    let (parsed, _, h1) =
      bind-eq-ok (relabel (bad_clause rule term clause) (parse_capture_clause text)) _ h in
    let (resolved, e, h2) = bind-eq-ok (resolve policy parsed) _ h1 in
    let step = resolve-Step policy parsed resolved s.0 e in
    compile_clauses-Sound texts rule term (clause + 1) resolved.0 (compiled ++ (resolved.1 ∷ [])) p
      (
        step.sound,
        Every-append (Resolved resolved.0.identities) compiled (resolved.1 ∷ [])
            (Every-map (Resolved policy.identities) _ step.kept compiled s.1) (step.here, tt),
      )
      h2

-- A finished rule is added.
with_rule-Sound :
    (p : CapturePolicy × List CaptureClause)
    → SoundWith p
    → Sound (record p.0 { rules = p.0.rules ++ (p.1 ∷ []) })
with_rule-Sound p s = record {
  bounded = s.0.bounded;
  found = s.0.found;
  resolved =
      Every-append (Every (Resolved p.0.identities)) p.0.rules (p.1 ∷ []) s.0.resolved (s.1, tt);
}

compile_terms-Sound :
    (texts : List Text) (rule term : ℕ) (policy next : CapturePolicy)
    → Sound policy
    → compile_terms rule term texts policy ≡ ok next
    → Sound next
unfolding compile_terms
compile_terms-Sound [] rule term policy next s h = subst Sound (ok_injective h) s
compile_terms-Sound (text ∷ texts) rule term policy next s h =
    let (clauses, _, h1) =
      bind-eq-ok (relabel (bad_term rule term) (split_capture_expression text (codes "&&"))) _ h in
    let (compiled, e, h2) = bind-eq-ok (compile_clauses rule term 0 clauses policy []) _ h1 in
    compile_terms-Sound texts rule (term + 1)
      (record compiled.0 { rules = compiled.0.rules ++ (compiled.1 ∷ []) }) next
      (with_rule-Sound compiled
        (compile_clauses-Sound clauses rule term 0 policy [] compiled (s, tt) e))
      h2

capture_expression-Sound :
    (rule : ℕ) (expr : Text) (policy next : CapturePolicy)
    → Sound policy
    → capture_expression rule expr policy ≡ ok next
    → Sound next
unfolding capture_expression
capture_expression-Sound rule [] policy next s h = cc
capture_expression-Sound rule (c ∷ expr) policy next s h =
    let (or_terms, _, h1) =
      bind-eq-ok (relabel (bad_rule rule) (split_capture_expression (c ∷ expr) (codes "||"))) _ h in
    compile_terms-Sound or_terms rule 0 policy next s h1

capture_trimmed-Sound :
    (rule : ℕ) (trimmed : Text) (policy next : CapturePolicy)
    → Sound policy
    → capture_trimmed rule trimmed policy ≡ ok next
    → Sound next
unfolding capture_trimmed
capture_trimmed-Sound rule [] policy next s h = cc
capture_trimmed-Sound rule (c ∷ rest) policy next s h = elim (Bool-cases (c == b'+')) [
  | inl plus ↦ capture_expression-Sound rule (trim_space rest) policy next s (rw plus at h)
  | inr other ↦ cc (rw other at h)
]

capture_rules-Sound :
    (raws : List Text) (rule : ℕ) (policy next : CapturePolicy)
    → Sound policy
    → capture_rules rule raws policy ≡ ok next
    → Sound next
unfolding capture_rules
capture_rules-Sound [] rule policy next s h = subst Sound (ok_injective h) s
capture_rules-Sound (raw ∷ raws) rule policy next s h =
    let (middle, e, h1) = bind-eq-ok (capture_trimmed rule (trim_space raw) policy) _ h in
    capture_rules-Sound raws (rule + 1) middle next
      (capture_trimmed-Sound rule (trim_space raw) policy middle s e) h1

-- A policy that `compileCaptureFilter` returns has at most the allowed number of names, and in each
-- of its rules a clause that is not on comm and has a text carries the index at which the policy
-- holds that field and that text.
pub compile_capture_filter-Resolved :
    (raw_rules : List Text) (policy : CapturePolicy)
    → compile_capture_filter raw_rules ≡ ok policy
    → (length policy.identities ≤ capture_identity_max)
      × Every (Every (Resolved policy.identities)) policy.rules
unfolding compile_capture_filter
compile_capture_filter-Resolved raw_rules policy h =
    let s : Sound policy = capture_rules-Sound raw_rules 0 _ policy nothing h in
    (s.bounded, s.resolved)
  where
    nothing :
        Sound (record { rules = []; has_comm = false; identities = []; identity_indexes = [] })
    nothing = record {
      bounded = omega arith;
      found = λ i index e. absurd (unfold index_of in cc e);
      resolved = tt;
    }
