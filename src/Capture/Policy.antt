-- ===== src/Capture/Policy.antt =====
-- internal/collector/capture_filter_linux.go: `compileCaptureFilter`. The map of identities is an
-- association list to which new entries are appended.
use prec.Base.{
  ℕ, ◌+◌, Bool, true, false, not, ◌&&◌, Option, none, some, List, [], ◌∷◌, ◌++◌, ◌==◌,
  if◌then◌else◌, length, Result, ok, err, ◌>>=◌,
}
use prec.Text.{Text, codes, is_empty, equal, trim_space}
use prec.Capture.{
  CaptureField, uid, gid, pid, comm, CaptureClause, CaptureIdentity, CapturePolicy, CaptureError,
  FilterError, names_full, empty_rule, no_plus, empty_expression, bad_rule, bad_term, bad_clause,
  capture_identity_max, split_capture_expression, parse_capture_clause,
}

-- The number of a field, by which two are compared.
abbrev pub number_of : CaptureField → ℕ
number_of uid = 0
number_of gid = 1
number_of pid = 2
number_of comm = 3

abbrev pub same_identity : CaptureIdentity → CaptureIdentity → Bool
same_identity a b = number_of a.field == number_of b.field && equal a.name b.name

-- `identityIndexes[identity]`
unfoldable pub index_of : CaptureIdentity → List (CaptureIdentity × ℕ) → Option ℕ
index_of identity [] = none
index_of identity ((i, index) ∷ indexes) =
    if same_identity identity i then some index else index_of identity indexes

-- The clause of a name, at the index that its identity has or is given.
unfoldable pub indexed :
    CapturePolicy
    → CaptureClause
    → CaptureIdentity
    → Result FilterError (CapturePolicy × CaptureClause)
unfolding index_of
indexed policy parsed identity = elim (index_of identity policy.identity_indexes) [
  | some index ↦ ok (policy, record parsed { identity_index = index })
  | none ↦
      if length policy.identities == capture_identity_max
      then err names_full
      else ok (
        record policy {
          identities = policy.identities ++ (identity ∷ []);
          identity_indexes = policy.identity_indexes ++ ((identity, length policy.identities) ∷ []);
        },
        record parsed { identity_index = length policy.identities },
      )
]

-- The body of the innermost loop of `compileCaptureFilter`, on a parsed clause.
unfoldable pub resolve :
    CapturePolicy → CaptureClause → Result FilterError (CapturePolicy × CaptureClause)
unfolding indexed
resolve policy parsed =
    if number_of parsed.field == number_of comm
    then ok (record policy { has_comm = true }, parsed)
    else if not (is_empty parsed.text)
    then indexed policy parsed (record { field = parsed.field; name = parsed.text })
    else ok (policy, parsed)

abbrev pub relabel :
    {A : Type 0} → (CaptureError → FilterError) → Result CaptureError A → Result FilterError A
relabel label (ok a) = ok a
relabel label (err e) = err (label e)

-- The loop over the clauses of a term.
unfoldable pub compile_clauses :
    ℕ
    → ℕ
    → ℕ
    → List Text
    → CapturePolicy
    → List CaptureClause
    → Result FilterError (CapturePolicy × List CaptureClause)
unfolding resolve
compile_clauses rule term clause [] policy compiled = ok (policy, compiled)
compile_clauses rule term clause (text ∷ texts) policy compiled =
    relabel (bad_clause rule term clause) (parse_capture_clause text) >>= λ parsed.
    resolve policy parsed >>= λ resolved.
    compile_clauses rule term (clause + 1) texts resolved.0 (compiled ++ (resolved.1 ∷ []))

-- The loop over the terms of a rule.
unfoldable pub compile_terms : ℕ → ℕ → List Text → CapturePolicy → Result FilterError CapturePolicy
unfolding compile_clauses
compile_terms rule term [] policy = ok policy
compile_terms rule term (text ∷ texts) policy =
    relabel (bad_term rule term) (split_capture_expression text (codes "&&")) >>= λ clauses.
    compile_clauses rule term 0 clauses policy [] >>= λ compiled.
    compile_terms rule (term + 1) texts
      (record compiled.0 { rules = compiled.0.rules ++ (compiled.1 ∷ []) })

-- One rule, trimmed: `trimmed[0] != '+'`, and the expression behind it.
unfoldable pub capture_expression : ℕ → Text → CapturePolicy → Result FilterError CapturePolicy
unfolding compile_terms
capture_expression rule expr policy =
    if is_empty expr
    then err (empty_expression rule)
    else (relabel (bad_rule rule) (split_capture_expression expr (codes "||")) >>= λ or_terms.
        compile_terms rule 0 or_terms policy)

unfoldable pub capture_trimmed : ℕ → Text → CapturePolicy → Result FilterError CapturePolicy
unfolding capture_expression
capture_trimmed rule [] policy = err (empty_rule rule)
capture_trimmed rule (c ∷ rest) policy =
    if not (c == b'+') then err (no_plus rule) else capture_expression rule (trim_space rest) policy

-- The loop over the rules.
unfoldable pub capture_rules : ℕ → List Text → CapturePolicy → Result FilterError CapturePolicy
unfolding capture_trimmed
capture_rules rule [] policy = ok policy
capture_rules rule (raw ∷ raws) policy =
    capture_trimmed rule (trim_space raw) policy >>= λ next. capture_rules (rule + 1) raws next

-- `compileCaptureFilter`
unfoldable pub compile_capture_filter : List Text → Result FilterError CapturePolicy
unfolding capture_rules
compile_capture_filter raw_rules =
    capture_rules 0 raw_rules
      (record { rules = []; has_comm = false; identities = []; identity_indexes = [] })
