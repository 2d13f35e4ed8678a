-- ===== src/Tests/Captures.antt =====
-- internal/collector/capture_filter_linux.go on one rule of two clauses.
use prec.Base.{ℕ, ◌≤◌, ◌≡◌, refl, false, [], ◌∷◌, ok}
use prec.Base.{Every}
use prec.Text.{
  Text, codes, equal, one_of, is_space, trim_left, trim_right, trim_space, has_prefix, index,
  split_onto, split,
}
use prec.Query.Operator.{first_operator}
use prec.Capture.{
  uid, CaptureClause, CapturePolicy, capture_identity_max, trimmed_parts, split_capture_expression,
  keyed_capture, number_capture, comm_capture, parse_capture_clause,
}
use prec.Capture.Policy.{
  index_of, indexed, resolve, compile_clauses, compile_terms, capture_expression, capture_trimmed,
  capture_rules, compile_capture_filter,
}
use prec.Capture.Identities.{Resolved}
use prec.Capture.Resolved.{compile_capture_filter-Resolved}

abbrev on_root : ℕ → Text → CaptureClause
on_root index name = record {
  field = uid;
  op = codes "=";
  value = 0;
  text = name;
  identity_index = index;
}

-- The policy of two rules that name two users.
abbrev two_users : CapturePolicy
two_users = record {
  rules =
      (on_root 0 (codes "a") ∷ [])
      ∷ (on_root 1 (codes "b") ∷ [])
      ∷ (on_root 0 (codes "a") ∷ [])
      ∷ [];
  has_comm = false;
  identities =
      record { field = uid; name = codes "a" } ∷ record { field = uid; name = codes "b" } ∷ [];
  identity_indexes =
      (record { field = uid; name = codes "a" }, 0)
      ∷ (record { field = uid; name = codes "b" }, 1)
      ∷ [];
}

two_users_compiled :
    compile_capture_filter (codes "+user=a || user=b" ∷ codes "+ user = a" ∷ []) ≡ ok two_users
unfolding compile_capture_filter capture_rules capture_trimmed capture_expression compile_terms
    compile_clauses resolve indexed index_of split_capture_expression trimmed_parts split split_onto
    has_prefix trim_space trim_left trim_right is_space parse_capture_clause keyed_capture
    number_capture comm_capture one_of equal first_operator index
two_users_compiled = refl

compile_capture_filter-Resolved_example :
    (2 ≤ capture_identity_max) × Every (Every (Resolved two_users.identities)) two_users.rules
compile_capture_filter-Resolved_example =
    compile_capture_filter-Resolved (codes "+user=a || user=b" ∷ codes "+ user = a" ∷ []) two_users
      two_users_compiled
