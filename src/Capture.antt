-- ===== src/Capture.antt =====
-- internal/collector/capture_filter_linux.go: how the rules of the capture filter are compiled to
-- clauses. The eBPF program that is generated from them, with its map descriptors, is not modelled.
-- Errors are values, with the indices and the texts that their messages quote.
pub mod Policy
pub mod Identities
pub mod Resolved
use prec.Base.{
  ℕ, zero, suc, ◌+◌, ◌-◌, ◌*◌, ◌/◌, ◌%◌, ◌^◌, ◌≤◌, ◌<◌, min, String, ◌≡◌, refl, sym, ap, ap₂, ◌∙◌,
  ◌≡⟨◌⟩◌, ◌∎, ◌≢◌, ◌↔◌, ◌⊎◌, inl, inr, Bool, true, false, not, ◌&&◌, ◌||◌, Option, none, some, List,
  [], ◌∷◌, ◌++◌, map, append-nil, append_assoc, arith, ltb, leb, ◌==◌, if◌then◌else◌, Bool-cases,
  Option-cases, ==_iff, ltb→lt, lt→ltb, leb→le, tests, length, get_elem?, get_or, set, take, drop,
  replicate, length-append, ℤ, pos, negsuc, pos_part, neg_part, ltb_ℤ, leb_ℤ, eqb_ℤ, ◌≤ℤ◌,
  eqb_ℤ_iff, Result, ok, err, ◌>>=◌, bind-eq-ok, map_result, Result-cases, ok_injective,
  bind_ok-eq-err,
}
use prec.Text.{Text, codes, is_empty, equal, one_of, trim_space, split}
use prec.Text.Number.{parse_uint32}
use prec.Query.Operator.{first_operator}

-- `captureField`
pub data CaptureField : Type 0 where
  uid gid pid comm : CaptureField

-- `captureClause`
pub record CaptureClause : Type 0 where
  pub field : CaptureField
  pub op : Text
  pub value : ℕ
  pub text : Text
  pub identity_index : ℕ

-- `captureIdentity`
pub record CaptureIdentity : Type 0 where
  pub field : CaptureField
  pub name : Text

-- `capturePolicy`, with the `identityIndexes` of `compileCaptureFilter`.
pub record CapturePolicy : Type 0 where
  pub rules : List (List CaptureClause)
  pub has_comm : Bool
  pub identities : List CaptureIdentity
  pub identity_indexes : List (CaptureIdentity × ℕ)

pub data CaptureError : Type 0 where
  empty_clause invalid_clause empty_value bad_operator bad_value long_comm bad_field :
      Text → CaptureError

-- An error with what stands before its message: the indices of the rule, and of the term and the
-- clause in it. Too many names are reported with no index.
pub data FilterError : Type 0 where
  names_full : FilterError
  empty_rule no_plus empty_expression : ℕ → FilterError
  bad_rule : ℕ → CaptureError → FilterError
  bad_term : ℕ → ℕ → CaptureError → FilterError
  bad_clause : ℕ → ℕ → ℕ → CaptureError → FilterError

-- `captureIdentityMax`
abbrev pub capture_identity_max : ℕ
capture_identity_max = 4096

-- The loop of `splitCaptureExpression`.
unfoldable pub trimmed_parts : Text → List Text → Result CaptureError (List Text)
trimmed_parts raw [] = ok []
trimmed_parts raw (part ∷ parts) =
    if is_empty (trim_space part)
    then err (empty_clause raw)
    else (trimmed_parts raw parts >>= λ out. ok (trim_space part ∷ out))

-- `splitCaptureExpression`
unfoldable pub split_capture_expression : Text → Text → Result CaptureError (List Text)
unfolding trimmed_parts
split_capture_expression raw delimiter = trimmed_parts raw (split raw delimiter)

-- The operators of `parseCaptureClause`, in the order in which they are looked for.
abbrev capture_operators : List Text
capture_operators =
    codes "!="
    ∷ codes ">="
    ∷ codes "<="
    ∷ codes "="
    ∷ codes ">"
    ∷ codes "<"
    ∷ codes "~="
    ∷ codes "!~="
    ∷ []

-- `isCaptureNumericOperator`
unfoldable is_capture_numeric_operator : Text → Bool
is_capture_numeric_operator op =
    one_of op (codes "=" ∷ codes "!=" ∷ codes ">" ∷ codes ">=" ∷ codes "<" ∷ codes "<=" ∷ [])

-- `captureFieldForKey`
unfoldable capture_field_for_key : Text → CaptureField
capture_field_for_key key =
    if equal key (codes "gid") then gid else if equal key (codes "pid") then pid else uid

-- `len(s)`: the bytes of a text in UTF-8.
unfoldable byte_length : Text → ℕ
byte_length [] = 0
byte_length (c ∷ s) =
    (if ltb c 0x80 then 1 else if ltb c 0x800 then 2 else if ltb c 0x10000 then 3 else 4)
    + byte_length s

-- `uid`, `gid` and `pid`.
unfoldable pub number_capture : Text → Text → Text → Result CaptureError CaptureClause
unfolding is_capture_numeric_operator capture_field_for_key
number_capture key op val =
    if not (is_capture_numeric_operator op)
    then err (bad_operator op)
    else elim (parse_uint32 val) [
      | none ↦ err (bad_value val)
      | some n ↦ ok (record {
        field = capture_field_for_key key;
        op = op;
        value = n;
        text = [];
        identity_index = 0;
      })
    ]

-- `user`, `group` and `comm`.
abbrev text_capture : CaptureField → Text → Text → Result CaptureError CaptureClause
text_capture field op val =
    if not (equal op (codes "=")) && not (equal op (codes "!="))
    then err (bad_operator op)
    else ok (record { field = field; op = op; value = 0; text = val; identity_index = 0 })

unfoldable pub comm_capture : Text → Text → Result CaptureError CaptureClause
unfolding byte_length
comm_capture op val = text_capture comm op val >>= λ clause.
    if ltb 15 (byte_length val) then err (long_comm val) else ok clause

-- `parseCaptureClause` behind the search for the operator.
unfoldable pub keyed_capture : Text → Text → Text → Result CaptureError CaptureClause
unfolding number_capture comm_capture one_of equal
keyed_capture key op val =
    if is_empty val
    then err (empty_value key)
    else if one_of key (codes "uid" ∷ codes "gid" ∷ codes "pid" ∷ [])
    then number_capture key op val
    else if one_of key (codes "user" ∷ codes "group" ∷ [])
    then text_capture (if equal key (codes "group") then gid else uid) op val
    else if equal key (codes "comm")
    then comm_capture op val
    else err (bad_field key)

-- `parseCaptureClause`
unfoldable pub parse_capture_clause : Text → Result CaptureError CaptureClause
unfolding keyed_capture
parse_capture_clause raw = elim (first_operator capture_operators raw) [
  | none ↦ err (invalid_clause raw)
  | some (op, place) ↦
      keyed_capture (trim_space (take place raw)) op (trim_space (drop (place + length op) raw))
]
