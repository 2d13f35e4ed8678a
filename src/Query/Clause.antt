-- ===== src/Query/Clause.antt =====
-- internal/query/filter.go: one clause of a query, compiled to a predicate on events.
pub mod Render
pub mod StartView
use prec.Base.{
  ℕ, zero, suc, ◌+◌, ◌-◌, ◌*◌, ◌/◌, ◌%◌, ◌^◌, ◌≤◌, ◌<◌, min, String, ◌≡◌, refl, sym, ap, ap₂, ◌∙◌,
  ◌≡⟨◌⟩◌, ◌∎, ◌≢◌, ◌↔◌, ◌⊎◌, inl, inr, Bool, true, false, not, ◌&&◌, ◌||◌, Option, none, some, List,
  [], ◌∷◌, ◌++◌, map, append-nil, append_assoc, arith, ltb, leb, ◌==◌, if◌then◌else◌, Bool-cases,
  Option-cases, ==_iff, ltb→lt, lt→ltb, leb→le, tests, length, get_elem?, get_or, set, take, drop,
  replicate, length-append, ℤ, pos, negsuc, pos_part, neg_part, ltb_ℤ, leb_ℤ, eqb_ℤ, ◌≤ℤ◌,
  eqb_ℤ_iff, Result, ok, err, ◌>>=◌, bind-eq-ok, map_result,
}
use prec.Text.{Text, codes, is_empty, equal, one_of, trim_space, join}
use prec.Text.Number.{parse_int64}
use prec.Event.{CommandEvent, source_user, source_system}
use prec.Event.RecordType
use prec.Query.Operator.{
  find_operator, is_supported_number_operator, is_supported_string_operator, compare_int64,
  compare_time, compare_string,
}
use prec.Query.Field.{
  FieldType, string, number, time, array, duration, field_type_for, is_finalized_only_field,
  numeric_value, duration_value, string_value, TimeParser, time_value, parse_query_time,
}
use prec.Query.Duration.{DurationError, parse_duration_value}
use prec.Query.Split.{
  QueryError, invalid_clause, empty_key, empty_value, invalid_key, number_operator, number_value,
  time_operator, time_value as bad_time, string_operator, source_value, record_type_value,
  array_operator, duration_operator, duration_value as bad_duration,
}

-- `Predicate`
abbrev pub Predicate : Type 0
Predicate = CommandEvent → Bool

-- A predicate, and whether it needs the joined end record.
abbrev pub Compiled : Type 0
Compiled = Predicate × Bool

-- `normalizeSourceValue`
unfoldable normalize_source_value : Text → Result QueryError Text
unfolding one_of
normalize_source_value raw =
    if one_of raw (source_user ∷ source_system ∷ []) then ok raw else err (source_value raw)

-- `normalizeRecordTypeValue`
unfoldable normalize_record_type_value : Text → Result QueryError Text
unfolding one_of
normalize_record_type_value raw =
    if one_of raw (
      RecordType.command ∷ RecordType.fail ∷ RecordType.loss ∷ RecordType.file_open
      ∷ RecordType.file_save ∷ [])
    then ok raw
    else err (record_type_value raw)

-- `left, ok := ...; if !ok { return false }; return compare(left, right, op)`
abbrev when_present : Option ℤ → (ℤ → Bool) → Bool
when_present none test = false
when_present (some left) test = test left

-- The cases of `switch fieldType` in `parseClause`.
unfoldable pub number_clause : Text → Text → Text → Result QueryError Compiled
number_clause key op val =
    if not (is_supported_number_operator op)
    then err (number_operator key op)
    else elim (parse_int64 val) [
      | none ↦ err (number_value key val)
      | some right ↦ ok (
        (λ ev. when_present (numeric_value key ev) (λ left. compare_int64 left right op)),
        is_finalized_only_field key,
      )
    ]

unfoldable pub time_clause : TimeParser → Text → Text → Text → Result QueryError Compiled
time_clause clock key op val =
    if not (is_supported_number_operator op)
    then err (time_operator op)
    else elim (parse_query_time clock val) [
      | none ↦ err (bad_time val)
      | some right ↦ ok (
        (λ ev. when_present (time_value clock key ev) (λ left. compare_time left right op)),
        is_finalized_only_field key,
      )
    ]

-- The values of `source` and `record_type` are checked; any other is taken as it is.
unfoldable pub normalize_value : Text → Text → Result QueryError Text
unfolding normalize_source_value normalize_record_type_value
normalize_value key val =
    (if equal key (codes "source") then normalize_source_value val else ok val) >>= λ v.
    if equal key (codes "record_type") then normalize_record_type_value v else ok v

unfoldable pub string_clause : Text → Text → Text → Result QueryError Compiled
string_clause key op val =
    if not (is_supported_string_operator op)
    then err (string_operator key op)
    else (normalize_value key val >>= λ v.
        ok ((λ ev. compare_string (string_value key ev) v op), false))

unfoldable pub array_clause : Text → Text → Text → Result QueryError Compiled
array_clause key op val =
    if not (is_supported_string_operator op)
    then err (array_operator key op)
    else ok ((λ ev. compare_string (join ev.argv (codes " ")) val op), false)

unfoldable pub duration_clause : Text → Text → Text → Result QueryError Compiled
duration_clause key op val =
    if not (is_supported_number_operator op)
    then err (duration_operator key op)
    else elim (parse_duration_value val) [
      | err _ ↦ err (bad_duration val)
      | ok right ↦ ok (
        (λ ev. when_present (duration_value key ev) (λ left. compare_int64 left (pos right) op)),
        true,
      )
    ]

unfoldable pub typed_clause :
    TimeParser → FieldType → Text → Text → Text → Result QueryError Compiled
unfolding number_clause time_clause string_clause array_clause duration_clause
typed_clause clock number key op val = number_clause key op val
typed_clause clock time key op val = time_clause clock key op val
typed_clause clock string key op val = string_clause key op val
typed_clause clock array key op val = array_clause key op val
typed_clause clock duration key op val = duration_clause key op val

-- `parseClause` behind the search for the operator.
unfoldable pub keyed_clause : TimeParser → Text → Text → Text → Result QueryError Compiled
unfolding typed_clause
keyed_clause clock key op val =
    if is_empty key
    then err empty_key
    else if is_empty val
    then err (empty_value key)
    else elim (field_type_for key) [
      | none ↦ err (invalid_key key)
      | some field_type ↦ typed_clause clock field_type key op val
    ]

-- `parseClause`
unfoldable pub parse_clause : TimeParser → Text → Result QueryError Compiled
unfolding keyed_clause
parse_clause clock clause = elim (find_operator clause) [
  | none ↦ err (invalid_clause clause)
  | some (op, place) ↦
      keyed_clause clock (trim_space (take place clause)) op
        (trim_space (drop (place + length op) clause))
]

-- `clauseHasKey`
unfoldable pub clause_has_key : Text → Text → Bool
clause_has_key clause key = elim (find_operator clause) [
  | none ↦ false
  | some (op, place) ↦ equal (trim_space (take place clause)) key
]
