-- ===== src/Query/Clause/StartView.antt =====
-- internal/query/filter.go: compiled clauses and the fields that an end record fills in.
use prec.Base.{
  ℕ, ◌+◌, ◌≡◌, refl, sym, ◌⊎◌, inl, inr, true, false, Option, none, some, [], ◌∷◌, arith,
  Bool-cases, Option-cases, length, take, drop, ℤ, Result, ok, err, ◌>>=◌, Result-cases,
}
use mathlib.Core.Path.{subst}
use prec.Text.{Text, is_empty, trim_space}
use prec.Event.{CommandEvent}
use prec.Query.Operator.{
  find_operator, is_supported_number_operator, is_supported_string_operator, compare_string,
}
use prec.Query.Field.{
  FieldType, string, number, time, array, duration, field_type_for, is_finalized_only_field,
  numeric_value, string_value, TimeParser, time_value, parse_query_time,
}
use prec.Query.Split.{QueryError}
use prec.Query.Duration.{parse_duration_value}
use prec.Query.Clause.{
  Predicate, Compiled, number_clause, time_clause, normalize_value, string_clause, array_clause,
  duration_clause, typed_clause, keyed_clause, parse_clause,
}
use prec.Text.Number.{parse_int64}

-- The event with other values in the fields that an end record fills in.
abbrev pub with_end : CommandEvent → Text → Option ℤ → Option ℤ → CommandEvent
with_end ev end_timestamp duration_ns exit_status = record ev {
  end_timestamp = end_timestamp;
  duration_ns = duration_ns;
  exit_status = exit_status;
}

-- The predicate does not read those fields.
abbrev pub IgnoresEnd : Predicate → Type 0
IgnoresEnd p = (ev : CommandEvent) (t : Text) (d x : Option ℤ) → p (with_end ev t d x) ≡ p ev

numeric_value-IgnoresEnd :
    (key : Text) (ev : CommandEvent) (t : Text) (d x : Option ℤ)
    → is_finalized_only_field key ≡ false
    → numeric_value key (with_end ev t d x) ≡ numeric_value key ev
unfolding numeric_value is_finalized_only_field
numeric_value-IgnoresEnd key ev t d x h = ground arith

time_value-IgnoresEnd :
    (clock : TimeParser) (key : Text) (ev : CommandEvent) (t : Text) (d x : Option ℤ)
    → is_finalized_only_field key ≡ false
    → time_value clock key (with_end ev t d x) ≡ time_value clock key ev
unfolding time_value is_finalized_only_field
time_value-IgnoresEnd clock key ev t d x h = ground arith

string_value-IgnoresEnd :
    (key : Text) (ev : CommandEvent) (t : Text) (d x : Option ℤ)
    → string_value key (with_end ev t d x) ≡ string_value key ev
unfolding string_value
string_value-IgnoresEnd key ev t d x = refl

-- What is known of a compiled clause.
abbrev Sound : Compiled → Type 0
Sound c = c.1 ≡ false → IgnoresEnd c.0

abbrev SoundResult : Result QueryError Compiled → Type 0
SoundResult (ok c) = Sound c
SoundResult (err e) = Unit {0}

number_clause-Sound : (key op val : Text) → SoundResult (number_clause key op val)
unfolding number_clause
number_clause-Sound key op val = elim (Bool-cases (is_supported_number_operator op)) [
  | inr bad ↦ rw bad tt
  | inl good ↦ elim (Option-cases (parse_int64 val)) [
    | inl e ↦ rw (good, e, number_clause) tt
    | inr (right, e) ↦
        rw (good, e, number_clause) λ h ev t d x. rw (numeric_value-IgnoresEnd key ev t d x h)
  ]
]

time_clause-Sound :
    (clock : TimeParser) (key op val : Text) → SoundResult (time_clause clock key op val)
unfolding time_clause
time_clause-Sound clock key op val = elim (Bool-cases (is_supported_number_operator op)) [
  | inr bad ↦ rw bad tt
  | inl good ↦ elim (Option-cases (parse_query_time clock val)) [
    | inl e ↦ rw (good, e, time_clause) tt
    | inr (right, e) ↦
        rw (good, e, time_clause) λ h ev t d x. rw (time_value-IgnoresEnd clock key ev t d x h)
  ]
]

string_clause-Sound : (key op val : Text) → SoundResult (string_clause key op val)
unfolding string_clause
string_clause-Sound key op val = elim (Bool-cases (is_supported_string_operator op)) [
  | inr bad ↦ rw bad tt
  | inl good ↦ rw good (with_value (normalize_value key val))
]
  where
    with_value :
        (r : Result QueryError Text)
        → SoundResult (r >>= λ v. ok ((λ ev. compare_string (string_value key ev) v op), false))
    with_value (err e) = tt
    with_value (ok v) = λ h ev t d x. rw (string_value-IgnoresEnd key ev t d x)

array_clause-Sound : (key op val : Text) → SoundResult (array_clause key op val)
unfolding array_clause
array_clause-Sound key op val = elim (Bool-cases (is_supported_string_operator op)) [
  | inr bad ↦ rw bad tt
  | inl good ↦ rw good (λ h ev t d x. refl)
]

-- A clause on `duration` always asks for the end record.
duration_clause-Sound : (key op val : Text) → SoundResult (duration_clause key op val)
unfolding duration_clause
duration_clause-Sound key op val = elim (Bool-cases (is_supported_number_operator op)) [
  | inr bad ↦ rw bad tt
  | inl good ↦ elim (Result-cases (parse_duration_value val)) [
    | inr (why, e) ↦ rw (good, e, duration_clause) tt
    | inl (right, e) ↦ rw (good, e, duration_clause) (λ h ev t d x. cc)
  ]
]

-- The three guards of `parseClause` end in an error.
keyed_clause_stops :
    (clock : TimeParser) (key op val : Text)
    → (is_empty key ≡ true) ⊎ ((is_empty val ≡ true) ⊎ (field_type_for key ≡ none))
    → SoundResult (keyed_clause clock key op val)
unfolding keyed_clause
keyed_clause_stops clock [] op val h = tt
keyed_clause_stops clock (c ∷ key) op [] h = tt
keyed_clause_stops clock (c ∷ key) op (d ∷ val) (inl e) = cc
keyed_clause_stops clock (c ∷ key) op (d ∷ val) (inr (inl e)) = cc
keyed_clause_stops clock (c ∷ key) op (d ∷ val) (inr (inr e)) = rw (e, keyed_clause) tt

keyed_clause_goes_on :
    (clock : TimeParser) (key op val : Text) (field_type : FieldType)
    → is_empty key ≡ false
    → is_empty val ≡ false
    → field_type_for key ≡ some field_type
    → keyed_clause clock key op val ≡ typed_clause clock field_type key op val
unfolding keyed_clause
keyed_clause_goes_on clock key op val field_type k v e = rw (k, v, e, keyed_clause)

typed_clause-Sound :
    (clock : TimeParser) (field_type : FieldType) (key op val : Text)
    → SoundResult (typed_clause clock field_type key op val)
typed_clause-Sound clock number key op val = unfold typed_clause in number_clause-Sound key op val
typed_clause-Sound clock time key op val = unfold typed_clause in time_clause-Sound clock key op val
typed_clause-Sound clock string key op val = unfold typed_clause in string_clause-Sound key op val
typed_clause-Sound clock array key op val = unfold typed_clause in array_clause-Sound key op val
typed_clause-Sound clock duration key op val =
    unfold typed_clause in duration_clause-Sound key op val

keyed_clause-Sound :
    (clock : TimeParser) (key op val : Text) → SoundResult (keyed_clause clock key op val)
keyed_clause-Sound clock key op val = elim (Bool-cases (is_empty key)) [
  | inl e ↦ keyed_clause_stops clock key op val (inl e)
  | inr key_full ↦ elim (Bool-cases (is_empty val)) [
    | inl e ↦ keyed_clause_stops clock key op val (inr (inl e))
    | inr val_full ↦ elim (Option-cases (field_type_for key)) [
      | inl e ↦ keyed_clause_stops clock key op val (inr (inr e))
      | inr (field_type, e) ↦
          subst SoundResult
            (sym (keyed_clause_goes_on clock key op val field_type key_full val_full e))
            (typed_clause-Sound clock field_type key op val)
    ]
  ]
]

-- A compiled clause that does not ask for the end record gives the same answer whatever an end
-- record has filled in.
pub parse_clause-IgnoresEnd :
    (clock : TimeParser) (clause : Text) (c : Compiled)
    → parse_clause clock clause ≡ ok c
    → c.1 ≡ false
    → IgnoresEnd c.0
parse_clause-IgnoresEnd clock clause c e = subst SoundResult e (sound (find_operator clause) refl)
  where
    sound :
        (o : Option (Text × ℕ)) → find_operator clause ≡ o → SoundResult (parse_clause clock clause)
    sound none found = unfold parse_clause in rw (found, parse_clause) tt
    sound (some (op, place)) found =
        unfold parse_clause in
        rw (found, parse_clause)
          (keyed_clause-Sound clock (trim_space (take place clause)) op
            (trim_space (drop (place + length op) clause)))
