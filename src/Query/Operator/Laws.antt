-- ===== src/Query/Operator/Laws.antt =====
-- internal/query/filter.go: where the operator of a clause is found, and what the comparisons have
-- in common.
use prec.Base.{
  Every, ℕ, suc, ◌+◌, ◌≡◌, refl, sym, ap, ◌∙◌, inl, inr, Bool, true, false, not, ◌||◌, Option, none,
  some, List, [], ◌∷◌, ◌++◌, arith, ◌==◌, Bool-cases, Option-cases, length, ℤ,
}
use prec.Text.{Text, is_empty, equal, equal_iff, one_of, index, has_prefix}
use mathlib.Core.Path.{subst}
use prec.Text.Search.{index-step}
use prec.Text.Runs.{Avoids, has_prefix-Avoids, index-Avoids, index-append-Avoids, shift}
use prec.Query.Operator.{operators, first_operator, find_operator, compare_int64, compare_time}

-- The code points of which the operators are made.
abbrev pub is_operator_code : ℕ → Bool
is_operator_code c = c == b'!' || c == b'~' || c == b'=' || c == b'<' || c == b'>'

-- A text of such code points alone.
abbrev IsOperatorText : Text → Type 0
IsOperatorText op = Avoids (λ c. not (is_operator_code c)) op

is_true : (b : Bool) → not b ≡ false → b ≡ true
is_true b h = ground arith

module _ (val : Text) (v : Avoids is_operator_code val) where
  -- What stands behind an operator's code points plays no part in a search for operators.
  has_prefix-behind :
      (s sep : Text) → IsOperatorText sep → has_prefix (s ++ val) sep ≡ has_prefix s sep
  unfolding has_prefix
  has_prefix-behind [] [] o = refl
  has_prefix-behind [] (d ∷ ds) o =
      has_prefix-Avoids is_operator_code d ds val (is_true (is_operator_code d) o.0) v
  has_prefix-behind (c ∷ s) [] o = refl
  has_prefix-behind (c ∷ s) (d ∷ ds) o = rw (has_prefix-behind s ds o.1)

  index-behind :
      (s : Text) (d : ℕ) (ds : Text)
      → IsOperatorText (d ∷ ds)
      → index (s ++ val) (d ∷ ds) ≡ index s (d ∷ ds)
  index-behind [] d ds o =
      index-Avoids is_operator_code d ds val (is_true (is_operator_code d) o.0) v
      ∙ unfold index in refl
  index-behind (c ∷ s) d ds o =
      unfold_both c s d ds (index-behind s d ds o) (has_prefix-behind (c ∷ s) (d ∷ ds) o)
    where
      unfold_both :
          (c : ℕ) (s : Text) (d : ℕ) (ds : Text)
          → index (s ++ val) (d ∷ ds) ≡ index s (d ∷ ds)
          → has_prefix ((c ∷ s) ++ val) (d ∷ ds) ≡ has_prefix (c ∷ s) (d ∷ ds)
          → index ((c ∷ s) ++ val) (d ∷ ds) ≡ index (c ∷ s) (d ∷ ds)
      unfold_both c s d ds e h =
          index-step c (s ++ val) (d ∷ ds) ∙ rw (h, e) (sym (index-step c s (d ∷ ds)))

-- The search of `findOperator` in an operator alone, moved behind a key of `k` code points.
first_place : ℕ → List Text → Text → Option (Text × ℕ)
first_place k [] op = none
first_place k (o ∷ ops) op = elim (index op o) [
  | some i ↦ some (o, k + i)
  | none ↦ first_place k ops op
]

first_place-none :
    (k : ℕ) (o : Text) (ops : List Text) (op : Text)
    → index op o ≡ none
    → first_place k (o ∷ ops) op ≡ first_place k ops op
first_place-none k o ops op e = unfold first_place in rw (e, first_place)

first_place-some :
    (k : ℕ) (o : Text) (ops : List Text) (op : Text) (i : ℕ)
    → index op o ≡ some i
    → first_place k (o ∷ ops) op ≡ some (o, k + i)
first_place-some k o ops op i e = unfold first_place in rw (e, first_place)

first_operator-miss :
    (op : Text) (ops : List Text) (clause : Text)
    → index clause op ≡ none
    → first_operator (op ∷ ops) clause ≡ first_operator ops clause
first_operator-miss op ops clause e = unfold first_operator in rw (e, first_operator)

first_operator-hit :
    (op : Text) (ops : List Text) (clause : Text) (i : ℕ)
    → index clause op ≡ some (suc i)
    → first_operator (op ∷ ops) clause ≡ some (op, suc i)
first_operator-hit op ops clause i e = unfold first_operator in rw (e, first_operator)

-- Every operator of the list is a text of operator code points, and not empty.
abbrev AreOperators : List Text → Type 0
AreOperators [] = Unit {0}
AreOperators (o ∷ ops) = (is_empty o ≡ false) × IsOperatorText o × AreOperators ops

module _ (c : ℕ) (key val : Text) (k : Avoids is_operator_code (c ∷ key))
    (v : Avoids is_operator_code val) where
  index-clause :
      (op : Text) (d : ℕ) (ds : Text)
      → IsOperatorText (d ∷ ds)
      → index ((c ∷ key) ++ (op ++ val)) (d ∷ ds) ≡ shift (suc (length key)) (index op (d ∷ ds))
  index-clause op d ds o =
      index-append-Avoids is_operator_code d ds (c ∷ key) (op ++ val)
        (is_true (is_operator_code d) o.0) k
      ∙ ap (shift (suc (length key))) (index-behind val v op d ds o)

  first_operator-clause :
      (ops : List Text) (op : Text)
      → AreOperators ops
      → first_operator ops ((c ∷ key) ++ (op ++ val)) ≡ first_place (suc (length key)) ops op
  first_operator-clause [] op a = unfold first_operator first_place in refl
  first_operator-clause ([] ∷ ops) op a = cc a.0
  first_operator-clause ((d ∷ ds) ∷ ops) op a =
      one_operator (d ∷ ds) ops op (index-clause op d ds a.1) (first_operator-clause ops op a.2)
    where
      one_operator :
          (o : Text) (ops : List Text) (op : Text)
          → index ((c ∷ key) ++ (op ++ val)) o ≡ shift (suc (length key)) (index op o)
          → first_operator ops ((c ∷ key) ++ (op ++ val)) ≡ first_place (suc (length key)) ops op
          → first_operator (o ∷ ops) ((c ∷ key) ++ (op ++ val))
            ≡ first_place (suc (length key)) (o ∷ ops) op
      one_operator o ops op e ih = elim (Option-cases (index op o)) [
        | inl absent ↦
            first_operator-miss o ops ((c ∷ key) ++ (op ++ val))
              (e ∙ ap (shift (suc (length key))) absent)
            ∙ ih
            ∙ sym (first_place-none (suc (length key)) o ops op absent)
        | inr (i, here) ↦
            let place : suc (length key) + i ≡ suc (length key + i) = omega arith in
            first_operator-hit o ops ((c ∷ key) ++ (op ++ val)) (length key + i)
              (e ∙ ap (shift (suc (length key))) here ∙ ap some place)
            ∙ ap (λ (n : ℕ). some (o, n)) (sym place)
            ∙ sym (first_place-some (suc (length key)) o ops op i here)
      ]

-- A member of a list of texts has what each of them has.
one_of-Every :
    (P : Text → Type 0) (key : Text) (names : List Text)
    → Every P names
    → one_of key names ≡ true
    → P key
unfolding one_of
one_of-Every P key [] h e = cc
one_of-Every P key (k ∷ names) h e = elim (Bool-cases (equal key k)) [
  | inl same ↦ subst P (sym ((equal_iff key k).0 same)) h.0
  | inr other ↦ one_of-Every P key names h.1 (ground arith)
]

-- An operator is found in itself at once, and before any that it contains.
found_alone :
    (k : ℕ) (op : Text) → one_of op operators ≡ true → first_place k operators op ≡ some (op, k + 0)
unfolding first_place index has_prefix
found_alone k op h =
    one_of-Every (λ o. first_place k operators o ≡ some (o, k + 0)) op operators
      (refl, (refl, (refl, (refl, (refl, (refl, (refl, (refl, tt)))))))) h

operators-AreOperators : AreOperators operators
operators-AreOperators = (
  refl,
  (refl, (refl, (refl, tt))),
  (
    refl,
    (refl, (refl, tt)),
    (
      refl,
      (refl, (refl, tt)),
      (
        refl,
        (refl, (refl, tt)),
        (refl, (refl, (refl, tt)), (refl, (refl, tt), (refl, (refl, tt), (refl, (refl, tt), tt)))),
      ),
    ),
  ),
)

-- In a clause of a key, an operator and a value, where key and value hold no code point of an
-- operator and the key is not empty, `findOperator` finds that operator, behind the key.
pub find_operator-clause :
    (key op val : Text)
    → is_empty key ≡ false
    → Avoids is_operator_code key
    → one_of op operators ≡ true
    → Avoids is_operator_code val
    → find_operator (key ++ (op ++ val)) ≡ some (op, length key)
unfolding find_operator
find_operator-clause [] op val n k h v = cc
find_operator-clause (c ∷ key) op val n k h v =
    first_operator-clause c key val k v operators op operators-AreOperators
    ∙ found_alone (suc (length key)) op h
    ∙ ap (λ (i : ℕ). some (op, i)) (omega arith)

-- `compareTime` and `compareInt64`, which are written differently, agree at every operator text.
pub compare_time-compare_int64 :
    (left right : ℤ) (op : Text) → compare_time left right op ≡ compare_int64 left right op
unfolding compare_time compare_int64
compare_time-compare_int64 left right op = ground arith
