-- ===== src/Query/Operator.antt =====
-- internal/query/filter.go: the operators of a clause and what they compare. Instants are compared
-- by their position on the time line, an integer.
pub mod Laws
use prec.Base.{
  ℕ, zero, suc, ◌+◌, ◌-◌, ◌*◌, ◌/◌, ◌%◌, ◌^◌, ◌≤◌, ◌<◌, min, String, ◌≡◌, refl, sym, ap, ap₂, ◌∙◌,
  ◌≡⟨◌⟩◌, ◌∎, ◌≢◌, ◌↔◌, ◌⊎◌, inl, inr, Bool, true, false, not, ◌&&◌, ◌||◌, Option, none, some, List,
  [], ◌∷◌, ◌++◌, map, append-nil, append_assoc, arith, ltb, leb, ◌==◌, if◌then◌else◌, Bool-cases,
  Option-cases, ==_iff, ltb→lt, lt→ltb, leb→le, tests, length, get_elem?, get_or, set, take, drop,
  replicate, length-append, ℤ, pos, negsuc, pos_part, neg_part, ltb_ℤ, leb_ℤ, eqb_ℤ, ◌≤ℤ◌,
  eqb_ℤ_iff, Result, ok, err, ◌>>=◌, bind-eq-ok, map_result,
}
use prec.Text.{Text, codes, switch, one_of, equal, contains, index}

-- `operators`: a longer operator stands before those that it contains.
abbrev pub operators : List Text
operators =
    codes "!~="
    ∷ codes ">="
    ∷ codes "<="
    ∷ codes "!="
    ∷ codes "~="
    ∷ codes ">"
    ∷ codes "<"
    ∷ codes "="
    ∷ []

-- The loop of `findOperator`: the first operator of the list that stands behind the first code
-- point of the clause, with its place; `none` is `"", -1`.
unfoldable pub first_operator : List Text → Text → Option (Text × ℕ)
first_operator [] clause = none
first_operator (op ∷ ops) clause = elim (index clause op) [
  | some (suc i) ↦ some (op, suc i)
  | _ ↦ first_operator ops clause
]

-- `findOperator`
unfoldable pub find_operator : Text → Option (Text × ℕ)
unfolding first_operator
find_operator = first_operator operators

-- `isSupportedNumberOperator`
unfoldable pub is_supported_number_operator : Text → Bool
unfolding one_of
is_supported_number_operator op =
    one_of op (codes "=" ∷ codes "!=" ∷ codes ">" ∷ codes ">=" ∷ codes "<" ∷ codes "<=" ∷ [])

-- `isSupportedStringOperator`
unfoldable pub is_supported_string_operator : Text → Bool
unfolding one_of
is_supported_string_operator op = one_of op (codes "=" ∷ codes "!=" ∷ codes "~=" ∷ codes "!~=" ∷ [])

-- `compareInt64`
unfoldable pub compare_int64 : ℤ → ℤ → Text → Bool
unfolding switch
compare_int64 left right op =
    switch op
      ((codes "=", eqb_ℤ left right)
        ∷ (codes "!=", not (eqb_ℤ left right))
        ∷ (codes ">", ltb_ℤ right left)
        ∷ (codes ">=", leb_ℤ right left)
        ∷ (codes "<", ltb_ℤ left right)
        ∷ (codes "<=", leb_ℤ left right)
        ∷ [])
      false

-- `compareTime`, by `Equal`, `After` and `Before`.
unfoldable pub compare_time : ℤ → ℤ → Text → Bool
unfolding switch
compare_time left right op =
    switch op
      ((codes "=", eqb_ℤ left right)
        ∷ (codes "!=", not (eqb_ℤ left right))
        ∷ (codes ">", ltb_ℤ right left)
        ∷ (codes ">=", ltb_ℤ right left || eqb_ℤ left right)
        ∷ (codes "<", ltb_ℤ left right)
        ∷ (codes "<=", ltb_ℤ left right || eqb_ℤ left right)
        ∷ [])
      false

-- `compareString`
unfoldable pub compare_string : Text → Text → Text → Bool
unfolding switch equal contains
compare_string left right op =
    switch op
      ((codes "=", equal left right)
        ∷ (codes "!=", not (equal left right))
        ∷ (codes "~=", contains left right)
        ∷ (codes "!~=", not (contains left right))
        ∷ [])
      false
