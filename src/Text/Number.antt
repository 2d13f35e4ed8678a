-- ===== src/Text/Number.antt =====
-- Decimal numbers: `strconv.ParseInt(s, 10, 64)`, `strconv.ParseUint(s, 10, 32)` and the verb `%0nd`
-- of `fmt` for a number that is not negative.
use prec.Base.{
  ℕ, zero, suc, ◌+◌, ◌-◌, ◌*◌, ◌/◌, ◌%◌, ◌^◌, ◌<◌, ◌≤◌, ◌≡◌, refl, ◌∙◌, inl, inr, Bool, false, not,
  ◌&&◌, Option, none, some, [], ◌∷◌, ◌++◌, leb, ltb, ◌==◌, if◌then◌else◌, length, replicate, ℤ, pos,
  negsuc, arith, Bool-cases, ==_iff, ==_iff,
}
use prec.Text.{Text, is_empty}
use prec.Text.Runs.{Avoids, Avoids-append, is_empty-append}

-- `digit >= '0' && digit <= '9'`
unfoldable pub is_digit : ℕ → Bool
is_digit c = leb b'0' c && leb c b'9'

-- The value of a run of digits behind `acc`; `none` at anything else.
unfoldable pub digits_onto : ℕ → Text → Option ℕ
unfolding is_digit
digits_onto acc [] = some acc
digits_onto acc (c ∷ s) =
    let rest = digits_onto (acc * 10 + (c - b'0')) s in if is_digit c then rest else none

abbrev some_digits : Text → Option ℕ
some_digits [] = none
some_digits (c ∷ s) = digits_onto 0 (c ∷ s)

abbrev at_most : ℕ → (ℕ → ℤ) → Option ℕ → Option ℤ
at_most limit sign none = none
at_most limit sign (some n) = if leb n limit then some (sign n) else none

abbrev negated : ℕ → ℤ
negated zero = pos 0
negated (suc n) = negsuc n

abbrev pub max_int64 : ℕ
max_int64 = 2 ^ 63 - 1

-- `strconv.ParseInt(s, 10, 64)`; `none` is an error of syntax or range.
unfoldable pub parse_int64 : Text → Option ℤ
unfolding digits_onto
parse_int64 [] = none
parse_int64 (c ∷ s) =
    if c == b'+'
    then at_most max_int64 pos (some_digits s)
    else if c == b'-'
    then at_most (2 ^ 63) negated (some_digits s)
    else at_most max_int64 pos (some_digits (c ∷ s))

-- `strconv.ParseUint(s, 10, 32)`
unfoldable pub parse_uint32 : Text → Option ℕ
unfolding digits_onto
parse_uint32 s = elim (some_digits s) [
  | none ↦ none
  | some n ↦ if ltb n (2 ^ 32) then some n else none
]

-- The decimal digits of a number, on fuel; `decimal` has enough.
unfoldable decimal_fuel : ℕ → ℕ → Text
decimal_fuel zero n = []
decimal_fuel (suc f) n =
    let high = decimal_fuel f (n / 10) in
    if ltb n 10 then (b'0' + n) ∷ [] else high ++ ((b'0' + n % 10) ∷ [])

unfoldable pub decimal : ℕ → Text
unfolding decimal_fuel
decimal n = decimal_fuel (suc n) n

-- `%0wd`
unfoldable pub padded : ℕ → ℕ → Text
unfolding decimal
padded w n = replicate (w - length (decimal n)) b'0' ++ decimal n

digits_onto-append :
    (acc : ℕ) (s t : Text) (n : ℕ)
    → digits_onto acc s ≡ some n
    → digits_onto acc (s ++ t) ≡ digits_onto n t
unfolding digits_onto
digits_onto-append acc [] t n h = ground arith
digits_onto-append acc (c ∷ s) t n h =
    ground (arith, digits_onto-append (acc * 10 + (c - b'0')) s t n)

digits_onto-decimal_fuel : (f n : ℕ) → n < f → digits_onto 0 (decimal_fuel f n) ≡ some n
unfolding decimal_fuel
digits_onto-decimal_fuel zero n h = absurd (omega arith)
digits_onto-decimal_fuel (suc f) n h = elim (Bool-cases (ltb n 10)) [
  | inl small ↦ rw small (unfold digits_onto in ground arith)
  | inr large ↦ rw large (
      digits_onto-append 0 (decimal_fuel f (n / 10)) _ (n / 10)
        (digits_onto-decimal_fuel f (n / 10) (ground arith))
      ∙ unfold digits_onto in ground arith)
]

digits_onto-zeros : (k : ℕ) (s : Text) → digits_onto 0 (replicate k b'0' ++ s) ≡ digits_onto 0 s
unfolding digits_onto
digits_onto-zeros zero s = refl
digits_onto-zeros (suc k) s = digits_onto-zeros k s

-- Reading back a padded number.
pub digits_onto-padded : (w n : ℕ) → digits_onto 0 (padded w n) ≡ some n
unfolding padded decimal
digits_onto-padded w n =
    digits_onto-zeros (w - length (decimal n)) (decimal n)
    ∙ digits_onto-decimal_fuel (suc n) n (omega arith)

-- Every code point is a digit.
abbrev pub IsDigits : Text → Type 0
IsDigits s = Avoids (λ c. not (is_digit c)) s

decimal_fuel-IsDigits : (f n : ℕ) → IsDigits (decimal_fuel f n)
unfolding decimal_fuel
decimal_fuel-IsDigits zero n = tt
decimal_fuel-IsDigits (suc f) n = elim (Bool-cases (ltb n 10)) [
  | inl small ↦ rw small (unfold is_digit in ground arith, tt)
  | inr large ↦ rw large (
      Avoids-append (λ c. not (is_digit c)) (decimal_fuel f (n / 10)) _
        (decimal_fuel-IsDigits f (n / 10)) (unfold is_digit in ground arith, tt))
]

zeros-IsDigits : (k : ℕ) → IsDigits (replicate k b'0')
zeros-IsDigits zero = tt
zeros-IsDigits (suc k) = (unfold is_digit in refl, zeros-IsDigits k)

pub padded-IsDigits : (w n : ℕ) → IsDigits (padded w n)
unfolding padded decimal
padded-IsDigits w n =
    Avoids-append (λ c. not (is_digit c)) (replicate (w - length (decimal n)) b'0') (decimal n)
      (zeros-IsDigits (w - length (decimal n))) (decimal_fuel-IsDigits (suc n) n)

decimal_fuel_nonempty : (f n : ℕ) → is_empty (decimal_fuel (suc f) n) ≡ false
unfolding decimal_fuel
decimal_fuel_nonempty f n = elim (Bool-cases (ltb n 10)) [
  | inl small ↦ rw small
  | inr large ↦ rw large (is_empty-append (decimal_fuel f (n / 10)) _ refl)
]

pub padded_nonempty : (w n : ℕ) → is_empty (padded w n) ≡ false
unfolding padded decimal
padded_nonempty w n =
    is_empty-append (replicate (w - length (decimal n)) b'0') (decimal n)
      (decimal_fuel_nonempty n n)

-- A run of digits has no sign, and is read as its value if that fits.
pub parse_int64_digits :
    (s : Text) (n : ℕ)
    → is_empty s ≡ false
    → IsDigits s
    → digits_onto 0 s ≡ some n
    → n ≤ max_int64
    → parse_int64 s ≡ some (pos n)
unfolding parse_int64
parse_int64_digits [] n e d h le = cc
parse_int64_digits (c ∷ s) n e d h le =
    let d0 = d.0 in
    rw
      (
        h,
        unsigned c d0 b'+' (unfold is_digit in refl),
        unsigned c d0 b'-' (unfold is_digit in refl),
      )
      (ground arith)
  where
    unsigned : (c : ℕ) → not (is_digit c) ≡ false → (m : ℕ) → is_digit m ≡ false → (c == m) ≡ false
    unsigned c h m k = ground (arith, ==_iff c m)
