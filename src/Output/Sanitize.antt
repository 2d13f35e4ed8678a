-- ===== src/Output/Sanitize.antt =====
-- internal/cli/output_formatter.go: `sanitizeTerminalText`.
use prec.Base.{
  ℕ, zero, suc, ◌+◌, ◌-◌, ◌/◌, ◌%◌, ◌^◌, ◌<◌, ◌≡◌, refl, ◌∙◌, inl, inr, Bool, true, false, not,
  ◌&&◌, ◌||◌, [], ◌∷◌, ◌++◌, arith, ltb, leb, ◌==◌, ◌*◌, ◌≤◌, ◌⊎◌, get_elem?, some, if◌then◌else◌,
  Bool-cases,
}
use mathlib.Core.Path.{subst}
use prec.Text.{Text, codes}

-- `unicode.IsControl`: the category Cc.
unfoldable pub is_control : ℕ → Bool
is_control r = ltb r 32 || (leb 127 r && ltb r 160)

-- `hexDigits[n]` for a number below 16.
unfoldable pub hex_digit : ℕ → ℕ
hex_digit n = if ltb n 10 then b'0' + n else b'a' + (n - 10)

-- The hexadecimal digits at the given places, the first four of 16 and any others from the first that is
-- not 0 on.
unfoldable unicode_digits : ℕ → ℕ → Bool → Text
unfolding hex_digit
unicode_digits r zero started = []
unicode_digits r (suc place) started =
    let digit = r / 16 ^ place % 16 in
    let shown = not (digit == 0) || started || leb place 3 in
    let rest = unicode_digits r place shown in if shown then hex_digit digit ∷ rest else rest

-- What is printed for one code point.
unfoldable pub sanitize_rune : ℕ → Text
unfolding is_control hex_digit unicode_digits
sanitize_rune r =
    if is_control r
    then (if leb r 255
        then 92 ∷ b'x' ∷ hex_digit (r / 16) ∷ hex_digit (r % 16) ∷ []
        else 92 ∷ b'u' ∷ unicode_digits r 8 false)
    else r ∷ []

unfoldable pub sanitize_runes : Text → Text
unfolding sanitize_rune
sanitize_runes [] = []
sanitize_runes (r ∷ value) = sanitize_rune r ++ sanitize_runes value

-- `strings.IndexFunc(value, unicode.IsControl) >= 0`
unfoldable pub has_control : Text → Bool
unfolding is_control
has_control [] = false
has_control (r ∷ value) = is_control r || has_control value

-- `sanitizeTerminalText`
unfoldable pub sanitize_terminal_text : Text → Text
unfolding has_control sanitize_runes
sanitize_terminal_text value = if has_control value then sanitize_runes value else value

has_control-append : (a b : Text) → has_control (a ++ b) ≡ (has_control a || has_control b)
unfolding has_control
has_control-append [] b = refl
has_control-append (r ∷ a) b = ground (arith, has_control-append a b)

hex_digit-clean : (n : ℕ) → n < 16 → is_control (hex_digit n) ≡ false
unfolding hex_digit is_control
hex_digit-clean n h = ground arith

control_small : (r : ℕ) → is_control r ≡ true → r < 160
unfolding is_control
control_small r h = ground arith

escape-clean :
    (r : ℕ)
    → r < 160
    → has_control (92 ∷ b'x' ∷ hex_digit (r / 16) ∷ hex_digit (r % 16) ∷ []) ≡ false
unfolding has_control
escape-clean r h =
    rw (hex_digit-clean (r / 16) (omega arith), hex_digit-clean (r % 16) (omega arith)) refl

plain-clean : (r : ℕ) → is_control r ≡ false → has_control (r ∷ []) ≡ false
unfolding has_control
plain-clean r h = rw h refl

sanitize_runes-plain : (value : Text) → has_control value ≡ false → sanitize_runes value ≡ value
unfolding sanitize_runes sanitize_rune has_control
sanitize_runes-plain [] h = refl
sanitize_runes-plain (r ∷ value) h =
    let here : is_control r ≡ false = ground arith in
    let rest : has_control value ≡ false = ground arith in
    rw (here, sanitize_runes-plain value rest) refl

sanitize_rune-clean : (r : ℕ) → has_control (sanitize_rune r) ≡ false
unfolding sanitize_rune
sanitize_rune-clean r = elim (Bool-cases (is_control r)) [
  | inl e ↦
      let small = control_small r e in
      let byte : leb r 255 ≡ true = ground arith in rw (e, byte) (escape-clean r small)
  | inr e ↦ rw e (plain-clean r e)
]

sanitize_runes-clean : (value : Text) → has_control (sanitize_runes value) ≡ false
unfolding sanitize_runes has_control
sanitize_runes-clean [] = refl
sanitize_runes-clean (r ∷ value) =
    has_control-append (sanitize_rune r) (sanitize_runes value)
    ∙ rw (sanitize_rune-clean r, sanitize_runes-clean value) refl

-- A control character: below 32, or from 127 to 159.
abbrev pub IsControl : ℕ → Type 0
IsControl r = (r < 32) ⊎ ((127 ≤ r) × (r < 160))

-- The code point of the digit that stands for a number below 16.
abbrev pub IsHexDigit : ℕ → ℕ → Type 0
IsHexDigit n c = get_elem? (codes "0123456789abcdef") n ≡ some c

-- A text, and how it is printed.
pub data Printed : Text → Text → Type 0 where
  end : Printed [] []
  plain :
      {r : ℕ} {value out : Text} → ¬ IsControl r → Printed value out → Printed (r ∷ value) (r ∷ out)
  escaped :
      {r a b : ℕ} (high low : ℕ) {value out : Text}
      → IsControl r
      → r ≡ high * 16 + low
      → IsHexDigit high a
      → IsHexDigit low b
      → Printed value out
      → Printed (r ∷ value) (92 ∷ b'x' ∷ a ∷ b ∷ out)

-- A property of every number below a bound.
abbrev EveryBelow : (ℕ → Type 0) → ℕ → Type 0
EveryBelow P zero = Unit
EveryBelow P (suc k) = P k × EveryBelow P k

every_below : (P : ℕ → Type 0) (k n : ℕ) → EveryBelow P k → n < k → P n
every_below P zero n all h = absurd (omega arith)
every_below P (suc k) n (here, below) h = elim (Bool-cases (n == k)) [
  | inl e ↦ let same : k ≡ n = ground arith in subst P same here
  | inr e ↦ every_below P k n below (ground arith)
]

hex_digit-IsHexDigit : (n : ℕ) → n < 16 → IsHexDigit n (hex_digit n)
unfolding hex_digit
hex_digit-IsHexDigit n h =
    every_below (λ d. IsHexDigit d (hex_digit d)) 16 n
      (
        refl,
        (
          refl,
          (
            refl,
            (
              refl,
              (
                refl,
                (
                  refl,
                  (
                    refl,
                    (refl, (refl, (refl, (refl, (refl, (refl, (refl, (refl, (refl, tt))))))))),
                  ),
                ),
              ),
            ),
          ),
        ),
      )
      h

is_control-IsControl : (r : ℕ) → is_control r ≡ true → IsControl r
unfolding is_control
is_control-IsControl r h = ground arith

not-IsControl : (r : ℕ) → is_control r ≡ false → ¬ IsControl r
unfolding is_control
not-IsControl r h c = ground arith

sanitize_runes-Printed : (value : Text) → Printed value (sanitize_runes value)
unfolding sanitize_runes sanitize_rune
sanitize_runes-Printed [] = end
sanitize_runes-Printed (r ∷ value) = elim (Bool-cases (is_control r)) [
  | inl e ↦
      let small = control_small r e in
      let byte : leb r 255 ≡ true = ground arith in
      rw (e, byte)
        (escaped (r / 16) (r % 16) (is_control-IsControl r e) (omega arith)
          (hex_digit-IsHexDigit (r / 16) (omega arith))
          (hex_digit-IsHexDigit (r % 16) (omega arith)) (sanitize_runes-Printed value))
  | inr e ↦ rw e (plain (not-IsControl r e) (sanitize_runes-Printed value))
]

-- Text that `sanitizeTerminalText` returns holds no control character; it is the text itself if that
-- holds none; and in every case it is the text with each control character replaced by `\x` and the two
-- hexadecimal digits of its number, the high one first, and each other code point kept.
pub sanitize_terminal_text-clean :
    (value : Text)
    → (has_control (sanitize_terminal_text value) ≡ false)
      × (has_control value ≡ false → sanitize_terminal_text value ≡ value)
      × Printed value (sanitize_terminal_text value)
unfolding sanitize_terminal_text
sanitize_terminal_text-clean value = elim (Bool-cases (has_control value)) [
  | inl e ↦ rw e (sanitize_runes-clean value, (λ h. cc), sanitize_runes-Printed value)
  | inr e ↦
      rw e (e, (λ h. refl), rw (sanitize_runes-plain value e) at (sanitize_runes-Printed value))
]
