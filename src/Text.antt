-- ===== src/Text.antt =====
-- Go strings, as the code uses them: sequences of code points, so valid UTF-8 is assumed. The
-- functions of `strings` that the program calls are modelled here by what they return. `Text.Runs`
-- and `Text.Search` hold their laws, `Text.Number` the decimal conversions of `strconv` and `fmt`.
pub mod Search
pub mod Number
pub mod Runs
pub mod Path
use Prim.Native.Char.{code}
use prec.Base.{
  ℕ, suc, zero, ◌+◌, ◌-◌, Bool, true, false, ◌&&◌, ◌||◌, Option, none, some, List, [], ◌∷◌, ◌++◌,
  leb, ◌==◌, if◌then◌else◌, length, String, ◌≡◌, ◌↔◌, refl, arith,
}

abbrev pub Text : Type 0
Text = List ℕ

-- A literal of the source.
abbrev pub codes : String → Text
codes String.[] = []
codes (String.◌∷◌ c s) = code c ∷ codes s

-- `a == b` on strings.
unfoldable pub equal : Text → Text → Bool
equal [] [] = true
equal (x ∷ xs) (y ∷ ys) = x == y && equal xs ys
equal _ _ = false

pub equal_iff : (a b : Text) → (equal a b ≡ true) ↔ (a ≡ b)
unfolding equal
equal_iff (x ∷ a) (y ∷ b) = ground (arith, equal_iff a b)
equal_iff _ _ = ground arith

pub equal_refl : (a : Text) → equal a a ≡ true
equal_refl a = (equal_iff a a).1 refl

abbrev pub is_empty : Text → Bool
is_empty [] = true
is_empty (_ ∷ _) = false

-- `switch key { case names...: a }` on strings: the first table entry with the key, or the default.
unfoldable pub switch {ℓ} : {A : Type ℓ} → Text → List (Text × A) → A → A
switch key [] d = d
switch key ((k, a) ∷ table) d = if equal key k then a else switch key table d

-- `case a, b, c:` of a switch on strings.
unfoldable pub one_of : Text → List Text → Bool
one_of key [] = false
one_of key (k ∷ ks) = equal key k || one_of key ks

-- `unicode.IsSpace`
unfoldable pub is_space : ℕ → Bool
is_space c =
    (leb 9 c && leb c 13)
    || c == 0x20
    || c == 0x85
    || c == 0xa0
    || c == 0x1680
    || (leb 0x2000 c && leb c 0x200a)
    || c == 0x2028
    || c == 0x2029
    || c == 0x202f
    || c == 0x205f
    || c == 0x3000

unfoldable pub trim_left : Text → Text
trim_left [] = []
trim_left (c ∷ s) = if is_space c then trim_left s else c ∷ s

unfoldable pub trim_right : Text → Text
trim_right [] = []
trim_right (c ∷ s) = let rest = trim_right s in if is_empty rest && is_space c then [] else c ∷ rest

-- `strings.TrimSpace`
unfoldable pub trim_space : Text → Text
unfolding trim_left trim_right
trim_space s = trim_right (trim_left s)

-- `strings.HasPrefix`
unfoldable pub has_prefix : Text → Text → Bool
has_prefix s [] = true
has_prefix [] (p ∷ ps) = false
has_prefix (c ∷ s) (p ∷ ps) = c == p && has_prefix s ps

-- What `strings.Index` gives if the separator is not at the head of the text.
abbrev pub later : Option ℕ → Option ℕ
later none = none
later (some i) = some (suc i)

-- `strings.Index`; `none` is -1.
unfoldable pub index : Text → Text → Option ℕ
unfolding has_prefix
index [] sep = if is_empty sep then some 0 else none
index (c ∷ s) sep = let rest = index s sep in if has_prefix (c ∷ s) sep then some 0 else later rest

-- `strings.Contains`
unfoldable pub contains : Text → Text → Bool
unfolding index
contains s sub = elim (index s sub) [ none ↦ false | some _ ↦ true ]

-- `strings.Split` at a separator that is not empty: `skip` counts what is left of a separator that
-- has been found, `part` is the piece read so far.
unfoldable pub split_onto : Text → ℕ → Text → Text → List Text
unfolding has_prefix
split_onto sep skip [] part = part ∷ []
split_onto sep (suc skip) (c ∷ s) part = split_onto sep skip s part
split_onto sep zero (c ∷ s) part = elim (has_prefix (c ∷ s) sep) [
  | true ↦ part ∷ split_onto sep (length sep - 1) s []
  | false ↦ split_onto sep zero s (part ++ (c ∷ []))
]

unfoldable pub split : Text → Text → List Text
unfolding split_onto
split s sep = split_onto sep zero s []

-- `strings.Join`
unfoldable pub join : List Text → Text → Text
join [] sep = []
join (a ∷ []) sep = a
join (a ∷ b ∷ rest) sep = a ++ (sep ++ join (b ∷ rest) sep)

-- `strings.Fields`: the runs of code points that are not space.
abbrev pub field_end : Text → List Text → List Text
field_end [] rest = rest
field_end (c ∷ part) rest = (c ∷ part) ∷ rest

unfoldable pub fields_onto : Text → Text → List Text
fields_onto [] part = field_end part []
fields_onto (c ∷ s) part = elim (is_space c) [
  | true ↦ field_end part (fields_onto s [])
  | false ↦ fields_onto s (part ++ (c ∷ []))
]

unfoldable pub fields : Text → List Text
unfolding fields_onto
fields s = fields_onto s []

-- `strings.ToLower`: ASCII by its table, the other code points by `lower_rune`.
unfoldable pub to_lower : (ℕ → ℕ) → Text → Text
to_lower lower_rune [] = []
to_lower lower_rune (c ∷ s) =
    (if leb b'A' c && leb c b'Z' then c + 32 else if leb 0x80 c then lower_rune c else c)
    ∷ to_lower lower_rune s
