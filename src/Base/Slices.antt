-- ===== src/Base/Slices.antt =====
-- Reading prefixes, suffixes and joined lists, element by element.
use Prim.Native.Nat.{ℕ, zero, suc, ◌+◌, ◌-◌, ◌<◌, ◌≤◌}
use mathlib.Core.Path.{◌≡◌, refl, ap, ◌∙◌}
use mathlib.Core.List.{List, [], ◌∷◌, ◌++◌}
use native.Mathlib.Omega.{arith}
use prec.Base.Lists.{length, get_or, take, drop}

module _ {ℓ} {A : Type ℓ} where
  pub get_or-append_left :
      (xs ys : List A) (i : ℕ) (d : A) → i < length xs → get_or (xs ++ ys) i d ≡ get_or xs i d
  get_or-append_left [] ys i d h = absurd (omega arith)
  get_or-append_left (x ∷ xs) ys zero d h = refl
  get_or-append_left (x ∷ xs) ys (suc i) d h = get_or-append_left xs ys i d (omega arith)

  pub get_or-append_right :
      (xs ys : List A) (i : ℕ) (d : A)
      → length xs ≤ i
      → get_or (xs ++ ys) i d ≡ get_or ys (i - length xs) d
  get_or-append_right [] ys i d h = ap (λ (k : ℕ). get_or ys k d) (omega arith)
  get_or-append_right (x ∷ xs) ys zero d h = absurd (omega arith)
  get_or-append_right (x ∷ xs) ys (suc i) d h =
      get_or-append_right xs ys i d (omega arith) ∙ ap (λ (k : ℕ). get_or ys k d) (omega arith)

  pub get_or-drop : (xs : List A) (s i : ℕ) (d : A) → get_or (drop s xs) i d ≡ get_or xs (s + i) d
  get_or-drop xs zero i d = ap (λ (k : ℕ). get_or xs k d) (omega arith)
  get_or-drop [] (suc s) i d = refl
  get_or-drop (x ∷ xs) (suc s) i d =
      let e : suc s + i ≡ suc (s + i) = omega arith in rw e (get_or-drop xs s i d)

  pub get_or-take : (xs : List A) (s i : ℕ) (d : A) → i < s → get_or (take s xs) i d ≡ get_or xs i d
  get_or-take xs zero i d h = absurd (omega arith)
  get_or-take [] (suc s) i d h = refl
  get_or-take (x ∷ xs) (suc s) zero d h = refl
  get_or-take (x ∷ xs) (suc s) (suc i) d h = get_or-take xs s i d (omega arith)

  pub drop-get_or :
      (xs : List A) (i : ℕ) (d : A) → i < length xs → drop i xs ≡ get_or xs i d ∷ drop (suc i) xs
  drop-get_or [] i d h = absurd (omega arith)
  drop-get_or (x ∷ xs) zero d h = refl
  drop-get_or (x ∷ xs) (suc i) d h = drop-get_or xs i d (omega arith)

  pub drop_all : (xs : List A) (i : ℕ) → length xs ≤ i → drop i xs ≡ []
  drop_all [] zero h = refl
  drop_all [] (suc i) h = refl
  drop_all (x ∷ xs) zero h = absurd (omega arith)
  drop_all (x ∷ xs) (suc i) h = drop_all xs i (omega arith)

  pub take_all : (xs : List A) (i : ℕ) → length xs ≤ i → take i xs ≡ xs
  take_all [] zero h = refl
  take_all [] (suc i) h = refl
  take_all (x ∷ xs) zero h = absurd (omega arith)
  take_all (x ∷ xs) (suc i) h = ap (◌∷◌ x) (take_all xs i (omega arith))

  pub drop-append : (xs ys : List A) (i : ℕ) → i ≤ length xs → drop i (xs ++ ys) ≡ drop i xs ++ ys
  drop-append xs ys zero h = refl
  drop-append [] ys (suc i) h = absurd (omega arith)
  drop-append (x ∷ xs) ys (suc i) h = drop-append xs ys i (omega arith)
