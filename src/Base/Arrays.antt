-- ===== src/Base/Arrays.antt =====
-- Prefixes and suffixes of an array under a write.
use native.Mathlib.Numerals.{add-one}
use Prim.Native.Nat.{ℕ, zero, suc, ◌+◌, ◌<◌}
use mathlib.Core.Path.{◌≡◌, refl, ap}
use mathlib.Core.List.{List, [], ◌∷◌, ◌++◌}
use mathlib.Core.Option.{some}
use native.Mathlib.Omega.{arith}
use prec.Base.Lists.{length, get_elem?, set, take, drop}

module _ {ℓ} {A : Type ℓ} where
  take-set-suc :
      (xs : List A) (j : ℕ) (v : A)
      → j < length xs
      → take (suc j) (set xs j v) ≡ take j xs ++ (v ∷ [])
  take-set-suc [] j v h = absurd (omega arith)
  take-set-suc (x ∷ xs) zero v h = refl
  take-set-suc (x ∷ xs) (suc j) v h = ap (◌∷◌ x) (take-set-suc xs j v (omega arith))

  -- A write just behind a prefix extends it.
  pub take-set_next :
      (xs : List A) (j : ℕ) (v : A)
      → j < length xs
      → take (j + 1) (set xs j v) ≡ take j xs ++ (v ∷ [])
  take-set_next xs j v h = rw add-one (take-set-suc xs j v h)

  pub take-set : (xs : List A) (j i : ℕ) (v : A) → i < j → take j (set xs i v) ≡ set (take j xs) i v
  take-set xs zero i v h = absurd (omega arith)
  take-set [] (suc j) i v h = refl
  take-set (x ∷ xs) (suc j) zero v h = refl
  take-set (x ∷ xs) (suc j) (suc i) v h = ap (◌∷◌ x) (take-set xs j i v (omega arith))

  pub drop-set : (xs : List A) (k j : ℕ) (v : A) → j < k → drop k (set xs j v) ≡ drop k xs
  drop-set xs zero j v h = absurd (omega arith)
  drop-set [] (suc k) j v h = refl
  drop-set (x ∷ xs) (suc k) zero v h = refl
  drop-set (x ∷ xs) (suc k) (suc j) v h = drop-set xs k j v (omega arith)

  -- What stands at the head of the unread part.
  pub drop-cons :
      (xs : List A) (i : ℕ) (x : A) (rest : List A)
      → drop i xs ≡ x ∷ rest
      → (get_elem? xs i ≡ some x) × (drop (suc i) xs ≡ rest) × (i < length xs)
  drop-cons [] zero x rest h = cc
  drop-cons [] (suc i) x rest h = cc
  drop-cons (y ∷ xs) zero x rest h = (cc, cc, omega arith)
  drop-cons (y ∷ xs) (suc i) x rest h = let t = drop-cons xs i x rest h in (t.0, t.1, omega arith)
