-- ===== src/Base/Outcome.antt =====
-- Go's `(value, error)` returns: a value or an error, never both.
use mathlib.Core.Path.{◌≡◌, refl}
use mathlib.Core.Logic.{◌⊎◌, inl, inr}
use mathlib.Core.List.{List, [], ◌∷◌}

pub data Result {ℓ κ} (E : Type κ) (A : Type ℓ) : Type (ℓ ⊔ κ) where
  ok : A → Result E A
  err : E → Result E A

infixl 5 ◌>>=◌
abbrev pub ◌>>=◌ : {E A B : Type 0} → Result E A → (A → Result E B) → Result E B
ok a >>= f = f a
err e >>= f = err e

-- Inversion of a successful bind, for proofs where the parts stay shut.
pub bind-eq-ok :
    {E A B : Type 0} (m : Result E A) (f : A → Result E B) {b : B}
    → (m >>= f) ≡ ok b
    → (a : A) × (m ≡ ok a) × (f a ≡ ok b)
bind-eq-ok (ok a) f h = (a, refl, h)
bind-eq-ok (err e) f h = cc

-- A loop that appends one result for each element, and returns at the first error.
abbrev pub map_result : {E A B : Type 0} → (A → Result E B) → List A → Result E (List B)
map_result f [] = ok []
map_result f (x ∷ xs) = f x >>= λ y. map_result f xs >>= λ ys. ok (y ∷ ys)

pub ok_injective : {E A : Type 0} {a b : A} → ◌≡◌ {A = Result E A} (ok a) (ok b) → a ≡ b
ok_injective p = cc

pub Result-cases :
    {E A : Type 0} (r : Result E A) → ((a : A) × (r ≡ ok a)) ⊎ ((e : E) × (r ≡ err e))
Result-cases (ok a) = inl (a, refl)
Result-cases (err e) = inr (e, refl)

-- An error of a chain whose second part cannot fail is that of its first.
pub bind_ok-eq-err :
    {E A B : Type 0} (m : Result E A) (f : A → B) {e : E}
    → (m >>= λ a. ok (f a)) ≡ err e
    → m ≡ err e
bind_ok-eq-err (ok a) f h = cc
bind_ok-eq-err (err e) f h = cc
