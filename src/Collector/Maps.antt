-- ===== src/Collector/Maps.antt =====
-- Maps as functions: `m[key] = v`, `delete` and the loops that delete what they range over.
use prec.Base.{ℕ, Bool, Option, none, some, ◌==◌, if◌then◌else◌}

-- `m[key] = v`
abbrev pub put {ℓ} : {V : Type ℓ} → ℕ → V → (ℕ → Option V) → ℕ → Option V
put key v m j = if j == key then some v else m j

-- `delete(m, key)`
abbrev pub delete {ℓ} : {V : Type ℓ} → ℕ → (ℕ → Option V) → ℕ → Option V
delete key m j = if j == key then none else m j

abbrev unless_test {ℓ} : {V : Type ℓ} → (V → Bool) → Option V → Option V
unless_test test none = none
unless_test test (some v) = if test v then none else some v

-- `for key, v := range m { if test(v) { delete(m, key) } }`
abbrev pub delete_where {ℓ} : {V : Type ℓ} → (V → Bool) → (ℕ → Option V) → ℕ → Option V
delete_where test m j = unless_test test (m j)
