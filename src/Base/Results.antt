-- ===== src/Base/Results.antt =====
-- `std::expected<T, E>`.
use mathlib.Core.Path.{◌≡◌, refl}
use mathlib.Core.Logic.{◌⊎◌, inl, inr}

pub data Expected {ℓ κ} (T : Type ℓ) (E : Type κ) : Type (ℓ ⊔ κ) where
  value : T → Expected T E
  unexpected : E → Expected T E

pub Expected-cases {ℓ κ} :
    {T : Type ℓ} {E : Type κ} (r : Expected T E)
    → ((t : T) × (r ≡ value t)) ⊎ ((e : E) × (r ≡ unexpected e))
Expected-cases (value t) = inl (t, refl)
Expected-cases (unexpected e) = inr (e, refl)
