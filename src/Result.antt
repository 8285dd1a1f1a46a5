-- ===== src/Result.antt =====
-- A Go function's `(value, error)`, of which callers read the value only if the error is nil.
use share_trip.Base.{◌≡◌, ◌⊎◌, inl, inr, refl}
use share_trip.GoError.{GoError}

pub data Result {ℓ} (A : Type ℓ) : Type ℓ where
  ok : A → Result A
  err : GoError → Result A

pub Result-cases {ℓ} :
    {A : Type ℓ} (r : Result A) → ((a : A) × (r ≡ ok a)) ⊎ ((e : GoError) × (r ≡ err e))
Result-cases (ok a) = inl (a, refl)
Result-cases (err e) = inr (e, refl)
