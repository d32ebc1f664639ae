-- ===== src/Prelude/Errors.antt =====
-- Go's `(value, error)` results. The sentinel errors of the repository are constructors;
-- `other` is an error built on the spot, by its text, and `wrap` is `fmt.Errorf("…: %w", err)`.
use Prim.Native.Nat.{ℕ}
use mathlib.Core.Bool.{Bool, true, false}
use mathlib.Core.List.{List}
use mathlib.Core.Path.{◌≡◌, refl}
use mathlib.Core.Logic.{◌⊎◌, inl, inr}

pub data Error : Type 0 where
  not_found denied session_expired session_revoked : Error
  overloaded unauthorized closed canceled deadline_exceeded : Error
  forbidden agent_revoked uses_exhausted : Error
  other : List ℕ → Error
  wrap : List ℕ → Error → Error

pub data Result {ℓ} (A : Type ℓ) : Type ℓ where
  ok : A → Result A
  err : Error → Result A

abbrev pub is_ok {ℓ} : {A : Type ℓ} → Result A → Bool
is_ok (ok a) = true
is_ok (err e) = false

pub Result-cases {ℓ} :
    {A : Type ℓ} (r : Result A) → ((a : A) × (r ≡ ok a)) ⊎ ((e : Error) × (r ≡ err e))
Result-cases (ok a) = inl (a, refl)
Result-cases (err e) = inr (e, refl)
