-- ===== src/App/Gives.antt =====
-- What is known of the value that an action of internal/app brings, one rule for each way to build an
-- action.
use password_manager.Prelude.{◌≡◌, refl, Bool, true, false, Result, ok, err, if◌then◌else◌}
use mathlib.Core.Path.{subst}
use password_manager.Store.{Memory}
use password_manager.App.Vault.{Vault, pure, next, ◌>>=◌, calls}
use password_manager.Store.Steps.{Call, step}

-- A success of `v` brings a value, and a store, of which `Q` holds.
pub record Gives {A : Type 0} (Q : A → Memory → Type 0) (v : Vault A) : Type 0 where
  pub given_by : (m : Memory) (x : A) → (v m).0 ≡ ok x → Q x (v m).1

ok_inj : {A : Type 0} (x y : A) → ok x ≡ ok y → x ≡ y
ok_inj x y e = cc

pub Gives-pure :
    {A : Type 0} {Q : A → Memory → Type 0} (x : A) → ((m : Memory) → Q x m) → Gives Q (pure x)
unfolding pure
Gives-pure {Q = Q} x q = record { given_by = λ m y e. subst (λ z. Q z m) (ok_inj x y e) (q m) }

pub Gives-if :
    {A : Type 0} {Q : A → Memory → Type 0} (test : Bool) (x y : Vault A)
    → Gives Q x
    → Gives Q y
    → Gives Q (if test then x else y)
Gives-if true x y hx hy = hx
Gives-if false x y hx hy = hy

module _ {A B : Type 0} (R : A → Type 0) (Q : B → Memory → Type 0) where
  next-Gives :
      (f : A → Vault B) (r : Result A)
      → ((x : A) → r ≡ ok x → R x)
      → ((x : A) → R x → Gives Q (f x))
      → Gives Q (next r f)
  unfolding next
  next-Gives f (ok x) q h = h x (q x refl)
  next-Gives f (err e) q h = record { given_by = λ m y p. cc }

  pub Gives-bind_known :
      (v : Vault A) (f : A → Vault B)
      → Gives (λ x m. R x) v
      → ((x : A) → R x → Gives Q (f x))
      → Gives Q (v >>= f)
  unfolding ◌>>=◌
  Gives-bind_known v f g h = record {
    given_by = λ m. (next-Gives f (v m).0 (g.given_by m) h).given_by (v m).1;
  }

pub Gives-bind :
    {A B : Type 0} {Q : B → Memory → Type 0} (v : Vault A) (f : A → Vault B)
    → ((x : A) → Gives Q (f x))
    → Gives Q (v >>= f)
Gives-bind {Q = Q} v f h =
    Gives-bind_known (λ x. Unit {0}) Q v f (record { given_by = λ m x e. tt }) (λ x u. h x)

-- A call of the store that is the last step.
pub Gives-call_last :
    {A : Type 0} {Q : A → Memory → Type 0} (c : Call) (x : A)
    → ((m : Memory) → Q x (step c m))
    → Gives Q (calls c >>= λ u. pure x)
unfolding ◌>>=◌ next calls pure
Gives-call_last {Q = Q} c x q = record {
  given_by = λ m y e. subst (λ z. Q z (step c m)) (ok_inj x y e) (q m);
}
