-- ===== src/Broker/Calls/Invariants.antt =====
-- What a call of internal/broker/broker.go keeps true of the calls made so far, one rule for each way
-- to build an action.
use password_manager.Prelude.{
  ◌≡◌, refl, Bool, true, false, List, ◌∷◌, Result, ok, err, Error, if◌then◌else◌,
}
use password_manager.Prelude.Text.{Text}
use password_manager.Broker.Calls.{
  Environment, World, Act, Effect, ◌>>=◌, next, pure, fail, attempt, wrapping, recorded, unrecorded,
}

-- Whether `m` succeeds or fails, `P` stays true of the past.
pub record Keeps {env : Environment} {A : Type 0} (P : List Effect → Type 0) (m : Act env A)
    : Type 0 where
  pub kept : (w : World env) → P w.past → P (m w).1.past

module _ {env : Environment} {A : Type 0} {P : List Effect → Type 0} where
  pub Keeps-pure : (a : A) → Keeps {env = env} P (pure a)
  unfolding pure
  Keeps-pure a = record { kept = λ w h. h }

  pub Keeps-fail : (e : Error) → Keeps {env = env} {A = A} P (fail e)
  unfolding fail
  Keeps-fail e = record { kept = λ w h. h }

  pub Keeps-attempt : (m : Act env A) → Keeps P m → Keeps P (attempt m)
  unfolding attempt
  Keeps-attempt m km = record { kept = km.kept }

  pub Keeps-wrapping : (text : Text) (m : Act env A) → Keeps P m → Keeps P (wrapping text m)
  unfolding wrapping
  Keeps-wrapping text m km = record { kept = km.kept }

  pub Keeps-unrecorded :
      (op : env.State → Result A × env.State) → Keeps {env = env} P (unrecorded op)
  unfolding unrecorded
  Keeps-unrecorded op = record { kept = λ w h. h }

  pub Keeps-recorded :
      (effect : Result A → Effect) (op : env.State → Result A × env.State)
      → ((r : Result A) (past : List Effect) → P past → P (effect r ∷ past))
      → Keeps {env = env} P (recorded effect op)
  unfolding recorded
  Keeps-recorded effect op kp = record { kept = λ w h. kp (op w.state).0 w.past h }

  pub Keeps-if :
      (test : Bool) (x y : Act env A)
      → (test ≡ true → Keeps P x)
      → (test ≡ false → Keeps P y)
      → Keeps P (if test then x else y)
  Keeps-if true x y hx hy = hx refl
  Keeps-if false x y hx hy = hy refl

module _ {env : Environment} {A B : Type 0} {P : List Effect → Type 0} where
  Keeps-next : (f : A → Act env B) (x : Result A) → ((a : A) → Keeps P (f a)) → Keeps P (next f x)
  unfolding next
  Keeps-next f (ok a) kf = kf a
  Keeps-next f (err e) kf = record { kept = λ w h. h }

  pub Keeps-bind :
      (m : Act env A) (f : A → Act env B)
      → Keeps P m
      → ((a : A) → Keeps P (f a))
      → Keeps P (m >>= f)
  unfolding ◌>>=◌
  Keeps-bind m f km kf = record {
    kept = λ w h. (Keeps-next f (m w).0 kf).kept (m w).1 (km.kept w h);
  }

pub ruleset call_rules =
    (Keeps-pure, Keeps-fail, Keeps-attempt, Keeps-wrapping, Keeps-unrecorded, Keeps-if, Keeps-bind)
