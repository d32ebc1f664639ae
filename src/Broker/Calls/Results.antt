-- ===== src/Broker/Calls/Results.antt =====
-- What holds of the answer of a call of internal/broker/broker.go and of the calls made so far, one
-- rule for each way to build an action.
use password_manager.Prelude.{
  ◌≡◌, refl, Bool, true, false, List, ◌∷◌, Result, ok, err, Error, wrap, if◌then◌else◌,
}
use password_manager.Prelude.Text.{Text}
use password_manager.Broker.Calls.{
  Environment, World, Act, Effect, ◌>>=◌, next, pure, fail, attempt, wrapping, recorded,
}
use password_manager.Broker.Calls.Invariants.{Keeps}

-- `Q` is true of what `m` answers, where `P` was true of the past.
pub record Yields {env : Environment} {A : Type 0} (P : List Effect → Type 0)
    (Q : A → List Effect → Type 0) (m : Act env A) : Type 0 where
  pub yielded : (w : World env) → P w.past → (a : A) → (m w).0 ≡ ok a → Q a (m w).1.past

ok_inj : {A : Type 0} (a b : A) → ok a ≡ ok b → a ≡ b
ok_inj a b e = cc

wrapped_ok :
    {A : Type 0} (text : Text) (r : Result A) (a : A)
    → (elim r as (λ _. Result A) [ ok b ↦ ok b | err x ↦ err (wrap text x) ]) ≡ ok a
    → r ≡ ok a
wrapped_ok text (ok b) a e = e
wrapped_ok text (err x) a e = cc

attempted :
    {A : Type 0} (Q : A → List Effect → Type 0) (S : Result A → List Effect → Type 0) (r : Result A)
    (past : List Effect)
    → ((a : A) → r ≡ ok a → Q a past)
    → ((a : A) (past : List Effect) → Q a past → S (ok a) past)
    → ((e : Error) (past : List Effect) → S (err e) past)
    → S r past
attempted Q S (ok a) past q good bad = good a past (q a refl)
attempted Q S (err e) past q good bad = bad e past

module _ {env : Environment} {A : Type 0} {P : List Effect → Type 0}
    {Q : A → List Effect → Type 0} where
  pub Yields-pure :
      (a : A) → ((past : List Effect) → P past → Q a past) → Yields {env = env} P Q (pure a)
  unfolding pure
  Yields-pure a q = record { yielded = λ w h b e. rw (← ok_inj a b e) (q w.past h) }

  pub Yields-fail : (e : Error) → Yields {env = env} P Q (fail e)
  unfolding fail
  Yields-fail e = record { yielded = λ w h a p. cc }

  pub Yields-if :
      (test : Bool) (x y : Act env A)
      → (test ≡ true → Yields P Q x)
      → (test ≡ false → Yields P Q y)
      → Yields P Q (if test then x else y)
  Yields-if true x y hx hy = hx refl
  Yields-if false x y hx hy = hy refl

  pub Yields-recorded :
      (effect : Result A → Effect) (op : env.State → Result A × env.State)
      → ((a : A) (past : List Effect) → P past → Q a (effect (ok a) ∷ past))
      → Yields {env = env} P Q (recorded effect op)
  unfolding recorded
  Yields-recorded effect op q = record { yielded = λ w h a e. rw e (q a w.past h) }

  pub Yields-wrapping : (text : Text) (m : Act env A) → Yields P Q m → Yields P Q (wrapping text m)
  unfolding wrapping
  Yields-wrapping text m ym = record {
    yielded = λ w h a e. ym.yielded w h a (wrapped_ok text (m w).0 a e);
  }

  pub Yields-kept :
      (m : Act env A)
      → Keeps P m
      → ((a : A) (past : List Effect) → P past → Q a past)
      → Yields P Q m
  Yields-kept m km q = record { yielded = λ w h a e. q a _ (km.kept w h) }

pub Yields-attempt :
    {env : Environment} {A : Type 0} {P : List Effect → Type 0} {Q : A → List Effect → Type 0}
    (S : Result A → List Effect → Type 0) (m : Act env A)
    → Yields P Q m
    → ((a : A) (past : List Effect) → Q a past → S (ok a) past)
    → ((e : Error) (past : List Effect) → S (err e) past)
    → Yields P S (attempt m)
unfolding attempt
Yields-attempt {A = A} {Q = Q} S m ym good bad = record {
  yielded = λ w h r p.
      rw (← ok_inj (m w).0 r p) (attempted Q S (m w).0 (m w).1.past (ym.yielded w h) good bad);
}

module _ {env : Environment} {A B : Type 0} where
  Yields-next :
      (R : A → List Effect → Type 0) (Q : B → List Effect → Type 0) (f : A → Act env B)
      (x : Result A) (w : World env)
      → ((a : A) → x ≡ ok a → R a w.past)
      → ((a : A) → Yields (R a) Q (f a))
      → (b : B) → (next f x w).0 ≡ ok b
      → Q b (next f x w).1.past
  unfolding next
  Yields-next R Q f (ok a) w r yf b e = (yf a).yielded w (r a refl) b e
  Yields-next R Q f (err x) w r yf b e = cc

  pub Yields-bind :
      {P : List Effect → Type 0} (R : A → List Effect → Type 0) (Q : B → List Effect → Type 0)
      (m : Act env A) (f : A → Act env B)
      → Yields P R m
      → ((a : A) → Yields (R a) Q (f a))
      → Yields P Q (m >>= f)
  unfolding ◌>>=◌
  Yields-bind R Q m f ym yf = record {
    yielded = λ w h. Yields-next R Q f (m w).0 (m w).1 (ym.yielded w h) yf;
  }
