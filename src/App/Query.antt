-- ===== src/App/Query.antt =====
-- What internal/app reads of the store: a value or an error, and the store as it was.
use password_manager.Prelude.{Result, ok, err, Error, Bool, true, false}
use password_manager.Store.{Memory}

abbrev pub Query : Type 0 → Type 0
Query A = Memory → Result A

abbrev pub pure : {A : Type 0} → A → Query A
pure a m = ok a

abbrev pub fail : {A : Type 0} → Error → Query A
fail e m = err e

abbrev pub next : {A B : Type 0} → Result A → (A → Query B) → Query B
next (ok a) f m = f a m
next (err e) f m = err e

infixl 5 ◌>>=◌ ◌>>◌
abbrev pub ◌>>=◌ : {A B : Type 0} → Query A → (A → Query B) → Query B
◌>>=◌ q f m = next (q m) f m

abbrev pub ◌>>◌ : {A B : Type 0} → Query A → Query B → Query B
q >> r = q >>= λ _. r

-- A value that does not depend on the store.
abbrev pub given : {A : Type 0} → Result A → Query A
given r m = r

abbrev pub guard : Bool → Error → Query (Unit {0})
guard true e m = ok tt
guard false e m = err e
