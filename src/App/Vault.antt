-- ===== src/App/Vault.antt =====
-- What internal/app does to the store: an action gives a value or an error, and the new store.
use password_manager.Prelude.{Result, ok, err, Error, Bool, true, false}
use password_manager.Prelude.{ℕ, List}
use password_manager.Prelude.Text.{Text}
use password_manager.Protocol.{AuditEvent, Session}
use password_manager.Store.{Memory}
use password_manager.Store.Agents.{revoke_agent}
use password_manager.Store.Items.{archive_item, delete_item}
use password_manager.Store.Sessions.{revoke_session, renew_session}
use password_manager.Store.Steps.{Call, step}
use password_manager.App.Query.{Query}

abbrev pub Vault : Type 0 → Type 0
Vault A = Memory → Result A × Memory

unfoldable pub pure : {A : Type 0} → A → Vault A
pure a m = (ok a, m)

unfoldable pub fail : {A : Type 0} → Error → Vault A
fail e m = (err e, m)

unfoldable pub next : {A B : Type 0} → Result A → (A → Vault B) → Vault B
next (ok a) f m = f a m
next (err e) f m = (err e, m)

infixl 5 ◌>>=◌ ◌>>◌
unfoldable pub ◌>>=◌ : {A B : Type 0} → Vault A → (A → Vault B) → Vault B
unfolding next
◌>>=◌ q f m = let (r, m') = q m in next r f m'

abbrev pub ◌>>◌ : {A B : Type 0} → Vault A → Vault B → Vault B
q >> r = q >>= λ _. r

-- A read of the store.
unfoldable pub reads : {A : Type 0} → Query A → Vault A
reads q m = (q m, m)

-- A value that does not depend on the store.
unfoldable pub given : {A : Type 0} → Result A → Vault A
given r m = (r, m)

unfoldable pub guard : Bool → Error → Vault (Unit {0})
guard true e m = (ok tt, m)
guard false e m = (err e, m)

-- A call of the store that cannot fail.
unfoldable pub calls : Call → Vault (Unit {0})
calls c m = (ok tt, step c m)

-- The calls of the store that may fail.
unfoldable pub revoke_call : Text → ℕ → List AuditEvent → Vault (Unit {0})
revoke_call id at events m = revoke_agent id at events m

unfoldable pub archive_call : Text → Vault (Unit {0})
archive_call id m = archive_item id m

unfoldable pub delete_call : Text → Vault (Unit {0})
delete_call id m = delete_item id m

unfoldable pub session_revoke_call : Text → ℕ → Vault (Unit {0})
session_revoke_call id at m = revoke_session id at m

unfoldable pub session_renew_call : Text → ℕ → Vault Session
session_renew_call id at m = renew_session id at m
