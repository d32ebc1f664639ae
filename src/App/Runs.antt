-- ===== src/App/Runs.antt =====
-- An action of internal/app changes the store through the store's calls only: one rule for each way
-- to build an action.
use password_manager.Prelude.{ℕ, Bool, true, false, List, Result, ok, err, Error, if◌then◌else◌}
use password_manager.Prelude.Text.{Text}
use password_manager.Protocol.{AuditEvent}
use password_manager.Store.{Memory}
use password_manager.Store.Steps.{
  Call, step, agent_revoke, item_archive, item_delete, session_revoke, session_renew,
}
use password_manager.Store.Reaches.{Reaches, same, then_call, Reaches-trans}
use password_manager.App.Query.{Query}
use password_manager.App.Grants.{tried}
use password_manager.App.Vault.{
  Vault, pure, fail, next, ◌>>=◌, reads, given, guard, calls, revoke_call, archive_call,
  delete_call, session_revoke_call, session_renew_call,
}

-- Whether the action succeeds or fails, calls of the store lead to the state that it leaves.
pub record Runs {A : Type 0} (v : Vault A) : Type 0 where
  pub reaches : (m : Memory) → Reaches m (v m).1

module _ {A : Type 0} where
  pub Runs-pure : (a : A) → Runs (pure a)
  unfolding pure
  Runs-pure a = record { reaches = λ m. same }

  pub Runs-fail : (e : Error) → Runs (fail {A = A} e)
  unfolding fail
  Runs-fail e = record { reaches = λ m. same }

  pub Runs-reads : (q : Query A) → Runs (reads q)
  unfolding reads
  Runs-reads q = record { reaches = λ m. same }

  pub Runs-given : (r : Result A) → Runs (given r)
  unfolding given
  Runs-given r = record { reaches = λ m. same }

  pub Runs-tried : (v : Vault A) → Runs v → Runs (tried v)
  Runs-tried v h = record { reaches = h.reaches }

  pub Runs-if : (test : Bool) (x y : Vault A) → Runs x → Runs y → Runs (if test then x else y)
  Runs-if true x y hx hy = hx
  Runs-if false x y hx hy = hy

pub Runs-guard : (test : Bool) (e : Error) → Runs (guard test e)
unfolding guard
Runs-guard true e = record { reaches = λ m. same }
Runs-guard false e = record { reaches = λ m. same }

pub Runs-calls : (c : Call) → Runs (calls c)
unfolding calls
Runs-calls c = record { reaches = λ m. then_call c same }

pub Runs-revoke_call :
    (id : Text) (at : ℕ) (events : List AuditEvent) → Runs (revoke_call id at events)
unfolding revoke_call step
Runs-revoke_call id at events = record { reaches = λ m. then_call (agent_revoke id at events) same }

pub Runs-archive_call : (id : Text) → Runs (archive_call id)
unfolding archive_call step
Runs-archive_call id = record { reaches = λ m. then_call (item_archive id) same }

pub Runs-delete_call : (id : Text) → Runs (delete_call id)
unfolding delete_call step
Runs-delete_call id = record { reaches = λ m. then_call (item_delete id) same }

pub Runs-session_revoke_call : (id : Text) (at : ℕ) → Runs (session_revoke_call id at)
unfolding session_revoke_call step
Runs-session_revoke_call id at = record { reaches = λ m. then_call (session_revoke id at) same }

pub Runs-session_renew_call : (id : Text) (at : ℕ) → Runs (session_renew_call id at)
unfolding session_renew_call step
Runs-session_renew_call id at = record { reaches = λ m. then_call (session_renew id at) same }

module _ {A B : Type 0} where
  Runs-next : (f : A → Vault B) (r : Result A) → ((a : A) → Runs (f a)) → Runs (next r f)
  unfolding next
  Runs-next f (ok a) h = h a
  Runs-next f (err e) h = record { reaches = λ m. same }

  pub Runs-bind : (v : Vault A) (f : A → Vault B) → Runs v → ((a : A) → Runs (f a)) → Runs (v >>= f)
  unfolding ◌>>=◌
  Runs-bind v f h k = record {
    reaches = λ m. Reaches-trans (h.reaches m) ((Runs-next f (v m).0 k).reaches (v m).1);
  }

pub ruleset run_rules = (
  Runs-pure, Runs-fail, Runs-reads, Runs-given, Runs-tried, Runs-if, Runs-guard, Runs-calls,
  Runs-revoke_call, Runs-archive_call, Runs-delete_call, Runs-session_revoke_call,
  Runs-session_renew_call, Runs-bind,
)
