-- ===== src/Broker/Moves.antt =====
-- internal/broker/broker.go over internal/store/memory.go: a call of the broker changes the store
-- through the store's calls only.
use password_manager.Prelude.{
  ℕ, is_ok, Bool, true, false, Option, none, some, Result, ok, err, Error, if◌then◌else◌,
}
use password_manager.Prelude.Text.{Text}
use password_manager.Protocol.{Principal, Item, Fetch, Header, UseRequest, UseResult}
use password_manager.Material.{Envelope}
use password_manager.Store.{Memory, UseAuth}
use password_manager.Store.Agents
use password_manager.Store.Steps.{step, audit_append, session_consume}
use password_manager.Store.Reaches.{Reaches, same, then_call, Reaches-trans}
use password_manager.Broker.OnMemory.{Outside, append_row, on_memory}
use password_manager.Broker.Calls.{
  World, Act, Effect, ◌>>=◌, next, pure, fail, attempt, wrapping, recorded, unrecorded,
  append_audit, reload_agent, consume_audited, read_secret, refresh_token, send_request, Upstream,
}
use password_manager.Protocol.{AuditEvent}
use password_manager.Broker.{
  Libraries, use_call, use_session, use_authorized, recheck_agent, reloaded, after_row,
  after_consume, proceed, proceed_fetch, session_auth, commit, audit_use, release, fetch_upstream,
  send_with, access_token, fresh_token,
}

module _ {out : Outside} where
  pub record Moves {A : Type 0} (v : Act (on_memory out) A) : Type 0 where
    pub reaches : (w : World (on_memory out)) → Reaches w.state (v w).1.state

  module _ {A : Type 0} where
    Moves-pure : (a : A) → Moves (pure a)
    unfolding pure
    Moves-pure a = record { reaches = λ w. same }

    Moves-fail : (e : Error) → Moves (fail {A = A} e)
    unfolding fail
    Moves-fail e = record { reaches = λ w. same }

    Moves-attempt : (v : Act (on_memory out) A) → Moves v → Moves (attempt v)
    unfolding attempt
    Moves-attempt v h = record { reaches = h.reaches }

    Moves-wrapping : (text : Text) (v : Act (on_memory out) A) → Moves v → Moves (wrapping text v)
    unfolding wrapping
    Moves-wrapping text v h = record { reaches = h.reaches }

    Moves-if :
        (test : Bool) (x y : Act (on_memory out) A)
        → Moves x
        → Moves y
        → Moves (if test then x else y)
    Moves-if true x y hx hy = hx
    Moves-if false x y hx hy = hy

    -- A read of the store, or a call that does not go there.
    Moves-reading : (q : Memory → Result A) → Moves (unrecorded λ m. (q m, m))
    unfolding unrecorded
    Moves-reading q = record { reaches = λ w. same }

    Moves-recording :
        (effect : Result A → Effect) (q : Memory → Result A) → Moves (recorded effect λ m. (q m, m))
    unfolding recorded
    Moves-recording effect q = record { reaches = λ w. same }

  module _ {A B : Type 0} where
    Moves-next :
        (f : A → Act (on_memory out) B) (r : Result A) → ((a : A) → Moves (f a)) → Moves (next f r)
    unfolding next
    Moves-next f (ok a) h = h a
    Moves-next f (err e) h = record { reaches = λ w. same }

    Moves-bind :
        (v : Act (on_memory out) A) (f : A → Act (on_memory out) B)
        → Moves v
        → ((a : A) → Moves (f a))
        → Moves (v >>= f)
    unfolding ◌>>=◌
    Moves-bind v f h k = record {
      reaches = λ w. Reaches-trans (h.reaches w) ((Moves-next f (v w).0 k).reaches (v w).1);
    }

ruleset move_rules = (
  Moves-pure, Moves-fail, Moves-attempt, Moves-wrapping, Moves-if, Moves-reading, Moves-recording,
  Moves-bind,
)

kept_or_logged :
    (b : Bool) (e : AuditEvent) (m : Memory) → Reaches m (if b then Agents.append_audit e m else m)
unfolding step
kept_or_logged true e m = then_call (audit_append e) same
kept_or_logged false e m = same

pub append_row-Reaches :
    (out : Outside) (e : AuditEvent) (m : Memory) → Reaches m (append_row out e m).1
append_row-Reaches out e m = kept_or_logged (is_ok (out.append e m)) e m

module _ (lib : Libraries) (out : Outside) where
  append_audit-Moves : (e : AuditEvent) → Moves (append_audit (on_memory out) e)
  unfolding append_audit recorded
  append_audit-Moves e = record { reaches = λ w. append_row-Reaches out e w.state }

  consume_audited-Moves :
      (hash : Text) (now : ℕ) (e : AuditEvent) → Moves (consume_audited (on_memory out) hash now e)
  unfolding consume_audited recorded step
  consume_audited-Moves hash now e = record {
    reaches = λ w. then_call (session_consume hash now (some e)) same;
  }

  audit_use-Moves :
      (p : Principal) (req : UseRequest) (dec : UseResult) (now : ℕ)
      → Moves (audit_use lib (on_memory out) p req dec now)
  unfolding audit_use
  audit_use-Moves p req dec now = search (move_rules, append_audit-Moves) depth 20

  read_secret-Moves : (id : Text) → Moves (read_secret (on_memory out) id)
  unfolding read_secret
  read_secret-Moves id = Moves-recording _ _

  refresh_token-Moves : (e : Envelope) → Moves (refresh_token (on_memory out) e)
  unfolding refresh_token
  refresh_token-Moves e = Moves-recording _ _

  send_request-Moves : (u : Upstream) → Moves (send_request (on_memory out) u)
  unfolding send_request
  send_request-Moves u = Moves-recording _ _

  reload_agent-Moves : (id : Text) → Moves (reload_agent (on_memory out) id)
  unfolding reload_agent
  reload_agent-Moves id = Moves-reading _

  access_token-Moves : (e : Envelope) → Moves (access_token lib (on_memory out) e)
  unfolding access_token fresh_token
  access_token-Moves e = search (move_rules, refresh_token-Moves) depth 20

  send_with-Moves :
      (method : Text) (f : Fetch) (access : Text) (r : Result (Header × Text))
      → Moves (send_with lib (on_memory out) method f access r)
  unfolding send_with
  send_with-Moves method f access (err e) = Moves-fail e
  send_with-Moves method f access (ok (h, code)) = search (move_rules, send_request-Moves) depth 20

  fetch_upstream-Moves :
      (f : Fetch) (e : Envelope) (now : ℕ) → Moves (fetch_upstream lib (on_memory out) f e now)
  unfolding fetch_upstream
  fetch_upstream-Moves f e now = search (move_rules, access_token-Moves, send_with-Moves) depth 20

  release-Moves :
      (item : Item) (f : Fetch) (dec : UseResult) (now : ℕ)
      → Moves (release lib (on_memory out) item f dec now)
  unfolding release
  release-Moves item f dec now =
      search (move_rules, read_secret-Moves, fetch_upstream-Moves) depth 20

  after_row-Moves :
      (item : Item) (f : Fetch) (dec : UseResult) (now : ℕ) (r : Result (Unit {0}))
      → Moves (after_row lib (on_memory out) item f dec now r)
  unfolding after_row
  after_row-Moves item f dec now (ok done) = release-Moves item f dec now
  after_row-Moves item f dec now (err e) = Moves-fail _

  after_consume-Moves :
      (p : Principal) (req : UseRequest) (item : Item) (f : Fetch) (dec : UseResult) (now : ℕ)
      (r : Result Principal)
      → Moves (after_consume lib (on_memory out) p req item f dec now r)
  unfolding after_consume
  after_consume-Moves p req item f dec now (ok current) = release-Moves item f dec now
  after_consume-Moves p req item f dec now (err e) = search (move_rules, audit_use-Moves) depth 20

  commit-Moves :
      (hash : Option Text) (p : Principal) (req : UseRequest) (item : Item) (f : Fetch)
      (dec : UseResult) (now : ℕ)
      → Moves (commit lib (on_memory out) hash p req item f dec now)
  unfolding commit
  commit-Moves none p req item f dec now =
      search (move_rules, append_audit-Moves, after_row-Moves) depth 20
  commit-Moves (some hash) p req item f dec now =
      search (move_rules, consume_audited-Moves, after_consume-Moves) depth 20

  proceed_fetch-Moves :
      (hash : Option Text) (p : Principal) (req : UseRequest) (item : Item) (f : Option Fetch)
      (dec : UseResult) (now : ℕ)
      → Moves (proceed_fetch lib (on_memory out) hash p req item f dec now)
  unfolding proceed_fetch
  proceed_fetch-Moves hash p req item none dec now = audit_use-Moves _ _ _ _
  proceed_fetch-Moves hash p req item (some f) dec now = commit-Moves hash p req item f dec now

  proceed-Moves :
      (hash : Option Text) (req : UseRequest) (item : Item) (now : ℕ) (r : Principal × UseResult)
      → Moves (proceed lib (on_memory out) hash req item now r)
  unfolding proceed
  proceed-Moves hash req item now (p, dec) =
      search (move_rules, audit_use-Moves, proceed_fetch-Moves) depth 20

  reloaded-Moves :
      (p : Principal) (dec : UseResult) (r : Result Principal)
      → Moves (reloaded lib (on_memory out) p dec r)
  unfolding reloaded
  reloaded-Moves p dec (ok current) = Moves-pure _
  reloaded-Moves p dec (err e) = search move_rules

  recheck_agent-Moves :
      (hash : Option Text) (p : Principal) (dec : UseResult)
      → Moves (recheck_agent lib (on_memory out) hash p dec)
  unfolding recheck_agent
  recheck_agent-Moves none p dec = search (move_rules, reload_agent-Moves, reloaded-Moves) depth 20
  recheck_agent-Moves (some hash) p dec = Moves-pure _

  use_authorized-Moves :
      (p : Principal) (req : UseRequest) (auth : UseAuth) (hash : Option Text) (now : ℕ)
      → Moves (use_authorized lib (on_memory out) p req auth hash now)
  unfolding use_authorized
  use_authorized-Moves p req auth hash now =
      search (move_rules, audit_use-Moves, recheck_agent-Moves, proceed-Moves) depth 20

  pub use_call-Moves :
      (full : Bool) (p : Principal) (req : UseRequest) (now : ℕ)
      → Moves (use_call lib (on_memory out) full p req now)
  unfolding use_call
  use_call-Moves full p req now = search (move_rules, use_authorized-Moves) depth 20

  session_auth-Moves : (r : Result UseAuth) → Moves (session_auth lib (on_memory out) r)
  unfolding session_auth
  session_auth-Moves (ok auth) = search move_rules
  session_auth-Moves (err e) = search move_rules

  pub use_session-Moves :
      (full : Bool) (hash : Text) (req : UseRequest) (now : ℕ)
      → Moves (use_session lib (on_memory out) full hash req now)
  unfolding use_session
  use_session-Moves full hash req now =
      search (move_rules, session_auth-Moves, use_authorized-Moves) depth 20
