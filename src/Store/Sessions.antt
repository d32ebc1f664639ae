-- ===== src/Store/Sessions.antt =====
-- The sessions of internal/store/memory.go: short leases onto an agent, found by the hash of their
-- secret.
use password_manager.Prelude.{
  ℕ, Bool, ◌&&◌, not, Option, none, some, List, [], ◌∷◌, ◌++◌, ltb, is_some, Result, ok, err,
  not_found, denied, session_expired, session_revoked, Error, if◌then◌else◌,
}
use password_manager.Prelude.Text.{Text, text_beq, text_keys}
use password_manager.Prelude.Int64.{int_lt, int_suc, seconds, time_add}
use password_manager.GoMap.{get, put, values, find_entry}
use password_manager.Protocol.{Principal, AuditEvent, Session}
use password_manager.Store.{Memory, UseAuth, first_results, session_hash_key}
use password_manager.Store.Grants.{use_auth}

unfoldable pub put_session : Session → Text → Memory → Memory
put_session s secret_hash m = record m {
  sessions = put (session_hash_key secret_hash) s m.sessions;
}

unfoldable pub session_by_hash : Text → Memory → Result Session
session_by_hash secret_hash m = elim (get (session_hash_key secret_hash) m.sessions) [
  | none ↦ err not_found
  | some s ↦ ok s
]

-- sess.MaxUses > 0 && sess.Uses >= sess.MaxUses
unfoldable pub is_exhausted : Session → Bool
is_exhausted s = int_lt 0 s.max_uses && not (int_lt s.uses s.max_uses)

-- The three tests that a session passes before it is used; `none` where it passes.
unfoldable pub session_error : Session → ℕ → Option Error
session_error s now =
    if is_some s.revoked_at
    then some session_revoked
    else if not (ltb now s.expires_at)
    then some session_expired
    else if is_exhausted s
    then some denied
    else none

unfoldable pub use_auth_session : Text → Text → ℕ → Memory → Result UseAuth
use_auth_session secret_hash item_id now m = elim (get (session_hash_key secret_hash) m.sessions) [
  | none ↦ err not_found
  | some s ↦ elim (session_error s now) [
    | some e ↦ err e
    | none ↦ ok (use_auth s.agent_id item_id now m)
  ]
]

-- The agent as it is now, unless it is missing or revoked.
abbrev pub usable : Option Principal → Option Principal
usable none = none
usable (some a) = if is_some a.revoked_at then none else some a

-- The row is written with the consumed agent's identity.
abbrev pub with_event : Option AuditEvent → Principal → List AuditEvent → List AuditEvent
with_event none a rows = rows
with_event (some e) a rows = rows ++ record e { org_id = a.org_id; agent_id = a.id } ∷ []

unfoldable pub consume_session : Text → ℕ → Option AuditEvent → Memory → Result Principal × Memory
consume_session secret_hash now e m = elim (get (session_hash_key secret_hash) m.sessions) [
  | none ↦ (err not_found, m)
  | some s ↦ elim (session_error s now) [
    | some failure ↦ (err failure, m)
    | none ↦ elim (usable (get s.agent_id m.agents)) [
      | none ↦ (err not_found, m)
      | some a ↦ (
        ok a,
        record m {
          sessions =
              put (session_hash_key secret_hash) (record s { uses = int_suc s.uses }) m.sessions;
          audit = with_event e a m.audit;
        },
      )
    ]
  ]
]

unfoldable pub list_sessions : Memory → List Session
list_sessions m = first_results (values m.sessions)

unfoldable pub session_by_id : Text → Memory → Result Session
session_by_id id m = elim (find_entry (λ s. text_beq s.id id) m.sessions) [
  | none ↦ err not_found
  | some (k, s) ↦ ok s
]

unfoldable pub revoke_session : Text → ℕ → Memory → Result (Unit {0}) × Memory
revoke_session id at m = elim (find_entry (λ s. text_beq s.id id) m.sessions) [
  | none ↦ (err not_found, m)
  | some (k, s) ↦ (
    ok tt,
    if is_some s.revoked_at
        then m
        else record m { sessions = put k (record s { revoked_at = some at }) m.sessions },
  )
]

-- The new expiry: one more TTL, at most MaxTTL after the creation, and never earlier than before.
unfoldable pub renewed_expiry : Session → ℕ
renewed_expiry s =
    let max_expires = time_add s.created_at (seconds s.max_ttl) in
    let one_more = time_add s.expires_at (seconds s.ttl) in
    let capped = (if ltb max_expires one_more then max_expires else one_more) in
    if not (ltb s.expires_at capped) then s.expires_at else capped

unfoldable pub renew_session : Text → ℕ → Memory → Result Session × Memory
renew_session id at m = elim (find_entry (λ s. text_beq s.id id) m.sessions) [
  | none ↦ (err not_found, m)
  | some (k, s) ↦
      if is_some s.revoked_at
      then (err session_revoked, m)
      else if not (ltb at s.expires_at)
      then (err session_expired, m)
      else (let s' = record s { expires_at = renewed_expiry s; renewed_at = some at } in
          (ok s', record m { sessions = put k s' m.sessions }))
]
