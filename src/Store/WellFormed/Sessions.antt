-- ===== src/Store/WellFormed/Sessions.antt =====
-- The calls of internal/store/memory.go on sessions, and its sweep, keep the invariant.
use password_manager.Prelude.{
  ℕ, Bool-cases, Option, List, is_some, number_keys, ltb, Option-cases, inl, inr,
}
use password_manager.Prelude.Text.{Text, text_beq, text_keys}
use password_manager.GoMap.{get, put, find_entry, IsMap-put, IsMap-keep}
use password_manager.Protocol.{Session, AuditEvent}
use password_manager.Store.{Memory, session_hash_key}
use password_manager.Store.Sessions.{
  consume_session, revoke_session, renew_session, session_error, usable,
}
use password_manager.Store.Sweep.{sweep}
use password_manager.Store.WellFormed.{IsWellFormed}

-- A change of the sessions and the audit rows.
pub write_session-IsWellFormed :
    (k : Text) (s : Session) (rows : List AuditEvent) (m : Memory)
    → IsWellFormed m
    → IsWellFormed (record m { sessions = put k s m.sessions; audit = rows })
write_session-IsWellFormed k s rows m h = search IsMap-put

pub consume_session-IsWellFormed :
    (hash : Text) (now : ℕ) (e : Option AuditEvent) (m : Memory)
    → IsWellFormed m
    → IsWellFormed (consume_session hash now e m).1
unfolding consume_session
consume_session-IsWellFormed hash now e m h =
    elim (Option-cases (get (session_hash_key hash) m.sessions)) [
      | inl missing ↦ rw (missing, consume_session) h
      | inr (s, found) ↦
          rw (found, consume_session)
            (elim (Option-cases (session_error s now)) [
              | inr (failure, bad) ↦ rw bad h
              | inl good ↦ rw good (elim (Option-cases (usable (get s.agent_id m.agents))) [
                | inl off ↦ rw off h
                | inr (a, on) ↦ rw on (write_session-IsWellFormed _ _ _ m h)
              ])
            ])
    ]

pub revoke_session-IsWellFormed :
    (id : Text) (at : ℕ) (m : Memory) → IsWellFormed m → IsWellFormed (revoke_session id at m).1
unfolding revoke_session
revoke_session-IsWellFormed id at m h =
    elim (Option-cases (find_entry (λ s. text_beq s.id id) m.sessions)) [
      | inl missing ↦ rw (missing, revoke_session) h
      | inr ((k, s), found) ↦
          rw (found, revoke_session)
            (elim (Bool-cases (is_some s.revoked_at)) [
              | inl old ↦ rw old h
              | inr new ↦ rw new (write_session-IsWellFormed _ _ _ m h)
            ])
    ]

pub renew_session-IsWellFormed :
    (id : Text) (at : ℕ) (m : Memory) → IsWellFormed m → IsWellFormed (renew_session id at m).1
unfolding renew_session
renew_session-IsWellFormed id at m h =
    elim (Option-cases (find_entry (λ s. text_beq s.id id) m.sessions)) [
      | inl missing ↦ rw (missing, renew_session) h
      | inr ((k, s), found) ↦
          rw (found, renew_session)
            (elim (Bool-cases (is_some s.revoked_at)) [
              | inl off ↦ rw off h
              | inr on ↦ rw on (elim (Bool-cases (ltb at s.expires_at)) [
                | inl live ↦ rw live (write_session-IsWellFormed _ _ _ m h)
                | inr late ↦ rw late h
              ])
            ])
    ]

pub sweep-IsWellFormed : (cut : ℕ) (m : Memory) → IsWellFormed m → IsWellFormed (sweep cut m).1
unfolding sweep
sweep-IsWellFormed cut m h = search IsMap-keep
