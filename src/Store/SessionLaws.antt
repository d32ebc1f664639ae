-- ===== src/Store/SessionLaws.antt =====
-- When a session of internal/store/memory.go is consumed, and what that changes.
use password_manager.Prelude.{
  ℕ, ◌+◌, ◌*◌, if◌then◌else◌, ◌<◌, ◌≤◌, ◌≡◌, ◌↔◌, ◌⊎◌, refl, true, false, Option, none, some, [],
  ◌∷◌, ◌++◌, arith, ok, err, Error,
}
use password_manager.Prelude.Text.{Text, text_keys, text_beq}
use password_manager.Prelude.Int64.{int_lt, int_suc, half, time_add, seconds, second}
use password_manager.GoMap.{get, get-put}
use password_manager.Protocol.{Principal, AuditEvent, Session}
use password_manager.Store.{Memory, session_hash_key}
use password_manager.Store.Agents.{get_agent}
use password_manager.Store.Sessions.{
  session_by_hash, session_error, is_exhausted, usable, consume_session, renewed_expiry,
}

-- A session that can still be used, read from the record alone.
abbrev pub HasUse : Session → ℕ → Type 0
HasUse s now =
    (s.revoked_at ≡ none)
    × (now < s.expires_at)
    × ((int_lt 0 s.max_uses ≡ false) ⊎ (int_lt s.uses s.max_uses ≡ true))

session_error_iff : (s : Session) (now : ℕ) → (session_error s now ≡ none) ↔ HasUse s now
unfolding session_error is_exhausted
session_error_iff s now = ground arith

usable_iff :
    (o : Option Principal) (a : Principal)
    → (usable o ≡ some a) ↔ ((o ≡ some a) × (a.revoked_at ≡ none))
usable_iff none a = ground arith
usable_iff (some b) a = ground arith

get_agent-ok_iff :
    (id : Text) (m : Memory) (a : Principal) → (get_agent id m ≡ ok a) ↔ (get id m.agents ≡ some a)
unfolding get_agent
get_agent-ok_iff id m a = ground arith

session_by_hash-ok_iff :
    (hash : Text) (m : Memory) (s : Session)
    → (session_by_hash hash m ≡ ok s) ↔ (get (session_hash_key hash) m.sessions ≡ some s)
unfolding session_by_hash
session_by_hash-ok_iff hash m s = ground arith

-- The row as it is given, but under that agent's organisation and id.
abbrev pub own_row : AuditEvent → Principal → AuditEvent
own_row row a = record {
  time = row.time;
  org_id = a.org_id;
  agent_id = a.id;
  item_id = row.item_id;
  action = row.action;
  decision = row.decision;
  reason = row.reason;
  approval_id = row.approval_id;
}

module _ (hash : Text) (now : ℕ) (e : Option AuditEvent) (m : Memory) where
  consume_found :
      (s : Session) (a : Principal)
      → get (session_hash_key hash) m.sessions ≡ some s
      → ((consume_session hash now e m).0 ≡ ok a)
        ↔ ((session_error s now ≡ none) × (usable (get s.agent_id m.agents) ≡ some a))
  unfolding consume_session
  consume_found s a found = ground arith

  consume_ok_found :
      (a : Principal)
      → (consume_session hash now e m).0 ≡ ok a
      → (s : Session) × (get (session_hash_key hash) m.sessions ≡ some s)
  unfolding consume_session
  consume_ok_found a h = ground arith

  -- A consumption succeeds exactly for a session that the store has, that is not revoked, has not
  -- expired and has a use left, and whose agent the store has, not revoked; it returns that agent.
  pub consume_session-ok_iff :
      (a : Principal)
      → ((consume_session hash now e m).0 ≡ ok a) ↔ (
          (s : Session) × (session_by_hash hash m ≡ ok s)
          × HasUse s now
          × (get_agent s.agent_id m ≡ ok a)
          × (a.revoked_at ≡ none))
  consume_session-ok_iff a = (
    (λ h.
        let (s, found) = consume_ok_found a h in
        let parts = (consume_found s a found).0 h in
        let agent = (usable_iff (get s.agent_id m.agents) a).0 parts.1 in
        (
          s,
          (session_by_hash-ok_iff hash m s).1 found,
          (session_error_iff s now).0 parts.0,
          (get_agent-ok_iff s.agent_id m a).1 agent.0,
          agent.1,
        )),
    λ r. (consume_found r.0 a ((session_by_hash-ok_iff hash m r.0).0 r.1)).1 (
      (session_error_iff r.0 now).1 r.2,
      (usable_iff (get r.0.agent_id m.agents) a).1 ((get_agent-ok_iff r.0.agent_id m a).0 r.3, r.4),
    ),
  )

  -- A consumption that fails changes nothing.
  pub consume_session_failed :
      (x : Error) → (consume_session hash now e m).0 ≡ err x → (consume_session hash now e m).1 ≡ m
  unfolding consume_session
  consume_session_failed x h = ground arith

  -- A consumption that succeeds adds one to the uses of its session and nothing else to it, leaves
  -- every other session, the agents, the grants and the approvals, and adds to the audit log exactly
  -- the row that it was given, under the agent's organisation and id, or none where none was given.
  pub consume_session_effect :
      (s : Session) (a : Principal)
      → session_by_hash hash m ≡ ok s
      → (consume_session hash now e m).0 ≡ ok a
      → let m' = (consume_session hash now e m).1 in
        ((k : Text)
          → get k m'.sessions ≡ (
              if text_beq (session_hash_key hash) k
              then some (record s { uses = int_suc s.uses })
              else get k m.sessions))
        × (e ≡ none → m'.audit ≡ m.audit)
        × ((row : AuditEvent) → e ≡ some row → m'.audit ≡ m.audit ++ own_row row a ∷ [])
        × (m'.agents ≡ m.agents)
        × (m'.grants ≡ m.grants)
        × (m'.approvals ≡ m.approvals)
  unfolding consume_session
  consume_session_effect s a known h =
      let found = (session_by_hash-ok_iff hash m s).0 known in
      let (good, on) = (consume_found s a found).0 h in
      rw (found, consume_session)
        (rw good (
          rw on (
            (λ k. get-put _ k _ m.sessions),
            (λ n. rw n refl),
            (λ row n. rw n refl),
            refl,
            refl,
            refl,
          )))

abbrev pub InRange : ℕ → Type 0
InRange d = d < half

time_add-seconds : (t n : ℕ) → InRange (n * second) → time_add t (seconds n) ≡ t + n * second
unfolding time_add seconds
time_add-seconds t n h = ground arith

-- A renewal never shortens a session, and where its expiry moves it ends at most `max_ttl` seconds
-- after the creation and at most `ttl` seconds after the expiry it had, the durations being those
-- that Go's `time.Duration` holds without overflow.
pub renewed_expiry_bounds :
    (s : Session)
    → InRange (s.ttl * second)
    → InRange (s.max_ttl * second)
    → (s.expires_at ≤ renewed_expiry s)
      × (renewed_expiry s ≤ s.expires_at + s.ttl * second)
      × ((renewed_expiry s ≡ s.expires_at) ⊎ (renewed_expiry s ≤ s.created_at + s.max_ttl * second))
unfolding renewed_expiry
renewed_expiry_bounds s h k =
    rw (time_add-seconds s.expires_at s.ttl h, time_add-seconds s.created_at s.max_ttl k)
      (ground arith)
