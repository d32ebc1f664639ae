-- ===== src/Store/Budget.antt =====
-- The cap on the uses of a session of internal/store/memory.go, over whole runs of the store.
use native.Mathlib.Nat.{add-zero}
use password_manager.Prelude.{
  ℕ, ◌+◌, ◌<◌, ◌≤◌, ◌≡◌, ◌≢◌, refl, ◌∙◌, ◌&&◌, Option, none, some, List, [], ◌∷◌, arith, is_some,
  is_ok, ltb, Option-cases, Bool-cases, inl, inr, ok, All, if◌then◌else◌,
}
use password_manager.Prelude.Text.{Text, text_keys, text_beq, text_beq_iff}
use password_manager.Prelude.Int64.{int_lt, int_suc, half}
use password_manager.GoMap.{IsMap, get, put, find_entry, get-put, get-keep, get-find_entry}
use password_manager.Protocol.{Session, AuditEvent}
use password_manager.Store.{Memory, session_hash_key}
use password_manager.Store.Agents.{put_agent, put_human, put_workload, append_audit, append_audits}
use password_manager.Store.Grants.{put_grant, put_approval}
use password_manager.Store.Sessions.{
  put_session, session_by_hash, consume_session, session_error, is_exhausted, revoke_session,
  renew_session,
}
use password_manager.Store.Sweep.{sweep, keeps_session}
use password_manager.Store.Steps.{
  Call, agent_put, agent_revoke, human_put, item_put, item_archive, item_delete, version_restore,
  grant_put, approval_put, session_put, session_consume, session_revoke, session_renew,
  audit_append, audit_append_all, workload_put, old_sweep, step,
}
use password_manager.Store.Untouched.{
  consume_cases, sessions-revoke_agent, sessions-put_item, sessions-archive_item,
  sessions-delete_item, sessions-restore_version,
}
use password_manager.Store.WellFormed.{IsWellFormed}
use password_manager.Store.WellFormed.Runs.{step-IsWellFormed}

-- A consumption fails and leaves the sessions, or writes its session back with one more use.
module _ (key : Text) where
  -- 1 for a call that consumes the session under this key, and 0 for any other.
  unfoldable pub consumed : Call → Memory → ℕ
  consumed (session_consume hash now e) m =
      if text_beq (session_hash_key hash) key && is_ok (consume_session hash now e m).0
      then 1
      else 0
  consumed (agent_put p) m = 0
  consumed _ m = 0

  unfoldable pub consumed_all : List Call → Memory → ℕ
  consumed_all [] m = 0
  consumed_all (c ∷ cs) m = consumed c m + consumed_all cs (step c m)

  -- No call mints a session under this key.
  abbrev pub MintsOther : Call → Type 0
  MintsOther (session_put s hash) = session_hash_key hash ≢ key
  MintsOther _ = Unit

  -- `used` of the `limit` uses are gone, as far as the session is still there.
  abbrev Spent : ℕ → ℕ → Option Session → Type 0
  Spent limit used none = used ≤ limit
  Spent limit used (some s) = (s.max_uses ≡ limit) × (s.uses ≡ used) × (used ≤ limit)

  module _ (limit used : ℕ) (pos : 0 < limit) (small : limit < half) where
    -- The test of the limit, where the words do not overflow.
    has_room :
        (s : Session) (now : ℕ)
        → Spent limit used (some s)
        → session_error s now ≡ none
        → Spent limit (used + 1) (some (record s { uses = int_suc s.uses }))
    unfolding session_error is_exhausted int_lt int_suc
    has_room s now h e = ground arith

    Spent-consume :
        (hash : Text) (now : ℕ) (e : Option AuditEvent) (m : Memory)
        → Spent limit used (get key m.sessions)
        → Spent limit
            (used + consumed (session_consume hash now e) m)
            (get key (consume_session hash now e m).1.sessions)
    unfolding consumed
    Spent-consume hash now e m h = elim (consume_cases hash now e m) [
      | inl (failed, same) ↦
          rw (same, failed)
            (elim (Bool-cases (text_beq (session_hash_key hash) key)) [
              | inl mine ↦ rw mine (rw add-zero h)
              | inr other ↦ rw other (rw add-zero h)
            ])
      | inr (s, found, good, done, written) ↦
          rw (written, get-put, done)
            (elim (Bool-cases (text_beq (session_hash_key hash) key)) [
              | inl mine ↦
                  let here : get key m.sessions ≡ some s = rw (← (text_beq_iff _ _).0 mine) found in
                  rw mine (has_room s now (rw here at h) good)
              | inr other ↦ rw other (rw add-zero h)
            ])
    ]

    -- A session is written back under its key with the same limit and uses.
    Spent-put :
        (k : Text) (s s' : Session) (m : Memory)
        → get k m.sessions ≡ some s
        → s'.max_uses ≡ s.max_uses
        → s'.uses ≡ s.uses
        → Spent limit used (get key m.sessions)
        → Spent limit used (get key (put k s' m.sessions))
    Spent-put k s s' m found a b h = elim (Bool-cases (text_beq k key)) [
      | inl mine ↦
          let here : get key m.sessions ≡ some s = rw (← (text_beq_iff _ _).0 mine) found in
          let h' : Spent limit used (some s) = rw here at h in
          rw get-put (rw mine (a ∙ h'.0, b ∙ h'.1, h'.2))
      | inr other ↦ rw get-put (rw other h)
    ]

    Spent-revoke :
        (id : Text) (at : ℕ) (m : Memory)
        → IsMap m.sessions
        → Spent limit used (get key m.sessions)
        → Spent limit used (get key (revoke_session id at m).1.sessions)
    unfolding revoke_session
    Spent-revoke id at m w h = elim (Option-cases (find_entry (λ s. text_beq s.id id) m.sessions)) [
      | inl missing ↦ rw (missing, revoke_session) h
      | inr ((k, s), found) ↦
          let there = get-find_entry (λ (s : Session). text_beq s.id id) m.sessions w found in
          rw (found, revoke_session)
            (elim (Bool-cases (is_some s.revoked_at)) [
              | inl old ↦ rw old h
              | inr new ↦ rw new (Spent-put k s _ m there refl refl h)
            ])
    ]

    Spent-renew :
        (id : Text) (at : ℕ) (m : Memory)
        → IsMap m.sessions
        → Spent limit used (get key m.sessions)
        → Spent limit used (get key (renew_session id at m).1.sessions)
    unfolding renew_session
    Spent-renew id at m w h = elim (Option-cases (find_entry (λ s. text_beq s.id id) m.sessions)) [
      | inl missing ↦ rw (missing, renew_session) h
      | inr ((k, s), found) ↦
          let there = get-find_entry (λ (s : Session). text_beq s.id id) m.sessions w found in
          rw (found, renew_session)
            (elim (Bool-cases (is_some s.revoked_at)) [
              | inl off ↦ rw off h
              | inr on ↦ rw on (elim (Bool-cases (ltb at s.expires_at)) [
                | inl live ↦ rw live (Spent-put k s _ m there refl refl h)
                | inr late ↦ rw late h
              ])
            ])
    ]

    Spent-mint :
        (s : Session) (hash : Text) (m : Memory)
        → session_hash_key hash ≢ key
        → Spent limit used (get key m.sessions)
        → Spent limit used (get key (put_session s hash m).sessions)
    unfolding put_session
    Spent-mint s hash m other h = elim (Bool-cases (text_beq (session_hash_key hash) key)) [
      | inl same ↦ absurd (other ((text_beq_iff _ _).0 same))
      | inr ne ↦ rw get-put (rw ne h)
    ]

    Spent-sweep :
        (cut : ℕ) (m : Memory)
        → IsMap m.sessions
        → Spent limit used (get key m.sessions)
        → Spent limit used (get key (sweep cut m).1.sessions)
    unfolding sweep
    Spent-sweep cut m w h =
        let kept = get-keep (keeps_session cut) key m.sessions w in
        elim (Option-cases (get key m.sessions)) [
          | inl missing ↦ rw kept (rw missing (rw missing at h))
          | inr (s, found) ↦
              let h' : Spent limit used (some s) = rw found at h in
              rw kept (
                rw found (elim (Bool-cases (keeps_session cut s)) [
                  | inl stays ↦ rw stays h'
                  | inr goes ↦ rw goes h'.2
                ]))
        ]

    Spent-step :
        (c : Call) (m : Memory)
        → IsWellFormed m
        → MintsOther c
        → Spent limit used (get key m.sessions)
        → Spent limit (used + consumed c m) (get key (step c m).sessions)
    unfolding step consumed
    Spent-step (agent_put p) m w o h = unfold put_agent in rw add-zero h
    Spent-step (agent_revoke id at events) m w o h =
        rw add-zero (rw (sessions-revoke_agent m id at events) h)
    Spent-step (human_put p) m w o h = unfold put_human in rw add-zero h
    Spent-step (item_put i s now) m w o h = rw add-zero (rw (sessions-put_item m i s now) h)
    Spent-step (item_archive id) m w o h = rw add-zero (rw (sessions-archive_item m id) h)
    Spent-step (item_delete id) m w o h = rw add-zero (rw (sessions-delete_item m id) h)
    Spent-step (version_restore id v now) m w o h =
        rw add-zero (rw (sessions-restore_version m id v now) h)
    Spent-step (grant_put g) m w o h = unfold put_grant in rw add-zero h
    Spent-step (approval_put a) m w o h = unfold put_approval in rw add-zero h
    Spent-step (session_put s hash) m w o h = rw add-zero (Spent-mint s hash m o h)
    Spent-step (session_consume hash now e) m w o h =
        unfold consumed in Spent-consume hash now e m h
    Spent-step (session_revoke id at) m w o h = rw add-zero (Spent-revoke id at m w.sessions_once h)
    Spent-step (session_renew id at) m w o h = rw add-zero (Spent-renew id at m w.sessions_once h)
    Spent-step (audit_append e) m w o h = unfold append_audit in rw add-zero h
    Spent-step (audit_append_all es) m w o h = unfold append_audits in rw add-zero h
    Spent-step (workload_put x) m w o h = unfold put_workload in rw add-zero h
    Spent-step (old_sweep cut) m w o h = rw add-zero (Spent-sweep cut m w.sessions_once h)

Spent-run :
    (key : Text) (limit used : ℕ)
    → 0 < limit
    → limit < half
    → (cs : List Call) (m : Memory) → IsWellFormed m
    → All (MintsOther key) cs
    → Spent key limit used (get key m.sessions)
    → used + consumed_all key cs m ≤ limit
unfolding consumed_all
Spent-run key limit used pos small [] m w o h = elim (Option-cases (get key m.sessions)) [
  | inl missing ↦ ground (arith, missing, h)
  | inr (s, found) ↦ ground (arith, found, h)
]
Spent-run key limit used pos small (c ∷ cs) m w o h =
    let after = Spent-step key limit used pos small c m w o.0 h in
    omega (
      arith,
      Spent-run key limit (used + consumed key c m) pos small cs (step c m)
          (step-IsWellFormed c m w) o.1 after,
    )

-- Over a run from a well-formed store, of any calls that do not mint another session under the same
-- hash, a session with a limit on its uses is consumed at most as often as the limit leaves: where
-- `max_uses` is positive and fits in 63 bits (0 is no limit), and the uses so far do not pass it, these
-- and the consumptions that succeed together never pass it.
pub consumed_all-le-max_uses :
    (hash : Text) (s : Session) (cs : List Call) (m : Memory)
    → IsWellFormed m
    → session_by_hash hash m ≡ ok s
    → 0 < s.max_uses
    → s.max_uses < half
    → s.uses ≤ s.max_uses
    → All (MintsOther (session_hash_key hash)) cs
    → s.uses + consumed_all (session_hash_key hash) cs m ≤ s.max_uses
unfolding session_by_hash
consumed_all-le-max_uses hash s cs m w known pos small fits o =
    let found : get (session_hash_key hash) m.sessions ≡ some s = ground arith in
    Spent-run (session_hash_key hash) s.max_uses s.uses pos small cs m w o
      (rw found (refl, refl, fits))
