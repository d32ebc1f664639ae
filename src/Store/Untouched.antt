-- ===== src/Store/Untouched.antt =====
-- What the calls of internal/store/memory.go do to its sessions.
use password_manager.Prelude.{
  ℕ, ◌≡◌, ◌⊎◌, refl, true, false, Option, none, some, List, arith, is_ok, Option-cases, inl, inr,
}
use password_manager.Prelude.Text.{Text, text_keys}
use password_manager.Prelude.Int64.{int_suc}
use password_manager.GoMap.{get, put}
use password_manager.Protocol.{Item, Session, AuditEvent}
use password_manager.Store.{Memory, session_hash_key}
use password_manager.Store.Agents.{revoke_agent}
use password_manager.Store.Items.{
  put_item, save_version, archive_item, delete_item, restore_version,
}
use password_manager.Store.Sessions.{consume_session, session_error, usable}

-- A consumption fails and leaves the sessions, or writes its session back with one more use.
pub consume_cases :
    (hash : Text) (now : ℕ) (e : Option AuditEvent) (m : Memory)
    → let r = consume_session hash now e m in
      let key = session_hash_key hash in
      ((is_ok r.0 ≡ false) × (r.1.sessions ≡ m.sessions))
      ⊎ ((s : Session) × (get key m.sessions ≡ some s)
          × (session_error s now ≡ none)
          × (is_ok r.0 ≡ true)
          × (r.1.sessions ≡ put key (record s { uses = int_suc s.uses }) m.sessions))
unfolding consume_session
consume_cases hash now e m = elim (Option-cases (get (session_hash_key hash) m.sessions)) [
  | inl missing ↦ rw (missing, consume_session) (inl (refl, refl))
  | inr (s, found) ↦
      rw (found, consume_session)
        (elim (Option-cases (session_error s now)) [
          | inr (failure, bad) ↦ rw bad (inl (refl, refl))
          | inl good ↦ elim (Option-cases (usable (get s.agent_id m.agents))) [
            | inl off ↦ rw good (rw off (inl (refl, refl)))
            | inr (a, on) ↦ inr (s, refl, good, rw good (rw on refl), rw good (rw on refl))
          ]
        ])
]

-- Calls on other data leave the sessions.
module _ (m : Memory) where
  pub sessions-revoke_agent :
      (id : Text) (at : ℕ) (events : List AuditEvent)
      → (revoke_agent id at events m).1.sessions ≡ m.sessions
  unfolding revoke_agent
  sessions-revoke_agent id at events = ground arith

  sessions-save_version :
      (id : Text) (now : ℕ) (o : Option Text) → (save_version id now o m).sessions ≡ m.sessions
  unfolding save_version
  sessions-save_version id now none = refl
  sessions-save_version id now (some old) = refl

  pub sessions-put_item :
      (i : Item) (s : Text) (now : ℕ) → (put_item i s now m).sessions ≡ m.sessions
  unfolding put_item
  sessions-put_item i s now = sessions-save_version i.id now (get i.id m.secrets)

  pub sessions-archive_item : (id : Text) → (archive_item id m).1.sessions ≡ m.sessions
  unfolding archive_item
  sessions-archive_item id = ground arith

  pub sessions-delete_item : (id : Text) → (delete_item id m).1.sessions ≡ m.sessions
  unfolding delete_item
  sessions-delete_item id = ground arith

  pub sessions-restore_version :
      (id : Text) (version now : ℕ) → (restore_version id version now m).1.sessions ≡ m.sessions
  unfolding restore_version
  sessions-restore_version id version now =
      ground (arith, sessions-save_version id now (get id m.secrets))
