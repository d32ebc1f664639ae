-- ===== src/Store/Revocation.antt =====
-- The revocation of an agent in internal/store/memory.go is final.
use password_manager.Prelude.{
  ℕ, ◌≡◌, refl, Bool, true, false, Option, none, some, List, [], ◌∷◌, arith, is_some, is_ok, ok,
  Option-cases, inl, inr,
}
use password_manager.Prelude.Text.{Text, text_beq_iff, text_keys}
use password_manager.GoMap.{get, get-put, get-put_self}
use password_manager.Grant.{UrlLibrary, evaluate}
use password_manager.Grant.Evaluation.{evaluate_revoked}
use password_manager.Protocol.{
  ActionKind, Decision, Principal, zero_principal, Item, Session, AuditEvent,
}
use password_manager.Store.{Memory}
use password_manager.Store.Agents.{
  put_agent, revoke_agent, put_human, append_audit, append_audits, put_workload,
}
use password_manager.Store.Items.{
  put_item, save_version, archive_item, delete_item, restore_version,
}
use password_manager.Store.Sessions.{
  put_session, session_by_hash, consume_session, revoke_session, renew_session,
}
use password_manager.Store.Sweep.{sweep}
use password_manager.Store.Grants.{put_grant, put_approval, use_auth, or_zero}
use password_manager.Store.Steps.{
  Call, agent_put, agent_revoke, human_put, item_put, item_archive, item_delete, version_restore,
  grant_put, approval_put, session_put, session_consume, session_revoke, session_renew,
  audit_append, audit_append_all, workload_put, old_sweep, step, run,
}

abbrev pub has_revocation : Option Principal → Bool
has_revocation none = false
has_revocation (some p) = is_some p.revoked_at

-- The map has the agent, revoked.
abbrev pub IsRevoked : Text → Memory → Type 0
IsRevoked id m = has_revocation (get id m.agents) ≡ true

-- The agents that a call writes.
agents-save_version :
    (id : Text) (now : ℕ) (o : Option Text) (m : Memory)
    → (save_version id now o m).agents ≡ m.agents
unfolding save_version
agents-save_version id now none m = refl
agents-save_version id now (some old) m = refl

module _ (m : Memory) where
  agents-restore_version :
      (item : Text) (version now : ℕ) → (restore_version item version now m).1.agents ≡ m.agents
  unfolding restore_version
  agents-restore_version item version now =
      ground (arith, agents-save_version item now (get item m.secrets) m)

  agents-put_item :
      (item : Item) (secret : Text) (now : ℕ) → (put_item item secret now m).agents ≡ m.agents
  unfolding put_item
  agents-put_item item secret now = agents-save_version item.id now (get item.id m.secrets) m

  agents-consume_session :
      (hash : Text) (now : ℕ) (e : Option AuditEvent)
      → (consume_session hash now e m).1.agents ≡ m.agents
  unfolding consume_session
  agents-consume_session hash now e = ground arith

module _ (id : Text) (m : Memory) where
  put_agent-IsRevoked : (p : Principal) → IsRevoked id m → IsRevoked id (put_agent p m)
  unfolding put_agent
  put_agent-IsRevoked p r = elim (Option-cases p.revoked_at) [
    | inl kept ↦ rw (get-put, kept) (ground (arith, text_beq_iff p.id id))
    | inr (t, new) ↦ rw (get-put, new) (ground (arith, text_beq_iff p.id id))
  ]

  revoke_agent-IsRevoked :
      (who : Text) (at : ℕ) (events : List AuditEvent)
      → IsRevoked id m
      → IsRevoked id (revoke_agent who at events m).1
  unfolding revoke_agent
  revoke_agent-IsRevoked who at events r = elim (Option-cases (get who m.agents)) [
    | inl missing ↦ rw (missing, revoke_agent) r
    | inr (p, found) ↦
        rw (found, revoke_agent)
          (ground (
            arith,
            text_beq_iff who id,
            get-put who id (record p { revoked_at = some at }) m.agents,
          ))
  ]

-- Whatever call the store serves, an agent that is revoked stays revoked: no put, no delete and no
-- sweep brings it back.
pub step-IsRevoked : (c : Call) (id : Text) (m : Memory) → IsRevoked id m → IsRevoked id (step c m)
unfolding step
step-IsRevoked (agent_put p) id m r = put_agent-IsRevoked id m p r
step-IsRevoked (agent_revoke who at events) id m r = revoke_agent-IsRevoked id m who at events r
step-IsRevoked (human_put p) id m r = unfold put_human in r
step-IsRevoked (item_put item secret now) id m r = rw (agents-put_item m item secret now) r
step-IsRevoked (item_archive item) id m r = unfold archive_item in ground arith
step-IsRevoked (item_delete item) id m r = unfold delete_item in ground arith
step-IsRevoked (version_restore item version now) id m r =
    rw (agents-restore_version m item version now) r
step-IsRevoked (grant_put g) id m r = unfold put_grant in r
step-IsRevoked (approval_put a) id m r = unfold put_approval in r
step-IsRevoked (session_put s hash) id m r = unfold put_session in r
step-IsRevoked (session_consume hash now e) id m r = rw (agents-consume_session m hash now e) r
step-IsRevoked (session_revoke s at) id m r = unfold revoke_session in ground arith
step-IsRevoked (session_renew s at) id m r = unfold renew_session in ground arith
step-IsRevoked (audit_append e) id m r = unfold append_audit in r
step-IsRevoked (audit_append_all events) id m r = unfold append_audits in r
step-IsRevoked (workload_put w) id m r = unfold put_workload in r
step-IsRevoked (old_sweep cut) id m r = unfold sweep in r

run-IsRevoked : (cs : List Call) (id : Text) (m : Memory) → IsRevoked id m → IsRevoked id (run cs m)
unfolding run
run-IsRevoked [] id m r = r
run-IsRevoked (c ∷ cs) id m r = run-IsRevoked cs id (step c m) (step-IsRevoked c id m r)

-- An agent that is found is revoked once the call returns.
pub revoke_agent_found :
    (id : Text) (at : ℕ) (events : List AuditEvent) (m : Memory)
    → (revoke_agent id at events m).0 ≡ ok tt
    → IsRevoked id (revoke_agent id at events m).1
unfolding revoke_agent
revoke_agent_found id at events m done = elim (Option-cases (get id m.agents)) [
  | inl missing ↦ ground (arith, missing)
  | inr (p, found) ↦
      rw (found, revoke_agent)
        (ground (arith, found, get-put_self id (record p { revoked_at = some at }) m.agents))
]

pub revoked_or_zero :
    (o : Option Principal)
    → has_revocation o ≡ true
    → is_some (or_zero zero_principal o).revoked_at ≡ true
revoked_or_zero none h = cc
revoked_or_zero (some p) h = h

module _ (id : Text) (at : ℕ) (events : List AuditEvent) (m : Memory) (cs : List Call) where
  abbrev pub later : Memory
  later = run cs (revoke_agent id at events m).1

  -- Once the revocation of an agent has returned, and whatever calls follow it, the use of a session
  -- of that agent fails, at any time and with any audit row.
  pub revoke_agent-consume_session :
      (hash : Text) (now : ℕ) (e : Option AuditEvent) (s : Session)
      → (revoke_agent id at events m).0 ≡ ok tt
      → session_by_hash hash later ≡ ok s
      → s.agent_id ≡ id
      → is_ok (consume_session hash now e later).0 ≡ false
  unfolding consume_session session_by_hash
  revoke_agent-consume_session hash now e s done found owner =
      let off = run-IsRevoked cs id _ (revoke_agent_found id at events m done) in
      let off' : IsRevoked s.agent_id later = rw owner off in ground arith

  -- Nor does the evaluation of a grant answer anything but deny on what the store then hands out
  -- for a Use call of that agent, for any item, action and URL, at any time.
  pub revoke_agent-evaluate :
      (lib : UrlLibrary) (item_id : Text) (action : ActionKind) (url : Text) (now : ℕ)
      → (revoke_agent id at events m).0 ≡ ok tt
      → let auth = use_auth id item_id now later in
        (evaluate lib (record {
          principal = auth.agent;
          item = auth.item;
          grant = auth.grant;
          action = action;
          target_url = url;
          approval = auth.approval;
          now = now;
        })).decision
        ≡ Decision.deny
  unfolding use_auth
  revoke_agent-evaluate lib item_id action url now done =
      let off = run-IsRevoked cs id _ (revoke_agent_found id at events m done) in
      evaluate_revoked lib _ (revoked_or_zero (get id later.agents) off)
