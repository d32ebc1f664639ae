-- ===== src/Store/WellFormed/Runs.antt =====
-- The invariant holds of every state that internal/store/memory.go reaches.
use password_manager.Prelude.{refl, List, [], ◌∷◌, number_keys}
use password_manager.Prelude.Text.{text_keys}
use password_manager.GoMap.{get}
use password_manager.Store.{Memory, new_memory}
use password_manager.Store.Agents.{append_audit, append_audits}
use password_manager.Store.Steps.{
  Call, agent_put, agent_revoke, human_put, item_put, item_archive, item_delete, version_restore,
  grant_put, approval_put, session_put, session_consume, session_revoke, session_renew,
  audit_append, audit_append_all, workload_put, old_sweep, step, run,
}
use password_manager.Store.WellFormed.{IsWellFormed}
use password_manager.Store.WellFormed.Rows.{
  put_agent-IsWellFormed, put_human-IsWellFormed, put_workload-IsWellFormed, put_grant-IsWellFormed,
  put_approval-IsWellFormed, put_session-IsWellFormed, add_rows-IsWellFormed,
  revoke_agent-IsWellFormed,
}
use password_manager.Store.WellFormed.Items.{
  put_item-IsWellFormed, restore_version-IsWellFormed, archive_item-IsWellFormed,
  delete_item-IsWellFormed,
}
use password_manager.Store.WellFormed.Sessions.{
  consume_session-IsWellFormed, revoke_session-IsWellFormed, renew_session-IsWellFormed,
  sweep-IsWellFormed,
}

-- Every call that changes the state keeps the invariant.
pub step-IsWellFormed : (c : Call) (m : Memory) → IsWellFormed m → IsWellFormed (step c m)
unfolding step
step-IsWellFormed (agent_put p) m h = put_agent-IsWellFormed p m h
step-IsWellFormed (agent_revoke id at events) m h = revoke_agent-IsWellFormed id at events m h
step-IsWellFormed (human_put p) m h = put_human-IsWellFormed p m h
step-IsWellFormed (item_put i s now) m h = put_item-IsWellFormed i s now m h
step-IsWellFormed (item_archive id) m h = archive_item-IsWellFormed id m h
step-IsWellFormed (item_delete id) m h = delete_item-IsWellFormed id m h
step-IsWellFormed (version_restore id v now) m h = restore_version-IsWellFormed id v now m h
step-IsWellFormed (grant_put g) m h = put_grant-IsWellFormed g m h
step-IsWellFormed (approval_put a) m h = put_approval-IsWellFormed a m h
step-IsWellFormed (session_put s hash) m h = put_session-IsWellFormed s hash m h
step-IsWellFormed (session_consume hash now e) m h = consume_session-IsWellFormed hash now e m h
step-IsWellFormed (session_revoke id at) m h = revoke_session-IsWellFormed id at m h
step-IsWellFormed (session_renew id at) m h = renew_session-IsWellFormed id at m h
step-IsWellFormed (audit_append e) m h = unfold append_audit in add_rows-IsWellFormed _ m h
step-IsWellFormed (audit_append_all es) m h = unfold append_audits in add_rows-IsWellFormed _ m h
step-IsWellFormed (workload_put w) m h = put_workload-IsWellFormed w m h
step-IsWellFormed (old_sweep cut) m h = sweep-IsWellFormed cut m h

pub run-IsWellFormed : (cs : List Call) (m : Memory) → IsWellFormed m → IsWellFormed (run cs m)
unfolding run
run-IsWellFormed [] m h = h
run-IsWellFormed (c ∷ cs) m h = run-IsWellFormed cs (step c m) (step-IsWellFormed c m h)

pub new_memory-IsWellFormed : IsWellFormed new_memory
unfolding get
new_memory-IsWellFormed = record {
  agents_once = tt;
  humans_once = tt;
  items_once = tt;
  secrets_once = tt;
  grants_once = tt;
  approvals_once = tt;
  workloads_once = tt;
  sessions_once = tt;
  ver_secrets_once = tt;
  item_keyed = λ k i e. cc e;
  sealed = λ k. refl;
}

-- Whatever calls a new store has served, each of its maps has a key once, each item stands under
-- its own id, and an id has an item exactly when it has a secret.
pub run_new-IsWellFormed : (cs : List Call) → IsWellFormed (run cs new_memory)
run_new-IsWellFormed cs = run-IsWellFormed cs new_memory new_memory-IsWellFormed
