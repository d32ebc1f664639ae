-- ===== src/Store/Steps.antt =====
-- The calls that change the state of internal/store/memory.go, as the steps of one transition
-- function. Each call holds the store's lock, so a run of the store is a sequence of them.
use password_manager.Prelude.{ℕ, Option, List, [], ◌∷◌}
use password_manager.Prelude.Text.{Text}
use password_manager.Protocol.{Principal, Item, Grant, Approval, AuditEvent, Workload, Session}
use password_manager.Store.{Memory, Secret}
use password_manager.Store.Agents.{
  put_agent, revoke_agent, put_human, append_audit, append_audits, put_workload,
}
use password_manager.Store.Items.{put_item, archive_item, delete_item, restore_version}
use password_manager.Store.Grants.{put_grant, put_approval}
use password_manager.Store.Sessions.{put_session, consume_session, revoke_session, renew_session}
use password_manager.Store.Sweep.{sweep}

pub data Call : Type 0 where
  agent_put : Principal → Call
  agent_revoke : Text → ℕ → List AuditEvent → Call
  human_put : Principal → Call
  item_put : Item → Secret → ℕ → Call
  item_archive : Text → Call
  item_delete : Text → Call
  version_restore : Text → ℕ → ℕ → Call
  grant_put : Grant → Call
  approval_put : Approval → Call
  session_put : Session → Text → Call
  session_consume : Text → ℕ → Option AuditEvent → Call
  session_revoke : Text → ℕ → Call
  session_renew : Text → ℕ → Call
  audit_append : AuditEvent → Call
  audit_append_all : List AuditEvent → Call
  workload_put : Workload → Call
  old_sweep : ℕ → Call

unfoldable pub step : Call → Memory → Memory
step (agent_put p) m = put_agent p m
step (agent_revoke id at events) m = (revoke_agent id at events m).1
step (human_put p) m = put_human p m
step (item_put item secret now) m = put_item item secret now m
step (item_archive id) m = (archive_item id m).1
step (item_delete id) m = (delete_item id m).1
step (version_restore item version now) m = (restore_version item version now m).1
step (grant_put g) m = put_grant g m
step (approval_put a) m = put_approval a m
step (session_put s hash) m = put_session s hash m
step (session_consume hash now e) m = (consume_session hash now e m).1
step (session_revoke id at) m = (revoke_session id at m).1
step (session_renew id at) m = (renew_session id at m).1
step (audit_append e) m = append_audit e m
step (audit_append_all events) m = append_audits events m
step (workload_put w) m = put_workload w m
step (old_sweep cut) m = (sweep cut m).1

unfoldable pub run : List Call → Memory → Memory
run [] m = m
run (c ∷ rest) m = run rest (step c m)
