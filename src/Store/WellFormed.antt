-- ===== src/Store/WellFormed.antt =====
-- The invariant of the state in internal/store/memory.go.
pub mod Rows
pub mod Items
pub mod Sessions
pub mod Runs
use password_manager.Prelude.{
  ℕ, ◌≡◌, ◌∙◌, refl, ap, Bool, true, Bool-cases, Option, none, some, List, [], ◌∷◌, arith, is_some,
  number_keys, ltb, Option-cases, inl, inr,
}
use password_manager.Prelude.Text.{Text, text_beq, text_beq_iff, text_keys}
use password_manager.GoMap.{
  Map, IsMap, get, put, find_entry, get-put, get-delete, IsMap-put, IsMap-delete, IsMap-keep,
}
use password_manager.Protocol.{
  Principal, Item, Grant, Approval, Workload, Session, AuditEvent, ItemVersion,
}
use password_manager.Store.{Memory, new_memory, session_hash_key}
use password_manager.Store.Agents.{
  put_agent, put_human, put_workload, revoke_agent, append_audit, append_audits,
}
use password_manager.Store.Grants.{put_grant, put_approval}
use password_manager.Store.Sessions.{
  put_session, consume_session, revoke_session, renew_session, session_error, usable,
}
use password_manager.Store.Sweep.{sweep}
use password_manager.Store.Items.{
  put_item, save_version, archive_item, delete_item, drop_versions, restore_version, has_version,
}
use password_manager.Store.Steps.{
  Call, agent_put, agent_revoke, human_put, item_put, item_archive, item_delete, version_restore,
  grant_put, approval_put, session_put, session_consume, session_revoke, session_renew,
  audit_append, audit_append_all, workload_put, old_sweep, step, run,
}

-- Each map has a key once; an item stands under its id and has a secret, and no secret stands
-- without its item.
pub record IsWellFormed (m : Memory) : Type 0 where
  pub agents_once : IsMap m.agents
  pub humans_once : IsMap m.humans
  pub items_once : IsMap m.items
  pub secrets_once : IsMap m.secrets
  pub grants_once : IsMap m.grants
  pub approvals_once : IsMap m.approvals
  pub workloads_once : IsMap m.workloads
  pub sessions_once : IsMap m.sessions
  pub ver_secrets_once : IsMap m.ver_secret
  pub item_keyed : (k : Text) (i : Item) → get k m.items ≡ some i → i.id ≡ k
  pub sealed : (k : Text) → is_some (get k m.items) ≡ is_some (get k m.secrets)
