-- ===== src/Store/Agents.antt =====
-- The agents, humans, workloads and audit rows of internal/store/memory.go.
use password_manager.Prelude.{
  ℕ, ◌-◌, not, Option, none, some, List, [], ◌∷◌, ◌++◌, length, drop, ltb, is_some, Result, ok, err,
  not_found, if◌then◌else◌, select,
}
use password_manager.Prelude.Text.{Text, text_beq, text_keys}
use password_manager.GoMap.{get, put, values}
use password_manager.Protocol.{Principal, AuditEvent, Workload}
use password_manager.Store.{Memory, max_list_results, first_results, workload_key}

-- The earlier revocation of an agent, if the map has the agent.
abbrev pub kept_revocation : Option Principal → Option ℕ
kept_revocation none = none
kept_revocation (some existing) = existing.revoked_at

unfoldable pub put_agent : Principal → Memory → Memory
put_agent p m =
    let p' : Principal =
      (if not (is_some p.revoked_at)
        then record p { revoked_at = kept_revocation (get p.id m.agents) }
        else p) in
    record m { agents = put p.id p' m.agents }

unfoldable pub list_agents : Memory → List Principal
list_agents m = first_results (values m.agents)

unfoldable pub get_agent : Text → Memory → Result Principal
get_agent id m = elim (get id m.agents) [ none ↦ err not_found | some p ↦ ok p ]

-- An agent that is revoked already stays as it is; the audit rows are added all the same.
unfoldable pub revoke_agent : Text → ℕ → List AuditEvent → Memory → Result (Unit {0}) × Memory
revoke_agent id at events m = elim (get id m.agents) [
  | none ↦ (err not_found, m)
  | some p ↦ (
    ok tt,
    record m {
      agents =
          if is_some p.revoked_at
          then m.agents
          else put id (record p { revoked_at = some at }) m.agents;
      audit = m.audit ++ events;
    },
  )
]

unfoldable pub put_human : Principal → Memory → Memory
put_human p m = record m { humans = put p.id p m.humans }

unfoldable pub get_human : Text → Memory → Result Principal
get_human id m = elim (get id m.humans) [ none ↦ err not_found | some p ↦ ok p ]

unfoldable pub list_humans : Memory → List Principal
list_humans m = first_results (values m.humans)

unfoldable pub append_audit : AuditEvent → Memory → Memory
append_audit e m = record m { audit = m.audit ++ e ∷ [] }

unfoldable pub append_audits : List AuditEvent → Memory → Memory
append_audits events m = record m { audit = m.audit ++ events }

-- The last rows, in order.
unfoldable pub read_audit : Memory → List AuditEvent
read_audit m =
    let n = (if ltb max_list_results (length m.audit) then max_list_results else length m.audit) in
    drop (length m.audit - n) m.audit

unfoldable pub put_workload : Workload → Memory → Memory
put_workload w m = record m { workloads = put (workload_key w.issuer w.subject) w m.workloads }

unfoldable pub get_workload : Text → Text → Memory → Option Workload
get_workload issuer subject m = get (workload_key issuer subject) m.workloads

unfoldable pub workloads_for_issuer : Text → Memory → List Workload
workloads_for_issuer issuer m =
    first_results (select (λ w. text_beq w.issuer issuer) (values m.workloads))
