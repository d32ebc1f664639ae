-- ===== src/Store/WellFormed/Rows.antt =====
-- The calls of internal/store/memory.go on agents, humans, grants, approvals, workloads and audit
-- rows keep the invariant.
use password_manager.Prelude.{ℕ, Bool-cases, List, is_some, number_keys, Option-cases, inl, inr}
use password_manager.Prelude.Text.{Text, text_keys}
use password_manager.GoMap.{get, IsMap-put}
use password_manager.Protocol.{Principal, Grant, Approval, Workload, Session, AuditEvent}
use password_manager.Store.{Memory}
use password_manager.Store.Agents.{put_agent, put_human, put_workload, revoke_agent}
use password_manager.Store.Grants.{put_grant, put_approval}
use password_manager.Store.Sessions.{put_session}
use password_manager.Store.WellFormed.{IsWellFormed}

pub put_agent-IsWellFormed :
    (p : Principal) (m : Memory) → IsWellFormed m → IsWellFormed (put_agent p m)
unfolding put_agent
put_agent-IsWellFormed p m h = search IsMap-put

pub put_human-IsWellFormed :
    (p : Principal) (m : Memory) → IsWellFormed m → IsWellFormed (put_human p m)
unfolding put_human
put_human-IsWellFormed p m h = search IsMap-put

pub put_workload-IsWellFormed :
    (w : Workload) (m : Memory) → IsWellFormed m → IsWellFormed (put_workload w m)
unfolding put_workload
put_workload-IsWellFormed w m h = search IsMap-put

pub put_grant-IsWellFormed :
    (g : Grant) (m : Memory) → IsWellFormed m → IsWellFormed (put_grant g m)
unfolding put_grant
put_grant-IsWellFormed g m h = search IsMap-put

pub put_approval-IsWellFormed :
    (a : Approval) (m : Memory) → IsWellFormed m → IsWellFormed (put_approval a m)
unfolding put_approval
put_approval-IsWellFormed a m h = search IsMap-put

pub put_session-IsWellFormed :
    (s : Session) (hash : Text) (m : Memory) → IsWellFormed m → IsWellFormed (put_session s hash m)
unfolding put_session
put_session-IsWellFormed s hash m h = search IsMap-put

pub add_rows-IsWellFormed :
    (rows : List AuditEvent) (m : Memory)
    → IsWellFormed m
    → IsWellFormed (record m { audit = rows })
add_rows-IsWellFormed rows m h = search IsMap-put

pub revoke_agent-IsWellFormed :
    (id : Text) (at : ℕ) (events : List AuditEvent) (m : Memory)
    → IsWellFormed m
    → IsWellFormed (revoke_agent id at events m).1
unfolding revoke_agent
revoke_agent-IsWellFormed id at events m h = elim (Option-cases (get id m.agents)) [
  | inl missing ↦ rw (missing, revoke_agent) h
  | inr (p, found) ↦
      rw (found, revoke_agent)
        (elim (Bool-cases (is_some p.revoked_at)) [
          | inl old ↦ rw old (search IsMap-put)
          | inr new ↦ rw new (search IsMap-put)
        ])
]
