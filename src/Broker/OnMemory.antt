-- ===== src/Broker/OnMemory.antt =====
-- The interfaces of internal/broker/broker.go as internal/store/memory.go fills them: the broker is
-- given the store as it is, and writes its rows there.
use password_manager.Prelude.{Bool, Result, ok, some, is_ok, if◌then◌else◌}
use password_manager.Prelude.Text.{Text}
use password_manager.Material.{Envelope}
use password_manager.Protocol.{AuditEvent}
use password_manager.Store.{Memory}
use password_manager.Store.Agents
use password_manager.Store.Items
use password_manager.Store.Grants
use password_manager.Store.Sessions
use password_manager.Broker.Calls.{Environment, Upstream, Response}

-- What lies behind the broker besides the store in memory: the OAuth endpoints, the upstreams, and
-- whether the write of a row succeeds, which it need not where the row is kept outside memory.
pub record Outside : Type 0 where
  pub refresh : Envelope → Result Text
  pub accepts : Text → Text → Bool
  pub send : Upstream → Result Response
  pub append : AuditEvent → Memory → Result (Unit {0})

-- AppendAudit: the row is in the log, or the store is as it was and the caller has the error.
abbrev pub append_row : Outside → AuditEvent → Memory → Result (Unit {0}) × Memory
append_row out e m = (out.append e m, if is_ok (out.append e m) then Agents.append_audit e m else m)

abbrev pub on_memory : Outside → Environment
on_memory out = record {
  State = Memory;
  use_auth = λ agent item now m. (ok (Grants.use_auth agent item now m), m);
  use_auth_session = λ hash item now m. (Sessions.use_auth_session hash item now m, m);
  agent = λ id m. (Agents.get_agent id m, m);
  consume_session_audited = λ hash now e m. Sessions.consume_session hash now (some e) m;
  append_audit = λ e m. append_row out e m;
  secret = λ id m. (Items.get_secret id m, m);
  refresh = λ e m. (out.refresh e, m);
  accepts = out.accepts;
  send = λ u m. (out.send u, m);
}
