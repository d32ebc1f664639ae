-- ===== src/App/Agents.antt =====
-- AddAgent, RevokeAgent and BindWorkload of internal/app/app.go.
use password_manager.Prelude.{
  ℕ, Bool, not, ◌&&◌, ◌||◌, none, [], ◌∷◌, Error, forbidden, agent_revoked, wrap, other, is_some,
  if◌then◌else◌,
}
use password_manager.Prelude.Text.{Text, bytes, text_beq, is_empty}
use password_manager.Protocol.{
  Principal, agent, user, AuditEvent, Workload, Decision, Reason, revoke,
}
use password_manager.Id.{valid}
use password_manager.Store.Agents.{get_agent}
use password_manager.Store.Steps.{agent_put, workload_put}
use password_manager.App.{App, is_user, owns_vault}
use password_manager.App.Vault.{Vault, ◌>>=◌, ◌>>◌, pure, given, guard, reads, calls, revoke_call}

abbrev pub bad_name : Error
bad_name = other (bytes "app: invalid agent name")

-- An agent that was revoked under this name stays revoked, which is an error.
unfoldable pub add_agent : App → Text → Vault Principal
add_agent a name = do
  guard (valid name) bad_name
  calls (
      agent_put (record {
        kind = agent;
        id = name;
        org_id = a.org_id;
        owner = record { kind = user; id = a.human_id };
        revoked_at = none;
      }))
  got ← reads (get_agent name)
  guard (not (is_some got.revoked_at)) (wrap name agent_revoked)
  pure got

abbrev pub revoke_event : App → Text → ℕ → AuditEvent
revoke_event a agent_id now = record {
  time = now;
  org_id = a.org_id;
  agent_id = agent_id;
  item_id = [];
  action = revoke;
  decision = Decision.allow;
  reason = Reason.no_reason;
  approval_id = [];
}

-- The agent belongs to this vault's organisation and person.
abbrev pub is_ours : App → Principal → Bool
is_ours a p = text_beq p.org_id a.org_id && is_user p.owner.kind && text_beq p.owner.id a.human_id

-- An agent that is revoked already stays as it is.
abbrev pub unless_revoked : Principal → Vault (Unit {0}) → Vault (Unit {0})
unless_revoked p v = if is_some p.revoked_at then pure tt else v

unfoldable pub revoke_own_agent : App → Principal → Text → ℕ → Vault (Unit {0})
revoke_own_agent a actor agent_id now = do
  owns ← given (owns_vault a actor)
  guard owns forbidden
  guard (valid agent_id) bad_name
  target ← reads (get_agent agent_id)
  guard (is_ours a target) forbidden
  unless_revoked target (revoke_call agent_id now (revoke_event a agent_id now ∷ []))

unfoldable pub bind_workload : Text → Text → Text → Text → Vault Workload
bind_workload agent_id issuer subject audience = do
  guard (valid agent_id) bad_name
  guard (not (is_empty issuer || is_empty subject || is_empty audience))
      (other (bytes "app: issuer, subject, and audience are required"))
  target ← reads (get_agent agent_id)
  guard (not (is_some target.revoked_at)) agent_revoked
  let w : Workload = record {
    agent_id = agent_id;
    issuer = issuer;
    subject = subject;
    audience = audience;
  }
  calls (workload_put w)
  pure w
