-- ===== src/App/Oidc.antt =====
-- AgentFromOIDC and PrincipalFromOIDC of internal/app/app.go: a session's token first, then a bound
-- agent, then a human who is a member.
use password_manager.Prelude.{ℕ, none, some, Result, ok, err, Error, other, if◌then◌else◌}
use password_manager.Prelude.Text.{Text, bytes}
use password_manager.Protocol.{Principal}
use password_manager.Workload.{Oidc, workload_agent}
use password_manager.App.{App, Toolbox}
use password_manager.App.Query.{Query}
use password_manager.App.Sessions.{is_session_token}
use password_manager.App.SignIn.{principal_from_session}
use password_manager.App.Grants.{known_member}

unfoldable pub agent_from_oidc : Toolbox → Oidc → Text → ℕ → Query Principal
agent_from_oidc box lib raw_token now m =
    if is_session_token raw_token
    then principal_from_session box raw_token now m
    else workload_agent lib raw_token m

abbrev pub if_member : Principal → Result (Unit {0}) → Result Principal
if_member p (ok u) = ok p
if_member p (err e) = err e

-- The human that the token names; where there is none, the error is that of the agent's sign-in.
abbrev pub human_member : App → Error → Result Principal → Result Principal
human_member a e (err failure) = err e
human_member a e (ok p) =
    if_member p (known_member (other (bytes "app: not a member")) a.members p.id)

abbrev pub or_human : App → Text → Result Principal → Result Principal
or_human a raw_token (ok p) = ok p
or_human a raw_token (err e) = elim a.verifier [
  | none ↦ err e
  | some check ↦ human_member a e (check raw_token a.org_id)
]

unfoldable pub principal_from_oidc : App → Toolbox → Oidc → Text → ℕ → Query Principal
unfolding agent_from_oidc
principal_from_oidc a box lib raw_token now m =
    if is_session_token raw_token
    then principal_from_session box raw_token now m
    else or_human a raw_token (agent_from_oidc box lib raw_token now m)
