-- ===== src/App/SignIn.antt =====
-- PrincipalFromSession and ListSessions of internal/app/session.go.
use password_manager.Prelude.{
  ℕ, not, List, Result, ok, err, forbidden, agent_revoked, session_revoked, session_expired,
  uses_exhausted, unauthorized, other, is_some, ltb, select, if◌then◌else◌,
}
use password_manager.Prelude.Text.{Text, bytes}
use password_manager.Bytes.{trim_space}
use password_manager.Protocol.{Principal, Session}
use password_manager.Store.Agents.{get_agent}
use password_manager.Store.Sessions.{session_by_hash, list_sessions, is_exhausted}
use password_manager.Broker.{is_not_found}
use password_manager.App.{App, Toolbox, owns_vault}
use password_manager.App.Sessions.{is_session_token, live_agent}
use password_manager.App.Query.{Query, ◌>>=◌, ◌>>◌, given, guard}

-- An unknown session and an error of the store.
abbrev pub or_unauthorized : {A : Type 0} → Result A → Result A
or_unauthorized (ok a) = ok a
or_unauthorized (err e) = if is_not_found e then err unauthorized else err e

-- The tests on a session before its agent is read.
unfoldable pub live_session : Session → ℕ → Result Session
live_session s now =
    if is_some s.revoked_at
    then err session_revoked
    else if not (ltb now s.expires_at)
    then err session_expired
    else if is_exhausted s
    then err uses_exhausted
    else ok s

unfoldable pub principal_from_session : Toolbox → Text → ℕ → Query Principal
unfolding live_session
principal_from_session box raw_token now =
    let raw = trim_space raw_token in
    (do
      guard (is_session_token raw) (other (bytes "app: not a session"))
      s ← (λ m. or_unauthorized (session_by_hash (box.sha256 raw) m))
      live ← given (live_session s now)
      p ← get_agent live.agent_id
      given (live_agent agent_revoked p))

unfoldable pub list_own_sessions : App → Principal → ℕ → Query (List Session)
list_own_sessions a actor now = do
  owns ← given (owns_vault a actor)
  guard owns forbidden
  λ m. ok (select (λ s. ltb now s.expires_at) (list_sessions m))
