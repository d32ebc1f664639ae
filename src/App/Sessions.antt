-- ===== src/App/Sessions.antt =====
-- internal/app/session.go: sessions of an agent, by a token of which the store has the hash.
use password_manager.Prelude.{
  ℕ, ◌/◌, Bool, true, false, not, ◌&&◌, none, [], ◌∷◌, ◌++◌, length, drop, Result, ok, err, Error,
  forbidden, other, is_some, nat_beq, if◌then◌else◌,
}
use password_manager.Prelude.Text.{Text, bytes}
use password_manager.Prelude.Int64.{int_lt, second, time_add}
use password_manager.Bytes.{has_prefix, trim_space}
use password_manager.Protocol.{Principal, Session}
use password_manager.Store.{hex_encode}
use password_manager.Store.Agents.{get_agent}
use password_manager.Store.Sessions.{session_by_id}
use password_manager.Store.Steps.{session_put}
use password_manager.Id.{is_hex, new_session}
use password_manager.App.{App, Toolbox, owns_vault}
use password_manager.App.Vault.{
  Vault, ◌>>=◌, ◌>>◌, pure, given, guard, reads, calls, session_revoke_call, session_renew_call,
}

abbrev pub session_prefix : Text
session_prefix = bytes "ses_"

abbrev pub session_secret_len : ℕ
session_secret_len = 32

-- Fifteen minutes and one hour, in nanoseconds.
abbrev pub session_ttl_default : ℕ
session_ttl_default = 900000000000

abbrev pub session_ttl_max : ℕ
session_ttl_max = 3600000000000

-- hex.DecodeString gives no error: pairs of digits only.
unfoldable pub is_hex_text : Text → Bool
is_hex_text [] = true
is_hex_text (a ∷ []) = false
is_hex_text (a ∷ b ∷ s) = is_hex a && is_hex b && is_hex_text s

unfoldable pub is_session_token : Text → Bool
is_session_token raw =
    let token = trim_space raw in
    let rest = drop (length session_prefix) token in
    has_prefix token session_prefix && nat_beq (length rest) 64 && is_hex_text rest

-- A read of 32 random bytes; an error of the reader is passed on.
unfoldable pub new_session_token : Result Text → Result Text
new_session_token (err e) = err e
new_session_token (ok b) = ok (session_prefix ++ hex_encode b)

abbrev pub live_agent : Error → Principal → Result Principal
live_agent e p = if is_some p.revoked_at then err e else ok p

abbrev pub default_ttl : ℕ → ℕ
default_ttl ttl = if int_lt 0 ttl then ttl else session_ttl_default

abbrev pub session_of : App → Text → Text → ℕ → ℕ → ℕ → Session
session_of a id agent_id ttl max_uses now = record {
  id = id;
  org_id = a.org_id;
  agent_id = agent_id;
  expires_at = time_add now ttl;
  created_at = now;
  revoked_at = none;
  renewed_at = none;
  ttl = ttl / second;
  max_ttl = session_ttl_max / second;
  max_uses = max_uses;
  uses = 0;
}

module _ (a : App) (box : Toolbox) (actor : Principal) where
  -- `secret` and `name` are the reads of random bytes.
  unfoldable pub create_session :
      Text → ℕ → ℕ → Result Text → Result Text → ℕ → Vault (Session × Text)
  create_session agent_id asked max_uses secret name now = do
    owns ← given (owns_vault a actor)
    guard owns forbidden
    guard (not (int_lt session_ttl_max (default_ttl asked))) (other (bytes "app: ttl exceeds 1h"))
    guard (not (int_lt max_uses 0)) (other (bytes "app: max_uses cannot be negative"))
    p ← reads (get_agent agent_id)
    target ← given (live_agent forbidden p)
    token ← given (new_session_token secret)
    id ← given (new_session name)
    calls (
        session_put (session_of a id target.id (default_ttl asked) max_uses now) (box.sha256 token))
    pure (session_of a id target.id (default_ttl asked) max_uses now, token)

  unfoldable pub revoke_own_session : Text → ℕ → Vault Session
  revoke_own_session id now = do
    owns ← given (owns_vault a actor)
    guard owns forbidden
    session_revoke_call id now
    reads (session_by_id id)

  unfoldable pub renew_own_session : Text → ℕ → Vault Session
  renew_own_session id now = do
    owns ← given (owns_vault a actor)
    guard owns forbidden
    session_renew_call id now
