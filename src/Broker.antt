-- ===== src/Broker.antt =====
-- internal/broker/broker.go: the only path that sees a secret. A call is an action on the
-- world: the state behind the interfaces that the broker is given, and the calls made on them so far.
-- Traces, spans and log lines are left out: they go nowhere that the code reads.
pub mod Calls
pub mod Release
pub mod Guarded
pub mod Answers
pub mod OnMemory
pub mod Covered
pub mod Clean
pub mod Refusals
pub mod Outcomes
pub mod Moves
pub mod Denied
pub mod Redirects
use mathlib.Core.Bool.{cond}
use password_manager.Prelude.{
  ℕ, zero, suc, ◌+◌, Bool, true, false, not, ◌&&◌, ◌||◌, Option, none, some, List, [], ◌∷◌, ◌++◌,
  Result, ok, err, Error, not_found, denied, session_expired, session_revoked, overloaded,
  unauthorized, wrap, other, is_some, map, if◌then◌else◌,
}
use password_manager.Prelude.Text.{Text, bytes, is_empty}
use password_manager.Protocol.{
  Principal, Item, UseRequest, UseResult, AuditEvent, Fetch, FetchResult, Header, ActionKind,
  Decision, Reason, Approval, PrincipalKind, human, injects, fetch, action_beq,
}
use password_manager.Grant.{UrlLibrary, Input, evaluate, deny}
use password_manager.Store.{UseAuth}
use password_manager.Material.{
  Envelope, Codecs, unpack, scrub_list, header_get, header_set, header_add, apply_material,
  authorization_value,
}
use password_manager.Scrub.{scrub_bytes}
use Calls.{
  Environment, Upstream, World, Act, ◌>>=◌, ◌>>◌, pure, fail, attempt, wrapping, append_audit,
  reload_agent, consume_audited, read_secret, refresh_token, send_request, Response, unrecorded,
}

-- What the broker is built with: the libraries that it calls without effect.
pub record Libraries : Type 0 where
  pub urls : UrlLibrary
  pub codecs : Codecs

-- The rows that are written carry no secret.
unfoldable pub audit_event : ℕ → Principal → UseRequest → UseResult → AuditEvent
audit_event now agent req dec = record {
  time = now;
  org_id = agent.org_id;
  agent_id = agent.id;
  item_id = req.item_id;
  action = req.action;
  decision = dec.decision;
  reason = dec.reason;
  approval_id = dec.approval_id;
}

-- One of the errors that a session's token answers for.
unfoldable pub is_session_error : Error → Bool
is_session_error not_found = true
is_session_error session_expired = true
is_session_error session_revoked = true
is_session_error denied = true
is_session_error (wrap text e) = is_session_error e
is_session_error _ = false

unfoldable pub is_not_found : Error → Bool
is_not_found not_found = true
is_not_found (wrap text e) = is_not_found e
is_not_found _ = false

abbrev pub is_allow : Decision → Bool
is_allow Decision.allow = true
is_allow _ = false

abbrev pub target_of : Option Fetch → Text
target_of none = []
target_of (some f) = f.url

abbrev pub fetch_of : UseRequest → Option Fetch
fetch_of req = if action_beq req.action fetch then req.fetch else none

-- What a call returns where it brings a result: Go returns an error beside it, or nil. A call that
-- brings only an error is an `err` of the action.
pub record Answer : Type 0 where
  pub result : UseResult
  pub failure : Option Error

abbrev pub answer_with : UseResult → Answer
answer_with dec = record { result = dec; failure = none }

module _ (lib : Libraries) (env : Environment) where
  -- The row is written and the answer goes out, also where the write fails.
  unfoldable pub audit_use : Principal → UseRequest → UseResult → ℕ → Act env Answer
  audit_use agent req dec now = do
    attempt (append_audit env (audit_event now agent req dec))
    pure (answer_with dec)

  -- A refresh that brings an empty token is an error.
  unfoldable pub fresh_token : Text → Act env Text
  fresh_token token =
      if is_empty token then fail (other (bytes "material: oauth refresh failed")) else pure token

  -- The access token: the envelope's own, or a fresh one.
  unfoldable pub access_token : Envelope → Act env Text
  access_token e =
      if is_empty e.refresh
      then pure e.token
      else if is_empty e.token_url || is_empty e.client_id
      then fail (other (bytes "material: oauth refresh failed"))
      else refresh_token env e >>= fresh_token

  unfoldable pub add_values : Text → List Text → Header → Header
  add_values key [] h = h
  add_values key (v ∷ vs) h = add_values key vs (header_add lib.codecs key v h)

  -- The loop over the caller's header.
  unfoldable pub copy_header : Header → Header → Header
  unfolding add_values
  copy_header [] h = h
  copy_header ((key, vs) ∷ rest) h = copy_header rest (add_values key vs h)

  unfoldable pub authorize_header : Text → Header → Header
  authorize_header access h =
      if not (is_empty access) && is_empty (header_get lib.codecs h (bytes "Authorization"))
      then header_set lib.codecs (bytes "Authorization") (authorization_value access) h
      else h

  -- The request with what is injected goes out, unless the material could not be applied.
  unfoldable pub send_with :
      Text → Fetch → Text → Result (Header × Text) → Act env (FetchResult × Text × Text)
  send_with method f access (err e) = fail e
  send_with method f access (ok (h, code)) = do
    res ← send_request env (record { method = method; url = f.url; header = h; body = f.body })
    pure (record { status = res.status; header = res.header; body = res.body }, code, access)

  -- The answer of the upstream, with the one-time code and the token that went there.
  unfoldable pub fetch_upstream : Fetch → Envelope → ℕ → Act env (FetchResult × Text × Text)
  unfolding copy_header authorize_header
  fetch_upstream f e now =
      let method = (if is_empty f.method then bytes "GET" else f.method) in
      if not (env.accepts method f.url) then fail (other (bytes "http: bad request")) else (do
        access ← access_token e
        let h = authorize_header access (copy_header f.header [])
        send_with method f access (apply_material lib.codecs h e now))

  unfoldable pub scrub_header : List Text → Header → Header
  scrub_header hide [] = []
  scrub_header hide ((key, vs) ∷ rest) =
      (key, map (λ v. scrub_bytes v hide) vs) ∷ scrub_header hide rest

  -- What was fetched, with all that is sealed cut from it; a fetch that failed is a denial beside the
  -- error.
  unfoldable pub answer_of :
      Text → Envelope → UseResult → Result (FetchResult × Text × Text) → Answer
  unfolding scrub_header
  answer_of secret e dec (err failure) = record {
    result = deny Reason.fetch_failed;
    failure = some failure;
  }
  answer_of secret e dec (ok got) =
      let hide = scrub_list e (secret ∷ got.1 ∷ got.2 ∷ []) in
      let fr : FetchResult = record {
        status = got.0.status;
        header = scrub_header hide got.0.header;
        body = scrub_bytes got.0.body hide;
      } in
      answer_with (record dec { fetch = some fr })

  -- The part of useAuthorized behind the audit row: the secret is read, used and cut from the answer.
  unfoldable pub release : Item → Fetch → UseResult → ℕ → Act env Answer
  unfolding answer_of
  release item f dec now = do
    secret ← wrapping (bytes "secret") (read_secret env item.id)
    let e = unpack lib.codecs secret
    got ← attempt (fetch_upstream f e now)
    pure (answer_of secret e dec got)

  abbrev pub judged : Principal → UseResult → Principal × UseResult
  judged p dec = (p, if is_some p.revoked_at then deny Reason.agent_is_revoked else dec)

  unfoldable pub reloaded :
      Principal → UseResult → Result Principal → Act env (Principal × UseResult)
  reloaded agent dec (ok current) = pure (judged current dec)
  reloaded agent dec (err e) = if is_not_found e then pure (judged agent dec) else fail e

  -- A call by an agent's own token reads the agent again, in case it was revoked meanwhile.
  unfoldable pub recheck_agent :
      Option Text → Principal → UseResult → Act env (Principal × UseResult)
  recheck_agent (some hash) agent dec = pure (agent, dec)
  recheck_agent none agent dec = attempt (reload_agent env agent.id) >>= reloaded agent dec

  unfoldable pub after_row : Item → Fetch → UseResult → ℕ → Result (Unit {0}) → Act env Answer
  after_row item f dec now (ok done) = release item f dec now
  after_row item f dec now (err e) = fail (wrap (bytes "audit") e)

  unfoldable pub after_consume :
      Principal → UseRequest → Item → Fetch → UseResult → ℕ → Result Principal → Act env Answer
  after_consume agent req item f dec now (ok current) = release item f dec now
  after_consume agent req item f dec now (err e) =
      if is_session_error e
      then audit_use agent req (deny Reason.session_is_revoked) now
      else fail (wrap (bytes "consume") e)

  -- The row of an allowed call is written before its secret is read, for a session in the same
  -- transaction as the consumption; a row that cannot be written ends the call.
  unfoldable pub commit :
      Option Text → Principal → UseRequest → Item → Fetch → UseResult → ℕ → Act env Answer
  commit none agent req item f dec now =
      let event = record (audit_event now agent req dec) { reason = Reason.no_reason } in
      attempt (append_audit env event) >>= after_row item f dec now
  commit (some hash) agent req item f dec now =
      let event = record (audit_event now agent req dec) { reason = Reason.no_reason } in
      attempt (consume_audited env hash now event) >>= after_consume agent req item f dec now

  -- Only a fetch is supported.
  unfoldable pub proceed_fetch :
      Option Text → Principal → UseRequest → Item → Option Fetch → UseResult → ℕ → Act env Answer
  proceed_fetch hash agent req item none dec now =
      audit_use agent req (deny Reason.unsupported_action) now
  proceed_fetch hash agent req item (some f) dec now = commit hash agent req item f dec now

  -- The gates between the decision and the audit row.
  unfoldable pub proceed :
      Option Text → UseRequest → Item → ℕ → Principal × UseResult → Act env Answer
  proceed hash req item now (agent, dec) =
      if not (is_allow dec.decision)
      then audit_use agent req dec now
      else if not (injects item.kind)
      then audit_use agent req (deny Reason.not_injectable) now
      else proceed_fetch hash agent req item (fetch_of req) dec now

  unfoldable pub use_authorized :
      Principal → UseRequest → UseAuth → Option Text → ℕ → Act env Answer
  use_authorized caller req auth hash now =
      let agent = (if is_empty auth.agent.id then caller else auth.agent) in
      if is_empty auth.item.id
      then audit_use agent req (deny Reason.item_not_found) now
      else recheck_agent hash agent (
          evaluate lib.urls (record {
            principal = agent;
            item = auth.item;
            grant = auth.grant;
            action = req.action;
            target_url = target_of req.fetch;
            approval = auth.approval;
            now = now;
          }))
        >>= proceed hash req auth.item now

  -- `full`: the semaphore of the calls in flight has no place left.
  unfoldable pub use_call : Bool → Principal → UseRequest → ℕ → Act env Answer
  use_call full agent req now =
      if full
      then fail overloaded
      else unrecorded (env.use_auth agent.id req.item_id now) >>= λ auth.
          use_authorized agent req auth none now

  unfoldable pub session_auth : Result UseAuth → Act env UseAuth
  session_auth (ok auth) = if is_empty auth.agent.id then fail unauthorized else pure auth
  session_auth (err e) =
      if is_session_error e then fail unauthorized else fail (wrap (bytes "useauth") e)

  unfoldable pub use_session : Bool → Text → UseRequest → ℕ → Act env Answer
  use_session full hash req now =
      if full
      then fail overloaded
      else attempt (unrecorded (env.use_auth_session hash req.item_id now))
        >>= session_auth
        >>= λ auth. use_authorized auth.agent req auth (some hash) now
