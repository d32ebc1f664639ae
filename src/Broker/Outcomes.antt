-- ===== src/Broker/Outcomes.antt =====
-- A call of internal/broker/broker.go either refuses, and its calls release nothing, or goes on to the
-- release of the secret: a condition on answers that holds of both holds of the whole call.
use password_manager.Prelude.{
  ◌≡◌, refl, ℕ, Bool, false, not, Option, none, some, List, ◌∷◌, Result, ok, err, is_ok,
}
use password_manager.Prelude.Text.{Text}
use password_manager.Protocol.{UseRequest, UseResult, Principal, Item, Fetch, Decision, injects}
use password_manager.Store.{UseAuth}
use password_manager.Broker.{
  Libraries, Answer, answer_with, use_call, use_session, use_authorized, recheck_agent, reloaded,
  after_row, after_consume, proceed, proceed_fetch, session_auth, commit, release, audit_use,
  is_allow, fetch_of, is_session_error,
}
use password_manager.Broker.Calls.{
  Environment, Act, Effect, audited, consumed, ◌>>=◌, append_audit, reload_agent, consume_audited,
}
use password_manager.Broker.Calls.Invariants.{
  Keeps, Keeps-recorded, Keeps-bind, Keeps-attempt, Keeps-pure, Keeps-unrecorded, call_rules,
}
use password_manager.Broker.Calls.Results.{
  Yields, Yields-pure, Yields-fail, Yields-if, Yields-bind, Yields-kept,
}
use password_manager.Broker.Release.{releases, is_allow_sound}

module _ (lib : Libraries) (env : Environment) (now : ℕ) (P : List Effect → Type 0)
    (Q : Answer → List Effect → Type 0)
    (quiet : (e : Effect) (past : List Effect) → releases e ≡ false → P past → P (e ∷ past))
    (refused : (dec : UseResult) (past : List Effect) → P past → Q (answer_with dec) past)
    (released : (item : Item) (f : Fetch) (dec : UseResult)
      → dec.decision ≡ Decision.allow
      → Yields P Q (release lib env item f dec now)) where
  append_audit-quiet : (e : _) → Keeps P (append_audit env e)
  unfolding append_audit
  append_audit-quiet e =
      Keeps-recorded _ (env.append_audit e) (λ r past. quiet (audited e (is_ok r)) past refl)

  consume_audited-quiet : (hash : Text) (e : _) → Keeps P (consume_audited env hash now e)
  unfolding consume_audited
  consume_audited-quiet hash e =
      Keeps-recorded _ (env.consume_session_audited hash now e)
        (λ r past. quiet (consumed hash e (is_ok r)) past refl)

  audit_use-Yields :
      (agent : Principal) (req : UseRequest) (dec : UseResult)
      → Yields P Q (audit_use lib env agent req dec now)
  unfolding audit_use
  audit_use-Yields agent req dec =
      Yields-bind (λ r. P) Q _ _
        (Yields-kept _ (Keeps-attempt _ (append_audit-quiet _)) (λ r past h. h))
        (λ r. Yields-pure _ (λ past h. refused dec past h))

  -- A step whose own answer does not matter, then the rest.
  then-Yields :
      {A : Type 0} (m : Act env A) (f : A → Act env Answer)
      → Keeps P m
      → ((a : A) → Yields P Q (f a))
      → Yields P Q (m >>= f)
  then-Yields m f km yf = Yields-bind (λ a. P) Q m f (Yields-kept m km (λ a past h. h)) yf

  after_row-Yields :
      (item : Item) (f : Fetch) (dec : UseResult) (r : Result _)
      → dec.decision ≡ Decision.allow
      → Yields P Q (after_row lib env item f dec now r)
  unfolding after_row
  after_row-Yields item f dec (ok done) allows = released item f dec allows
  after_row-Yields item f dec (err e) allows = Yields-fail _

  after_consume-Yields :
      (agent : Principal) (req : UseRequest) (item : Item) (f : Fetch) (dec : UseResult)
      (r : Result Principal)
      → dec.decision ≡ Decision.allow
      → Yields P Q (after_consume lib env agent req item f dec now r)
  unfolding after_consume
  after_consume-Yields agent req item f dec (ok current) allows = released item f dec allows
  after_consume-Yields agent req item f dec (err e) allows =
      Yields-if (is_session_error e) _ _ (λ p. audit_use-Yields agent req _) (λ p. Yields-fail _)

  commit-Yields :
      (hash : Option Text) (agent : Principal) (req : UseRequest) (item : Item) (f : Fetch)
      (dec : UseResult)
      → dec.decision ≡ Decision.allow
      → Yields P Q (commit lib env hash agent req item f dec now)
  unfolding commit
  commit-Yields none agent req item f dec allows =
      then-Yields _ _ (Keeps-attempt _ (append_audit-quiet _))
        (λ r. after_row-Yields item f dec r allows)
  commit-Yields (some hash) agent req item f dec allows =
      then-Yields _ _ (Keeps-attempt _ (consume_audited-quiet hash _))
        (λ r. after_consume-Yields agent req item f dec r allows)

  proceed_fetch-Yields :
      (hash : Option Text) (agent : Principal) (req : UseRequest) (item : Item) (f : Option Fetch)
      (dec : UseResult)
      → dec.decision ≡ Decision.allow
      → Yields P Q (proceed_fetch lib env hash agent req item f dec now)
  unfolding proceed_fetch
  proceed_fetch-Yields hash agent req item none dec allows = audit_use-Yields agent req _
  proceed_fetch-Yields hash agent req item (some f) dec allows =
      commit-Yields hash agent req item f dec allows

  proceed-Yields :
      (hash : Option Text) (req : UseRequest) (item : Item) (x : Principal × UseResult)
      → Yields P Q (proceed lib env hash req item now x)
  unfolding proceed
  proceed-Yields hash req item (agent, dec) =
      Yields-if (not (is_allow dec.decision)) _ _ (λ p. audit_use-Yields agent req dec)
        (λ p.
          Yields-if (not (injects item.kind)) _ _ (λ q. audit_use-Yields agent req _)
            (λ q.
              proceed_fetch-Yields hash agent req item (fetch_of req) dec
                (is_allow_sound dec.decision p)))

  reload_agent-quiet : (id : Text) → Keeps P (reload_agent env id)
  unfolding reload_agent
  reload_agent-quiet id = search call_rules

  reloaded-quiet :
      (agent : Principal) (dec : UseResult) (r : Result Principal)
      → Keeps P (reloaded lib env agent dec r)
  unfolding reloaded
  reloaded-quiet agent dec (ok current) = search call_rules
  reloaded-quiet agent dec (err e) = search call_rules

  recheck_agent-quiet :
      (hash : Option Text) (agent : Principal) (dec : UseResult)
      → Keeps P (recheck_agent lib env hash agent dec)
  unfolding recheck_agent
  recheck_agent-quiet (some hash) agent dec = Keeps-pure (agent, dec)
  recheck_agent-quiet none agent dec = search (call_rules, reload_agent-quiet, reloaded-quiet)

  use_authorized-Yields :
      (caller : Principal) (req : UseRequest) (auth : UseAuth) (hash : Option Text)
      → Yields P Q (use_authorized lib env caller req auth hash now)
  unfolding use_authorized
  use_authorized-Yields caller req auth hash =
      search (Yields-if, audit_use-Yields, then-Yields, recheck_agent-quiet, proceed-Yields)

  session_auth-quiet : (r : Result UseAuth) → Keeps P (session_auth lib env r)
  unfolding session_auth
  session_auth-quiet (ok auth) = search call_rules
  session_auth-quiet (err e) = search call_rules

  pub use_call-Yields :
      (full : Bool) (agent : Principal) (req : UseRequest)
      → Yields P Q (use_call lib env full agent req now)
  unfolding use_call
  use_call-Yields full agent req =
      Yields-if full _ _ (λ p. Yields-fail _)
        (λ p.
          then-Yields _ _ (Keeps-unrecorded (env.use_auth agent.id req.item_id now))
            (λ auth. use_authorized-Yields agent req auth none))

  pub use_session-Yields :
      (full : Bool) (hash : Text) (req : UseRequest)
      → Yields P Q (use_session lib env full hash req now)
  unfolding use_session
  use_session-Yields full hash req =
      Yields-if full _ _ (λ p. Yields-fail _)
        (λ p.
          then-Yields _ _
            (Keeps-bind _ _
              (Keeps-attempt _ (Keeps-unrecorded (env.use_auth_session hash req.item_id now)))
              session_auth-quiet)
            (λ auth. use_authorized-Yields auth.agent req auth (some hash)))
