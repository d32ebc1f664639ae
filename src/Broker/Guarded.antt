-- ===== src/Broker/Guarded.antt =====
-- The calls of internal/broker/broker.go in their order: what is released comes after a durable row.
use password_manager.Prelude.{
  ℕ, ◌≡◌, inl, refl, Bool, true, false, not, Option, none, some, List, ◌∷◌, Result, ok, err, Error,
  is_ok, wrap, if◌then◌else◌,
}
use password_manager.Prelude.Text.{Text, bytes}
use password_manager.Protocol.{
  UseRequest, UseResult, Principal, Item, Fetch, Decision, fetch, action_beq, action_beq_iff,
  injects,
}
use password_manager.Store.{UseAuth}
use password_manager.Broker.{
  Libraries, use_call, use_session, use_authorized, recheck_agent, reloaded, after_row,
  after_consume, proceed, proceed_fetch, session_auth, commit, audit_use, audit_event, is_allow,
  fetch_of, is_session_error,
}
use password_manager.Broker.Calls.Invariants.{
  Keeps, Keeps-bind, Keeps-recorded, Keeps-fail, Keeps-pure, Keeps-attempt, Keeps-if, call_rules,
}
use password_manager.Broker.Calls.{
  Environment, World, Act, Effect, audited, ◌>>=◌, next, attempt, recorded, append_audit,
  reload_agent, consume_audited,
}
use password_manager.Broker.Release.{
  releases, IsGuarded, IsRow, IsBehind, is_allow_sound, release-IsBehind,
}

-- A row that may not have been written releases nothing by itself.
IsGuarded-row :
    (req : UseRequest) (e : Effect) (past : List Effect)
    → releases e ≡ false
    → IsGuarded req past
    → IsGuarded req (e ∷ past)
IsGuarded-row req e past sealed g = ((λ p. cc), g)

module _ {env : Environment} {A B : Type 0} (req : UseRequest) (effect : Result A → Effect) where
  -- What goes on once the row is written may release; what goes on without it may not.
  after-IsGuarded :
      (x : Result A) (f : Result A → Act env B)
      → ((x : Result A) → releases (effect x) ≡ false)
      → ((a : A) → IsRow req (effect (ok a)))
      → ((a : A) → Keeps (IsBehind req) (f (ok a)))
      → ((e : Error) → Keeps (IsGuarded req) (f (err e)))
      → (s : env.State) (past : List Effect) → IsGuarded req past
      → IsGuarded req (f x (record { state = s; past = effect x ∷ past })).1.past
  after-IsGuarded (ok a) f sealed row written unwritten s past g =
      ((written a).kept _ (inl (row a), IsGuarded-row req (effect (ok a)) past (sealed (ok a)) g)).1
  after-IsGuarded (err e) f sealed row written unwritten s past g =
      (unwritten e).kept _ (IsGuarded-row req (effect (err e)) past (sealed (err e)) g)

  row-IsGuarded :
      (op : env.State → Result A × env.State) (f : Result A → Act env B)
      → ((x : Result A) → releases (effect x) ≡ false)
      → ((a : A) → IsRow req (effect (ok a)))
      → ((a : A) → Keeps (IsBehind req) (f (ok a)))
      → ((e : Error) → Keeps (IsGuarded req) (f (err e)))
      → Keeps (IsGuarded req) (attempt (recorded effect op) >>= f)
  unfolding ◌>>=◌ next attempt recorded
  row-IsGuarded op f sealed row written unwritten = record {
    kept = λ w. after-IsGuarded (op w.state).0 f sealed row written unwritten (op w.state).1 w.past;
  }

fetch_if_some :
    (b : Bool) (o : Option Fetch) (f : Fetch) → some f ≡ (if b then o else none) → b ≡ true
fetch_if_some true o f p = refl
fetch_if_some false o f p = cc

fetch_of-some : (req : UseRequest) (f : Fetch) → some f ≡ fetch_of req → req.action ≡ fetch
fetch_of-some req f p =
    (action_beq_iff req.action fetch).0 (fetch_if_some (action_beq req.action fetch) req.fetch f p)

module _ (lib : Libraries) (env : Environment) (req : UseRequest) where
  audit_use-IsGuarded :
      (agent : Principal) (dec : UseResult) (now : ℕ)
      → Keeps (IsGuarded req) (audit_use lib env agent req dec now)
  unfolding audit_use append_audit
  audit_use-IsGuarded agent dec now =
      let e = audit_event now agent req dec in
      Keeps-bind _ _
        (Keeps-attempt _ (
          Keeps-recorded _ (env.append_audit e)
            (λ x past. IsGuarded-row req (audited e (is_ok x)) past refl)))
        (λ r. Keeps-pure _)

  reload_agent-IsGuarded : (id : Text) → Keeps (IsGuarded req) (reload_agent env id)
  unfolding reload_agent
  reload_agent-IsGuarded id = search call_rules

  reloaded-IsGuarded :
      (agent : Principal) (dec : UseResult) (r : Result Principal)
      → Keeps (IsGuarded req) (reloaded lib env agent dec r)
  unfolding reloaded
  reloaded-IsGuarded agent dec (ok current) = search call_rules
  reloaded-IsGuarded agent dec (err e) = search call_rules

  recheck_agent-IsGuarded :
      (hash : Option Text) (agent : Principal) (dec : UseResult)
      → Keeps (IsGuarded req) (recheck_agent lib env hash agent dec)
  unfolding recheck_agent
  recheck_agent-IsGuarded (some hash) agent dec = Keeps-pure (agent, dec)
  recheck_agent-IsGuarded none agent dec =
      search (call_rules, reload_agent-IsGuarded, reloaded-IsGuarded)

  commit-IsGuarded :
      (hash : Option Text) (agent : Principal) (item : Item) (f : Fetch) (dec : UseResult) (now : ℕ)
      → dec.decision ≡ Decision.allow
      → req.action ≡ fetch
      → Keeps (IsGuarded req) (commit lib env hash agent req item f dec now)
  unfolding commit append_audit consume_audited audit_event after_row after_consume
  commit-IsGuarded none agent item f dec now allows act =
      row-IsGuarded req _ _ _ (λ x. refl) (λ a. (refl, allows, refl, act))
        (λ done. release-IsBehind lib env req item f dec now)
        (λ e. Keeps-fail (wrap (bytes "audit") e))
  commit-IsGuarded (some hash) agent item f dec now allows act =
      row-IsGuarded req _ _ _ (λ x. refl) (λ a. (refl, allows, refl, act))
        (λ done. release-IsBehind lib env req item f dec now)
        (λ e.
          Keeps-if (is_session_error e) _ _ (λ p. audit_use-IsGuarded agent _ now)
            (λ p. Keeps-fail (wrap (bytes "consume") e)))

  proceed_fetch-IsGuarded :
      (hash : Option Text) (agent : Principal) (item : Item) (f : Option Fetch) (dec : UseResult)
      (now : ℕ)
      → f ≡ fetch_of req
      → dec.decision ≡ Decision.allow
      → Keeps (IsGuarded req) (proceed_fetch lib env hash agent req item f dec now)
  unfolding proceed_fetch
  proceed_fetch-IsGuarded hash agent item none dec now p allows = audit_use-IsGuarded agent _ now
  proceed_fetch-IsGuarded hash agent item (some f) dec now p allows =
      commit-IsGuarded hash agent item f dec now allows (fetch_of-some req f p)

  proceed-IsGuarded :
      (hash : Option Text) (item : Item) (now : ℕ) (x : Principal × UseResult)
      → Keeps (IsGuarded req) (proceed lib env hash req item now x)
  unfolding proceed
  proceed-IsGuarded hash item now (agent, dec) =
      Keeps-if (not (is_allow dec.decision)) _ _ (λ p. audit_use-IsGuarded agent dec now)
        (λ p.
          Keeps-if (not (injects item.kind)) _ _ (λ q. audit_use-IsGuarded agent _ now)
            (λ q.
              proceed_fetch-IsGuarded hash agent item (fetch_of req) dec now refl
                (is_allow_sound dec.decision p)))

  use_authorized-IsGuarded :
      (caller : Principal) (auth : UseAuth) (hash : Option Text) (now : ℕ)
      → Keeps (IsGuarded req) (use_authorized lib env caller req auth hash now)
  unfolding use_authorized
  use_authorized-IsGuarded caller auth hash now =
      search (call_rules, audit_use-IsGuarded, recheck_agent-IsGuarded, proceed-IsGuarded)

  session_auth-IsGuarded : (r : Result UseAuth) → Keeps (IsGuarded req) (session_auth lib env r)
  unfolding session_auth
  session_auth-IsGuarded (ok auth) = search call_rules
  session_auth-IsGuarded (err e) = search call_rules

  use_call-Keeps :
      (full : Bool) (agent : Principal) (now : ℕ)
      → Keeps (IsGuarded req) (use_call lib env full agent req now)
  unfolding use_call
  use_call-Keeps full agent now = search (call_rules, use_authorized-IsGuarded)

  use_session-Keeps :
      (full : Bool) (hash : Text) (now : ℕ)
      → Keeps (IsGuarded req) (use_session lib env full hash req now)
  unfolding use_session
  use_session-Keeps full hash now =
      search (call_rules, session_auth-IsGuarded, use_authorized-IsGuarded)

  -- A call by an agent's own token, from any world whose past is guarded, leaves a guarded past,
  -- whatever the store, the auditor and the upstream answer: each secret that is read, each token
  -- that is refreshed and each request that is sent comes after a written row that allows a fetch of
  -- the item that the caller asked for.
  pub use_call-IsGuarded :
      (full : Bool) (agent : Principal) (now : ℕ) (w : World env)
      → IsGuarded req w.past
      → IsGuarded req (use_call lib env full agent req now w).1.past
  use_call-IsGuarded full agent now = (use_call-Keeps full agent now).kept

  -- A call by a session's token, from any world whose past is guarded, leaves a guarded past, whatever
  -- the store, the auditor and the upstream answer: what is released comes after a row that allows a
  -- fetch of the requested item.
  pub use_session-IsGuarded :
      (full : Bool) (hash : Text) (now : ℕ) (w : World env)
      → IsGuarded req w.past
      → IsGuarded req (use_session lib env full hash req now w).1.past
  use_session-IsGuarded full hash now = (use_session-Keeps full hash now).kept
