-- ===== src/Broker/Denied.antt =====
-- A call of internal/broker/broker.go that the grant's evaluation denies lets nothing sealed out,
-- whatever it answers.
use password_manager.Prelude.{
  ℕ, ◌≡◌, refl, false, Option, none, some, List, Result, ok, err, if◌then◌else◌, arith,
}
use password_manager.Prelude.Text.{Text, is_empty}
use password_manager.Protocol.{UseRequest, UseResult, Principal, Decision}
use password_manager.Grant.{UrlLibrary, Input, evaluate, is_agent}
use password_manager.Store.{UseAuth}
use password_manager.Broker.{
  Libraries, use_authorized, recheck_agent, reloaded, judged, proceed, audit_use, is_allow,
  target_of, is_not_found,
}
use password_manager.Broker.Calls.{
  Environment, World, Act, Effect, ◌>>=◌, next, append_audit, reload_agent,
}
use password_manager.Broker.Calls.Invariants.{Keeps, Keeps-recorded, Keeps-if, call_rules}
use password_manager.Broker.Calls.Results.{Yields, Yields-pure, Yields-fail, Yields-if, Yields-bind}
use password_manager.Broker.Refusals.{released}

deny_refuses : (d : Decision) → d ≡ Decision.deny → is_allow d ≡ false
deny_refuses Decision.deny p = refl
deny_refuses Decision.allow p = cc
deny_refuses Decision.need_approval p = cc

pub evaluate_no_agent :
    (lib : UrlLibrary) (i : Input)
    → is_agent i.principal.kind ≡ false
    → (evaluate lib i).decision ≡ Decision.deny
unfolding evaluate
evaluate_no_agent lib i h = ground arith

module _ {env : Environment} {A B : Type 0} {P : List Effect → Type 0} (Q : A → Type 0) where
  next-Keeps :
      (f : A → Act env B) (r : Result A) (w : World env)
      → P w.past
      → ((a : A) → r ≡ ok a → Q a)
      → ((a : A) → Q a → Keeps P (f a))
      → P (next f r w).1.past
  unfolding next
  next-Keeps f (ok a) w h q kf = (kf a (q a refl)).kept w h
  next-Keeps f (err e) w h q kf = h

  -- What goes on may rely on what the answer is known to be.
  bind-Keeps :
      (m : Act env A) (f : A → Act env B)
      → Keeps P m
      → Yields P (λ a past. Q a) m
      → ((a : A) → Q a → Keeps P (f a))
      → Keeps P (m >>= f)
  unfolding ◌>>=◌
  bind-Keeps m f km ym kf = record {
    kept = λ w h. next-Keeps f (m w).0 (m w).1 (km.kept w h) (ym.yielded w h) kf;
  }

-- The caller that is judged: the one that the store knows, if it knows one.
abbrev pub judged_caller : Principal → UseAuth → Principal
judged_caller caller auth = if is_empty auth.agent.id then caller else auth.agent

module _ (lib : Libraries) (env : Environment) (l : List Effect) where
  abbrev Quiet : List Effect → Type 0
  Quiet past = released past ≡ l

  abbrev Refuses : Principal × UseResult → Type 0
  Refuses r = is_allow r.1.decision ≡ false

  append_audit-Quiet : (e : _) → Keeps Quiet (append_audit env e)
  unfolding append_audit
  append_audit-Quiet e = Keeps-recorded _ (env.append_audit e) (λ r past h. h)

  audit_use-Quiet :
      (p : Principal) (req : UseRequest) (dec : UseResult) (now : ℕ)
      → Keeps Quiet (audit_use lib env p req dec now)
  unfolding audit_use
  audit_use-Quiet p req dec now = search (call_rules, append_audit-Quiet)

  judged-Refuses :
      (p : Principal) (dec : UseResult)
      → is_allow dec.decision ≡ false
      → Refuses (judged lib env p dec)
  judged-Refuses p dec h = ground arith

  reload_agent-Quiet : (id : Text) → Keeps Quiet (reload_agent env id)
  unfolding reload_agent
  reload_agent-Quiet id = search call_rules

  reloaded-Quiet :
      (p : Principal) (dec : UseResult) (r : Result Principal)
      → Keeps Quiet (reloaded lib env p dec r)
  unfolding reloaded
  reloaded-Quiet p dec (ok current) = search call_rules
  reloaded-Quiet p dec (err e) = search call_rules

  recheck_agent-Quiet :
      (hash : Option Text) (p : Principal) (dec : UseResult)
      → Keeps Quiet (recheck_agent lib env hash p dec)
  unfolding recheck_agent
  recheck_agent-Quiet (some hash) p dec = search call_rules
  recheck_agent-Quiet none p dec = search (call_rules, reload_agent-Quiet, reloaded-Quiet)

  reloaded-Refuses :
      (p : Principal) (dec : UseResult) (r : Result Principal)
      → is_allow dec.decision ≡ false
      → Yields (λ past. Unit {0}) (λ a past. Refuses a) (reloaded lib env p dec r)
  unfolding reloaded
  reloaded-Refuses p dec (ok current) h = Yields-pure _ (λ past u. judged-Refuses current dec h)
  reloaded-Refuses p dec (err e) h =
      Yields-if (is_not_found e) _ _ (λ q. Yields-pure _ (λ past u. judged-Refuses p dec h))
        (λ q. Yields-fail e)

  recheck_agent-Refuses :
      (hash : Option Text) (p : Principal) (dec : UseResult)
      → is_allow dec.decision ≡ false
      → Yields Quiet (λ a past. Refuses a) (recheck_agent lib env hash p dec)
  unfolding recheck_agent
  recheck_agent-Refuses (some hash) p dec h = Yields-pure _ (λ past u. h)
  recheck_agent-Refuses none p dec h =
      Yields-bind (λ r past. Unit {0}) (λ a past. Refuses a) _ _
        (record { yielded = λ w q a e. tt }) (λ r. reloaded-Refuses p dec r h)

  proceed-Quiet :
      (hash : Option Text) (req : UseRequest) (item : _) (now : ℕ) (r : Principal × UseResult)
      → Refuses r
      → Keeps Quiet (proceed lib env hash req item now r)
  unfolding proceed
  proceed-Quiet hash req item now (p, dec) h = rw h (audit_use-Quiet p req dec now)

  pub use_authorized-Quiet :
      (caller : Principal) (req : UseRequest) (auth : UseAuth) (hash : Option Text) (now : ℕ)
      → (evaluate lib.urls (record {
        principal = judged_caller caller auth;
        item = auth.item;
        grant = auth.grant;
        action = req.action;
        target_url = target_of req.fetch;
        approval = auth.approval;
        now = now;
      })).decision
        ≡ Decision.deny
      → Keeps Quiet (use_authorized lib env caller req auth hash now)
  unfolding use_authorized
  use_authorized-Quiet caller req auth hash now denied =
      Keeps-if (is_empty auth.item.id) _ _ (λ p. audit_use-Quiet _ _ _ _)
        (λ p.
          bind-Keeps Refuses _ _ (recheck_agent-Quiet hash _ _)
            (recheck_agent-Refuses hash _ _ (deny_refuses _ denied))
            (λ r h. proceed-Quiet hash req auth.item now r h))
