-- ===== src/Grant/Clock.antt =====
-- How the answer of internal/grant/grant.go changes with the clock and with the action.
use mathlib.Core.Path.{subst}
use password_manager.Prelude.{ℕ, ◌≤◌, ◌≡◌, refl, Option, none, some, [], inl, inr, arith}
use password_manager.Protocol.{Grant, Approval, Decision, fetch, env}
use password_manager.Grant.{Input, UrlLibrary, evaluate}
use password_manager.Grant.Spec.{Permits, IsLive, IsApproved, Covers}
use password_manager.Grant.Evaluation.{evaluate-allow_iff}

IsLive-earlier : (o : Option ℕ) (t now : ℕ) → t ≤ now → IsLive o now → IsLive o t
IsLive-earlier none t now h l = tt
IsLive-earlier (some e) t now h l = omega arith

IsApproved-earlier :
    (o : Option Approval) (g : Grant) (t now : ℕ) → t ≤ now → IsApproved o g now → IsApproved o g t
IsApproved-earlier (some a) g t now h l = (l.0, omega arith)
IsApproved-earlier none g t now h l = l

module _ (lib : UrlLibrary) (i : Input) where
  -- Time alone never grants access: what is allowed now was allowed at every earlier time, all else
  -- being the same.
  pub evaluate-allow_earlier :
      (t : ℕ)
      → t ≤ i.now
      → (evaluate lib i).decision ≡ Decision.allow
      → (evaluate lib (record i { now = t })).decision ≡ Decision.allow
  evaluate-allow_earlier t h allowed =
      let (g, granted, may) = (evaluate-allow_iff lib i).0 allowed in
      let covers : Covers lib (record i { now = t }) g = record {
        by_agent = may.0.by_agent;
        not_revoked = may.0.not_revoked;
        not_archived = may.0.not_archived;
        org_of_principal = may.0.org_of_principal;
        org_of_item = may.0.org_of_item;
        to_principal = may.0.to_principal;
        on_item = may.0.on_item;
        live = IsLive-earlier g.expires_at t i.now h may.0.live;
        permitted = may.0.permitted;
        reached = may.0.reached;
      } in
      (evaluate-allow_iff lib (record i { now = t })).1 (
        g,
        granted,
        (
          covers,
          (elim may.1 [
            | inl two ↦ inl two
            | inr one ↦ inr (one.0, IsApproved-earlier i.approval g t i.now h one.1)
          ]),
        ),
      )

  -- A principal that may fetch may have the item in a child's environment, with no URL.
  pub evaluate-env_of_fetch :
      i.action ≡ fetch
      → (evaluate lib i).decision ≡ Decision.allow
      → (evaluate lib (record i { action = env; target_url = [] })).decision ≡ Decision.allow
  evaluate-env_of_fetch is allowed =
      let (g, granted, may) = (evaluate-allow_iff lib i).0 allowed in
      let i' : Input = record i { action = env; target_url = [] } in
      let covers : Covers lib i' g = record {
        by_agent = may.0.by_agent;
        not_revoked = may.0.not_revoked;
        not_archived = may.0.not_archived;
        org_of_principal = may.0.org_of_principal;
        org_of_item = may.0.org_of_item;
        to_principal = may.0.to_principal;
        on_item = may.0.on_item;
        live = may.0.live;
        permitted =
            let was : Permits g.actions fetch =
              subst (λ a. Permits g.actions a) is may.0.permitted in
            elim was [ inl f ↦ inr (refl, f) | inr e ↦ cc (e.0) ];
        reached = λ e. cc e;
      } in
      (evaluate-allow_iff lib i').1 (g, granted, (covers, may.1))
