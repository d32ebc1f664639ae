-- ===== src/Grant/Evaluation.antt =====
-- The grant evaluation of internal/grant/grant.go decides its specification.
use password_manager.Prelude.{
  ℕ, ◌≡◌, ◌≢◌, ◌↔◌, ◌⊎◌, inl, inr, refl, is_some, Bool, true, false, Option, none, some, List, [],
  ◌∷◌, arith, Bool-cases, Option-cases, or_iff,
}
use password_manager.Prelude.Text.{Text, text_beq, text_beq_iff}
use password_manager.Protocol.{
  ActionKind, fetch, env, Item, Grant, Approval, GrantLevel, level1, level2, other_level, Decision,
  action_beq, action_beq_iff,
}
use password_manager.Grant.{
  Input, Url, UrlLibrary, parse_dest, canonical_host, any_uri, host_error, contains_action,
  action_allowed, has_expired, level_result, fetch_error, evaluate_grant, evaluate,
}
use password_manager.Grant.Spec.{
  Any, Permits, IsLive, IsApproved, Names, Reaches, Covers, MayUse, AwaitsApproval,
}

contains_action_iff :
    (actions : List ActionKind) (want : ActionKind)
    → (contains_action actions want ≡ true) ↔ Any (λ a. a ≡ want) actions
unfolding contains_action
contains_action_iff [] want = ((λ h. cc), λ h. absurd h)
contains_action_iff (a ∷ rest) want =
    ground (arith, action_beq_iff a want, contains_action_iff rest want)

pub action_allowed_iff :
    (actions : List ActionKind) (want : ActionKind)
    → (action_allowed actions want ≡ true) ↔ Permits actions want
unfolding action_allowed
action_allowed_iff actions want = ground (
  arith,
  contains_action_iff actions want,
  contains_action_iff actions fetch,
  action_beq_iff want env,
)

module _ (lib : UrlLibrary) where
  abbrev host_is : Text → Option Url → Bool
  host_is want o = elim o [ none ↦ false | some iu ↦ text_beq (canonical_host lib iu) want ]

  host_is_iff : (want raw : Text) → (host_is want (parse_dest lib raw) ≡ true) ↔ Names lib raw want
  host_is_iff want raw = elim (Option-cases (parse_dest lib raw)) [
    | inl bad ↦ ((λ h. cc (h, bad)), λ n. cc (bad, n.1))
    | inr (u, good) ↦
        rw good
          ((λ h. (u, refl, (text_beq_iff _ _).0 h)), λ n. (text_beq_iff _ _).1 (cc (n.1, n.2)))
  ]

  any_uri_iff :
      (want : Text) (uris : List Text)
      → (any_uri lib want uris ≡ true) ↔ Any (λ uri. Names lib uri want) uris
  unfolding any_uri
  any_uri_iff want [] = ((λ h. cc), λ h. absurd h)
  any_uri_iff want (raw ∷ uris) =
      or_iff (host_is want (parse_dest lib raw)) _ (host_is_iff want raw) (any_uri_iff want uris)

  parse_dest-nil : parse_dest lib [] ≡ none
  unfolding parse_dest
  parse_dest-nil = refl

  host_error_iff :
      (item : Item) (raw : Text) → (host_error lib item raw ≡ none) ↔ Reaches lib item raw
  unfolding host_error
  host_error_iff item [] = ((λ h. cc), λ r. cc (r.2.1, parse_dest-nil))
  host_error_iff item (c ∷ raw) = elim (Option-cases (parse_dest lib (c ∷ raw))) [
    | inl bad ↦ rw bad ((λ h. cc), λ r. cc (r.2.1))
    | inr (u, good) ↦ rw good (
      (λ h. (
        canonical_host lib u,
        (λ e. ground (arith, e)),
        (u, refl, refl),
        (any_uri_iff (canonical_host lib u) item.uris).0 (ground arith),
      )),
      λ r.
          let named : canonical_host lib u ≡ r.0 = cc (r.2.1, r.2.2) in
          rw named (ground (arith, r.1, (any_uri_iff r.0 item.uris).1 r.3)),
    )
  ]

  fetch_error_iff :
      (i : Input)
      → (fetch_error lib i ≡ none) ↔ (i.action ≡ fetch → Reaches lib i.item i.target_url)
  unfolding fetch_error
  fetch_error_iff i = elim (Bool-cases (action_beq i.action fetch)) [
    | inl is ↦ rw is (
      (λ h _. (host_error_iff i.item i.target_url).0 h),
      λ k. (host_error_iff i.item i.target_url).1 (k ((action_beq_iff _ _).0 is)),
    )
    | inr isnt ↦ rw isnt ((λ h e. absurd (cc ((action_beq_iff i.action fetch).1 e))), λ k. refl)
  ]

has_expired_iff : (o : Option ℕ) (now : ℕ) → (has_expired o now ≡ false) ↔ IsLive o now
has_expired_iff none now = ground arith
has_expired_iff (some t) now = ground arith

level_allow_iff :
    (l : GrantLevel) (g : Grant) (o : Option Approval) (now : ℕ)
    → ((level_result l g o now).decision ≡ Decision.allow)
      ↔ ((l ≡ level2) ⊎ (l ≡ level1) × IsApproved o g now)
unfolding level_result
level_allow_iff level1 g none now = ground arith
level_allow_iff level1 g (some a) now = ground (arith, text_beq_iff a.grant_id g.id)
level_allow_iff level2 g o now = ground arith
level_allow_iff (other_level l) g o now = ground arith

level_approval_iff :
    (l : GrantLevel) (g : Grant) (o : Option Approval) (now : ℕ)
    → ((level_result l g o now).decision ≡ Decision.need_approval)
      ↔ ((l ≡ level1) × ¬ IsApproved o g now)
unfolding level_result
level_approval_iff level1 g none now = ground arith
level_approval_iff level1 g (some a) now = ground (arith, text_beq_iff a.grant_id g.id)
level_approval_iff level2 g o now = ground arith
level_approval_iff (other_level l) g o now = ground arith

module _ (lib : UrlLibrary) where
  module _ (i : Input) (g : Grant) (granted : i.grant ≡ some g) where
    -- Unless it is denied, the input is covered by its grant.
    not_denied-Covers : (evaluate lib i).decision ≢ Decision.deny → Covers lib i g
    unfolding evaluate evaluate_grant
    not_denied-Covers h = record {
      by_agent = ground arith;
      not_revoked = ground arith;
      not_archived = ground arith;
      org_of_principal = ground (arith, text_beq_iff g.org_id i.principal.org_id);
      org_of_item = ground (arith, text_beq_iff g.org_id i.item.org_id);
      to_principal = ground (arith, text_beq_iff g.agent_id i.principal.id);
      on_item = ground (arith, text_beq_iff g.item_id i.item.id);
      live = (has_expired_iff g.expires_at i.now).0 (ground arith);
      permitted = (action_allowed_iff g.actions i.action).0 (ground arith);
      reached = (fetch_error_iff lib i).0 (ground arith);
    }

    -- An input that its grant covers is decided by the level of the grant.
    pub Covers-evaluate : Covers lib i g → evaluate lib i ≡ level_result g.level g i.approval i.now
    unfolding evaluate evaluate_grant
    Covers-evaluate c =
        let live = (has_expired_iff g.expires_at i.now).1 c.live in
        let permitted = (action_allowed_iff g.actions i.action).1 c.permitted in
        let reached = (fetch_error_iff lib i).1 c.reached in
        ground (
          arith,
          text_beq_iff g.org_id i.principal.org_id,
          text_beq_iff g.org_id i.item.org_id,
          text_beq_iff g.agent_id i.principal.id,
          text_beq_iff g.item_id i.item.id,
        )

  not_denied-grant :
      (i : Input) → (evaluate lib i).decision ≢ Decision.deny → (g : Grant) × (i.grant ≡ some g)
  unfolding evaluate
  not_denied-grant i h = ground arith

  -- The evaluation answers allow exactly when some grant is handed in and all the facts of the
  -- specification hold of it: an agent that is not revoked, an item that is not archived, matching
  -- organisations, agent and item, a grant that has not expired and permits the action, for a fetch
  -- a URL that reaches a host of the item, and level 2 or a live approval of this grant.
  pub evaluate-allow_iff :
      (i : Input)
      → ((evaluate lib i).decision ≡ Decision.allow)
        ↔ ((g : Grant) × (i.grant ≡ some g) × MayUse lib i g)
  evaluate-allow_iff i = (
    (λ h.
        let (g, granted) = not_denied-grant i (λ d. cc (h, d)) in
        let covers = not_denied-Covers i g granted (λ d. cc (h, d)) in
        let same = Covers-evaluate i g granted covers in
        (g, granted, (covers, (level_allow_iff g.level g i.approval i.now).0 (cc (same, h))))),
    λ r.
        let same = Covers-evaluate i r.0 r.1 r.2.0 in
        rw same ((level_allow_iff r.0.level r.0 i.approval i.now).1 r.2.1),
  )

  -- The evaluation asks for an approval exactly when a level 1 grant covers the input and only the
  -- live approval is missing.
  pub evaluate-need_approval_iff :
      (i : Input)
      → ((evaluate lib i).decision ≡ Decision.need_approval)
        ↔ ((g : Grant) × (i.grant ≡ some g) × AwaitsApproval lib i g)
  evaluate-need_approval_iff i = (
    (λ h.
        let (g, granted) = not_denied-grant i (λ d. cc (h, d)) in
        let covers = not_denied-Covers i g granted (λ d. cc (h, d)) in
        let same = Covers-evaluate i g granted covers in
        let rest = (level_approval_iff g.level g i.approval i.now).0 (cc (same, h)) in
        (g, granted, (covers, rest.0, rest.1))),
    λ r.
        let same = Covers-evaluate i r.0 r.1 r.2.0 in
        rw same ((level_approval_iff r.0.level r.0 i.approval i.now).1 (r.2.1, r.2.2)),
  )

  pub evaluate_revoked :
      (i : Input)
      → is_some i.principal.revoked_at ≡ true
      → (evaluate lib i).decision ≡ Decision.deny
  unfolding evaluate
  evaluate_revoked i h = ground arith

  pub evaluate_no_grant : (i : Input) → i.grant ≡ none → (evaluate lib i).decision ≡ Decision.deny
  unfolding evaluate
  evaluate_no_grant i h = ground arith

  pub evaluate_expired :
      (i : Input) (g : Grant)
      → i.grant ≡ some g
      → has_expired g.expires_at i.now ≡ true
      → (evaluate lib i).decision ≡ Decision.deny
  unfolding evaluate evaluate_grant
  evaluate_expired i g h late = ground arith
