-- ===== src/Grant.antt =====
-- internal/grant/grant.go: whether a principal may use an item.
pub mod Spec
pub mod Evaluation
pub mod Clock
use password_manager.Prelude.{
  ℕ, Bool, true, false, not, ◌&&◌, ◌||◌, Option, none, some, List, [], ◌∷◌, ◌++◌, ltb, ◌==◌,
  is_some, if◌then◌else◌,
}
use password_manager.Prelude.Text.{Text, bytes, is_empty, text_beq}
use password_manager.Bytes.{contains}
use password_manager.Protocol.{
  PrincipalKind, GrantLevel, ActionKind, fetch, env, Decision, Reason, Principal, Item, Grant,
  Approval, UseResult, action_beq, level1, level2, other_level, agent,
}

-- url.URL, the parts that the code reads.
pub record Url : Type 0 where
  pub scheme : Text
  pub host : Text
  pub hostname : Text
  pub port : Text

-- What the packages net/url, strings and publicsuffix give: `url.Parse`, with `none` for an error,
-- `strings.ToLower` and `publicsuffix.EffectiveTLDPlusOne`.
pub record UrlLibrary : Type 0 where
  pub parse_url : Text → Option Url
  pub to_lower : Text → Text
  pub etld_plus_one : Text → Option Text

pub record Input : Type 0 where
  pub principal : Principal
  pub item : Item
  pub grant : Option Grant
  pub action : ActionKind
  pub target_url : Text
  pub approval : Option Approval
  pub now : ℕ

unfoldable pub contains_action : List ActionKind → ActionKind → Bool
contains_action [] want = false
contains_action (a ∷ rest) want = action_beq a want || contains_action rest want

-- Env into a child is Use of a granted item. Fetch on the grant is that Use.
unfoldable pub action_allowed : List ActionKind → ActionKind → Bool
action_allowed actions want =
    contains_action actions want || (action_beq want env && contains_action actions fetch)

abbrev pub deny : Reason → UseResult
deny reason = record { decision = Decision.deny; reason = reason; approval_id = []; fetch = none }

abbrev pub is_agent : PrincipalKind → Bool
is_agent agent = true
is_agent _ = false

-- g.ExpiresAt != nil && !now.Before(*g.ExpiresAt)
abbrev pub has_expired : Option ℕ → ℕ → Bool
has_expired none now = false
has_expired (some t) now = not (ltb now t)

-- the `switch g.Level`
unfoldable pub level_result : GrantLevel → Grant → Option Approval → ℕ → UseResult
level_result level2 g approval now = record {
  decision = Decision.allow;
  reason = Reason.no_reason;
  approval_id = [];
  fetch = none;
}
level_result level1 g none now = record (deny Reason.needs_approval) {
  decision = Decision.need_approval;
}
level_result level1 g (some a) now =
    if not (text_beq a.grant_id g.id)
    then record (deny Reason.needs_approval) { decision = Decision.need_approval }
    else if not (ltb now a.expires_at)
    then record (deny Reason.approval_expired) { decision = Decision.need_approval }
    else record {
      decision = Decision.allow;
      reason = Reason.no_reason;
      approval_id = a.id;
      fetch = none;
    }
level_result (other_level l) g approval now = deny Reason.unknown_level

module _ (lib : UrlLibrary) where
  open lib use {parse_url, to_lower, etld_plus_one}

  -- `none` is errEmptyDest and the errors of url.Parse, which no caller tells apart.
  unfoldable pub parse_dest : Text → Option Url
  parse_dest raw =
      if is_empty raw
      then none
      else (let full = if contains raw (bytes "://") then raw else bytes "https://" ++ raw in
          elim (parse_url full) [ none ↦ none | some u ↦ if is_empty u.host then none else some u ])

  unfoldable pub canonical_host : Url → Text
  canonical_host u =
      let h = to_lower u.hostname in
      let scheme = to_lower u.scheme in
      if is_empty h
      then []
      else if is_empty u.port
          || (text_beq scheme (bytes "https") && text_beq u.port (bytes "443"))
          || (text_beq scheme (bytes "http") && text_beq u.port (bytes "80"))
      then h
      else h ++ bytes ":" ++ u.port

  -- the loop over item.URIs
  unfoldable pub any_uri : Text → List Text → Bool
  any_uri want [] = false
  any_uri want (raw ∷ uris) =
      elim (parse_dest raw) [ none ↦ false | some iu ↦ text_beq (canonical_host iu) want ]
      || any_uri want uris

  -- `none` is the empty string: the host is allowed.
  unfoldable pub host_error : Item → Text → Option Reason
  host_error item raw = if is_empty raw then some Reason.missing_url else elim (parse_dest raw) [
    | none ↦ some Reason.invalid_url
    | some u ↦
        let want = canonical_host u in
        if is_empty want
        then some Reason.invalid_url
        else if any_uri want item.uris
        then none
        else some Reason.host_not_allowed
  ]

  unfoldable pub host_allowed : Item → Text → Bool
  host_allowed item raw = elim (host_error item raw) [ none ↦ true | some r ↦ false ]

  -- eTLD+1 for confirm scope
  unfoldable pub registrable : Text → Text
  registrable raw = elim (parse_dest raw) [
    | none ↦ []
    | some u ↦
        let host = to_lower u.hostname in
        if is_empty host then [] else elim (etld_plus_one host) [
          | none ↦ host
          | some etld ↦ if is_empty etld then host else to_lower etld
        ]
  ]

  -- `if in.Action == ActionFetch { if err := hostAllowed(…) … }`
  unfoldable pub fetch_error : Input → Option Reason
  fetch_error i = if action_beq i.action fetch then host_error i.item i.target_url else none

  -- the checks on a grant that is not nil
  unfoldable pub evaluate_grant : Input → Grant → UseResult
  evaluate_grant i g =
      if not (text_beq g.org_id i.principal.org_id) || not (text_beq g.org_id i.item.org_id)
      then deny Reason.wrong_org
      else if not (text_beq g.agent_id i.principal.id)
      then deny Reason.wrong_agent
      else if not (text_beq g.item_id i.item.id)
      then deny Reason.wrong_item
      else if has_expired g.expires_at i.now
      then deny Reason.grant_expired
      else if not (action_allowed g.actions i.action)
      then deny Reason.action_not_allowed
      else elim (fetch_error i) [
        | some reason ↦ deny reason
        | none ↦ level_result g.level g i.approval i.now
      ]

  unfoldable pub evaluate : Input → UseResult
  evaluate i =
      if not (is_agent i.principal.kind)
      then deny Reason.human_cannot_use
      else if is_some i.principal.revoked_at
      then deny Reason.agent_is_revoked
      else if i.item.archived
      then deny Reason.item_archived
      else elim i.grant [ none ↦ deny Reason.no_grant | some g ↦ evaluate_grant i g ]
