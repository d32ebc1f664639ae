-- ===== src/App.antt =====
-- internal/app/app.go and session.go: the facade that the commands and servers call, over the store in
-- memory. What the process is given (the membership service, the verifier of identity tokens, the
-- hash and the JSON library) are parameters; the time, and random bytes, are arguments.
pub mod Query
pub mod Vault
pub mod Listing
pub mod Agents
pub mod Items
pub mod Grants
pub mod Sessions
pub mod SignIn
pub mod Oidc
pub mod ChildEnv
pub mod Fill
pub mod Uses
pub mod Runs
pub mod Service
pub mod Refinement
pub mod Gives
pub mod Revoked
pub mod Released
pub mod GrantChecks
pub mod Granting
pub mod Audits
pub mod EnvRows
pub mod Spares
pub mod Strangers
pub mod Visible
pub mod Filled
pub mod SessionLaws
use password_manager.Prelude.{
  Bool, true, false, Option, none, some, Result, ok, err, if◌then◌else◌, ◌&&◌,
}
use password_manager.Prelude.Text.{Text, text_beq}
use password_manager.Protocol.{
  Principal, PrincipalKind, human, agent, other_principal, Item, Owner, OwnerKind, user, org,
  no_owner, other_owner,
}
use password_manager.Grant.{UrlLibrary}
use password_manager.Material.{Envelope, Codecs}

pub record Members : Type 0 where
  pub is_member : Text → Result Bool
  pub is_owner : Text → Result Bool

pub record App : Type 0 where
  pub org_id : Text
  pub human_id : Text
  pub members : Option Members
  -- the verifier of an identity token, for an organisation
  pub verifier : Option (Text → Text → Result Principal)

pub record Toolbox : Type 0 where
  pub urls : UrlLibrary
  pub codecs : Codecs
  pub marshal : Envelope → Result Text
  pub sha256 : Text → Text
  -- strings.ToUpper
  pub to_upper : Text → Text

abbrev pub is_human : PrincipalKind → Bool
is_human human = true
is_human _ = false

abbrev pub is_user : OwnerKind → Bool
is_user user = true
is_user _ = false

abbrev pub is_org : OwnerKind → Bool
is_org org = true
is_org _ = false

unfoldable pub member_owns : Option Members → Text → Result Bool
member_owns none id = ok false
member_owns (some m) id = m.is_owner id

unfoldable pub owns_vault : App → Principal → Result Bool
unfolding member_owns
owns_vault a p =
    if is_human p.kind
    then (if text_beq p.id a.human_id then ok true else member_owns a.members p.id)
    else ok false

-- The item is the person's own.
abbrev pub owned_by : Principal → Item → Bool
owned_by p item = is_user item.owner.kind && text_beq item.owner.id p.id

abbrev pub or_org_item : Item → Result Bool → Result Bool
or_org_item item (err e) = err e
or_org_item item (ok owns) = ok (owns && is_org item.owner.kind)

unfoldable pub may_write_item : App → Principal → Item → Result Bool
unfolding owns_vault
may_write_item a p item =
    if is_human p.kind
    then (if owned_by p item then ok true else or_org_item item (owns_vault a p))
    else ok false
