-- ===== src/App/Grants.antt =====
-- AddGrant, GrantUntil, Approve and ApproveOIDC of internal/app/app.go, and Approve of
-- internal/broker/broker.go.
use password_manager.Prelude.{
  ℕ, Bool, true, false, not, ◌&&◌, Option, none, some, [], ◌∷◌, Result, ok, err, Error, denied,
  agent_revoked, other, is_some, if◌then◌else◌,
}
use password_manager.Prelude.Text.{Text, bytes, text_beq, is_empty}
use password_manager.Prelude.Int64.{time_add}
use password_manager.Protocol.{
  Principal, GrantLevel, level1, level2, other_level, Grant, Approval, fetch,
}
use password_manager.Id.{valid, is_principal, grant_id}
use password_manager.Store.Agents.{get_agent, get_human}
use password_manager.Store.Items.{get_item}
use password_manager.Store.Grants.{get_grant}
use password_manager.Store.Steps.{grant_put, approval_put}
use password_manager.Broker.{is_not_found}
use password_manager.App.{App, Members, is_human}
use password_manager.App.Sessions.{default_ttl}
use password_manager.App.Vault.{Vault, ◌>>=◌, ◌>>◌, pure, given, guard, reads, calls}

abbrev pub is_named_level : GrantLevel → Bool
is_named_level level1 = true
is_named_level level2 = true
is_named_level (other_level l) = false

abbrev pub asked_member : Error → Result Bool → Result (Unit {0})
asked_member e (err failure) = err failure
asked_member e (ok false) = err e
asked_member e (ok true) = ok tt

abbrev pub known_member : Error → Option Members → Text → Result (Unit {0})
known_member e none id = err e
known_member e (some ms) id = asked_member e (ms.is_member id)

-- Who a grant may go to: an agent that is not revoked and whose owner is this person, if it has one,
-- or a member.
unfoldable pub may_grant_to : App → Text → Result Principal → Result (Unit {0})
may_grant_to a grantee (ok p) =
    if is_some p.revoked_at
    then err agent_revoked
    else if not (is_empty p.owner.id) && not (text_beq p.owner.id a.human_id)
    then err (other (bytes "app: not the owner"))
    else ok tt
may_grant_to a grantee (err e) =
    if is_not_found e
    then known_member (other (bytes "app: unknown grantee")) a.members grantee
    else err e

-- The answer of a read as a value: its error does not end the call.
abbrev pub tried : {A : Type 0} → (Vault A) → Vault (Result A)
tried v m = let (r, m') = v m in (ok r, m')

abbrev pub grant_of : App → Text → Text → GrantLevel → Option ℕ → Grant
grant_of a grantee item_id level expires = record {
  id = grant_id grantee item_id;
  org_id = a.org_id;
  agent_id = grantee;
  item_id = item_id;
  level = level;
  actions = fetch ∷ [];
  expires_at = expires;
}

unfoldable pub grant_until : App → Text → Text → GrantLevel → Option ℕ → Vault Grant
grant_until a grantee item_id level expires = do
  guard (is_principal grantee && valid item_id) (other (bytes "app: invalid agent or item"))
  guard (is_named_level level) (other (bytes "app: level must be level1 or level2"))
  found ← tried (reads (get_agent grantee))
  given (may_grant_to a grantee found)
  item ← reads (get_item item_id)
  guard (not item.archived) (other (bytes "app: item archived"))
  calls (grant_put (grant_of a grantee item_id level expires))
  pure (grant_of a grantee item_id level expires)

unfoldable pub add_grant : App → Text → Text → GrantLevel → Vault Grant
add_grant a agent_id item_id level = grant_until a agent_id item_id level none

-- The broker's Approve; `id` is the time as fmt prints it after "appr-", read from the clock before
-- the time that the lease starts.
abbrev pub approval_for : Text → Text → Text → ℕ → Approval
approval_for id grant human_id expires = record {
  id = id;
  grant_id = grant;
  human_id = human_id;
  expires_at = expires;
}

unfoldable pub broker_approve : Principal → Text → ℕ → Text → ℕ → Vault Approval
broker_approve p grant ttl id now = do
  guard (is_human p.kind) denied
  calls (approval_put (approval_for id grant p.id (time_add now ttl)))
  pure (approval_for id grant p.id (time_add now ttl))

unfoldable pub approve : App → Text → ℕ → Text → ℕ → Vault Approval
approve a grant ttl id now = do
  guard (not (is_some a.verifier)) (other (bytes "app: use ApproveOIDC"))
  p ← reads (get_human a.human_id)
  reads (get_grant grant)
  broker_approve p grant (default_ttl ttl) id now

abbrev pub verified : App → Text → Result Principal
verified a raw_token = elim a.verifier [
  | none ↦ err (other (bytes "app: hydra issuer not configured"))
  | some check ↦ check raw_token a.org_id
]

unfoldable pub approve_oidc : App → Text → Text → ℕ → Text → ℕ → Vault Approval
approve_oidc a grant raw_token ttl id now = do
  guard (is_some a.verifier) (other (bytes "app: hydra issuer not configured"))
  guard (is_some a.members) (other (bytes "app: not a member"))
  p ← given (verified a raw_token)
  given (known_member (other (bytes "app: not a member")) a.members p.id)
  reads (get_grant grant)
  broker_approve p grant (default_ttl ttl) id now
