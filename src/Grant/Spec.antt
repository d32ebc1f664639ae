-- ===== src/Grant/Spec.antt =====
-- An independent description of who may use an item: the facts that must hold together, with no
-- order of tests. From internal/grant/grant.go it reads only the destination that a URL names.
use password_manager.Prelude.{ℕ, ◌<◌, ◌≡◌, ◌≢◌, ◌⊎◌, false, Option, none, some, List, [], ◌∷◌}
use password_manager.Prelude.Text.{Text}
use password_manager.Protocol.{ActionKind, fetch, env, Item, Grant, Approval, level1, level2, agent}
use password_manager.Grant.{Input, Url, UrlLibrary, parse_dest, canonical_host}

-- `P` holds at some element.
abbrev pub Any {ℓ} : {A : Type ℓ} → (A → Type 0) → List A → Type 0
Any P [] = ⊥
Any P (x ∷ xs) = P x ⊎ Any P xs

-- The grant lists the action, or lists fetch where the action is env.
abbrev pub Permits : List ActionKind → ActionKind → Type 0
Permits actions want = Any (λ a. a ≡ want) actions ⊎ (want ≡ env) × Any (λ a. a ≡ fetch) actions

abbrev pub IsLive : Option ℕ → ℕ → Type 0
IsLive none now = Unit
IsLive (some t) now = now < t

-- A human has approved this grant, and the approval has not run out.
abbrev pub IsApproved : Option Approval → Grant → ℕ → Type 0
IsApproved none g now = ⊥
IsApproved (some a) g now = (a.grant_id ≡ g.id) × (now < a.expires_at)

module _ (lib : UrlLibrary) where
  -- The text names this destination.
  abbrev pub Names : Text → Text → Type 0
  Names raw host = (u : Url) × (parse_dest lib raw ≡ some u) × (canonical_host lib u ≡ host)

  -- The URL names a host, and so does one of the item's URIs.
  abbrev pub Reaches : Item → Text → Type 0
  Reaches item raw =
      (host : Text) × (host ≢ []) × Names raw host × Any (λ uri. Names uri host) item.uris

  -- All that does not depend on the level of the grant.
  pub record Covers (i : Input) (g : Grant) : Type 0 where
    pub by_agent : i.principal.kind ≡ agent
    pub not_revoked : i.principal.revoked_at ≡ none
    pub not_archived : i.item.archived ≡ false
    pub org_of_principal : g.org_id ≡ i.principal.org_id
    pub org_of_item : g.org_id ≡ i.item.org_id
    pub to_principal : g.agent_id ≡ i.principal.id
    pub on_item : g.item_id ≡ i.item.id
    pub live : IsLive g.expires_at i.now
    pub permitted : Permits g.actions i.action
    pub reached : i.action ≡ fetch → Reaches i.item i.target_url

  -- The input may go ahead now.
  abbrev pub MayUse : Input → Grant → Type 0
  MayUse i g =
      Covers i g × ((g.level ≡ level2) ⊎ (g.level ≡ level1) × IsApproved i.approval g i.now)

  -- Only the approval of a human is missing.
  abbrev pub AwaitsApproval : Input → Grant → Type 0
  AwaitsApproval i g = Covers i g × (g.level ≡ level1) × ¬ IsApproved i.approval g i.now
