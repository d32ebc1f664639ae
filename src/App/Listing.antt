-- ===== src/App/Listing.antt =====
-- Which items a principal sees: ItemsForAgent, ItemsForPrincipal, Match and mayFillItem of
-- internal/app/app.go.
use password_manager.Prelude.{
  ℕ, Bool, true, false, not, ◌&&◌, ◌||◌, List, [], ◌∷◌, ◌++◌, Result, ok, err, other, is_some,
  select, if◌then◌else◌,
}
use password_manager.Prelude.Text.{Text, bytes, text_beq}
use password_manager.Protocol.{Principal, Item, Grant, ItemKind, card, identity, fillable}
use password_manager.Grant.{has_expired, host_allowed}
use password_manager.Store.{Memory}
use password_manager.Store.Agents.{get_agent}
use password_manager.Store.Items.{get_item, list_items}
use password_manager.Store.Grants.{list_grants}
use password_manager.Broker.{is_not_found}
use password_manager.App.{App, Toolbox, is_human, is_org, owned_by, owns_vault}
use password_manager.App.Query.{Query, ◌>>=◌, ◌>>◌, pure, given, guard}

-- An item whose read fails ends the loop; one that is archived is left out.
unfoldable pub with_item : Result Item → Result (List Item) → Result (List Item)
with_item (err e) rest = err e
with_item (ok item) (err e) = err e
with_item (ok item) (ok items) = if item.archived then ok items else ok (item ∷ items)

-- The loop over the grants: those of the agent that have not expired.
unfoldable pub granted_items : Text → ℕ → List Grant → Query (List Item)
granted_items agent_id now [] m = ok []
granted_items agent_id now (g ∷ grants) m =
    let rest = granted_items agent_id now grants m in
    let read = get_item g.item_id m in
    if not (text_beq g.agent_id agent_id) || has_expired g.expires_at now
    then rest
    else with_item read rest

-- A grantee that is no agent is a member: the store does not know it.
unfoldable pub for_grantee : Result Principal → Query (List Item) → Query (List Item)
for_grantee (err e) q m = if is_not_found e then q m else err e
for_grantee (ok p) q m = if is_some p.revoked_at then ok [] else q m

unfoldable pub items_for_agent : Text → ℕ → Query (List Item)
unfolding for_grantee
items_for_agent agent_id now m =
    for_grantee (get_agent agent_id m) (granted_items agent_id now (list_grants m)) m

unfoldable pub has_item : Text → List Item → Bool
has_item id [] = false
has_item id (i ∷ items) = text_beq i.id id || has_item id items

-- add: an item whose id was seen is left out.
unfoldable pub add_item : List Item → Item → List Item
add_item out i = if has_item i.id out then out else out ++ i ∷ []

unfoldable pub add_items : List Item → List Item → List Item
add_items out [] = out
add_items out (i ∷ items) = add_items (add_item out i) items

-- The person's own items, and those of the organisation for an owner of the vault.
unfoldable pub add_visible : Principal → Bool → List Item → List Item → List Item
add_visible p owns out [] = out
add_visible p owns out (i ∷ items) =
    let next = (if owned_by p i || (owns && is_org i.owner.kind) then add_item out i else out) in
    add_visible p owns next items

unfoldable pub items_for_principal : App → Principal → ℕ → Query (List Item)
unfolding add_visible add_items
items_for_principal a p now = do
  granted ← items_for_agent p.id now
  elim (is_human p.kind) [
    | false ↦ pure granted
    | true ↦ (do
      owns ← given (owns_vault a p)
      λ m. ok (add_items (add_visible p owns [] (list_items m)) granted))
  ]

abbrev pub is_form : ItemKind → Bool
is_form card = true
is_form identity = true
is_form _ = false

abbrev pub no_uris : List Text → Bool
no_uris [] = true
no_uris (u ∷ us) = false

unfoldable pub fills_url : Toolbox → Text → Item → Bool
fills_url box url i =
    if i.archived || not (fillable i.kind)
    then false
    else (is_form i.kind && no_uris i.uris) || host_allowed box.urls i url

unfoldable pub match_url : App → Toolbox → Principal → Text → ℕ → Query (List Item)
unfolding fills_url
match_url a box p url now = do
  guard (is_human p.kind) (other (bytes "app: fill is human"))
  items ← items_for_principal a p now
  pure (select (fills_url box url) items)

unfoldable pub may_fill_item : App → Principal → Text → ℕ → Memory → Bool
may_fill_item a p item_id now m = elim (items_for_principal a p now m) [
  | err e ↦ false
  | ok items ↦ has_item item_id items
]
