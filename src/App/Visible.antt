-- ===== src/App/Visible.antt =====
-- What ItemsForAgent of internal/app/app.go shows.
use password_manager.Prelude.{
  ℕ, ◌≡◌, ◌⊎◌, refl, true, false, not, ◌||◌, List, [], ◌∷◌, All, All-imp, Result, ok, err, is_some,
  arith, inl, inr, Bool-cases,
}
use mathlib.Core.Path.{subst}
use password_manager.Prelude.Text.{Text, text_beq, text_beq_iff}
use password_manager.Protocol.{Item, Grant, Principal}
use password_manager.Grant.{has_expired}
use password_manager.Store.{Memory}
use password_manager.Store.Agents.{get_agent}
use password_manager.Store.Items.{get_item}
use password_manager.Store.Grants.{list_grants}
use password_manager.Broker.{is_not_found}
use password_manager.App.Query.{Query}
use password_manager.App.Listing.{items_for_agent, granted_items, with_item, for_grantee}

items_inj : (xs ys : List Item) → ok xs ≡ ok ys → xs ≡ ys
items_inj xs ys e = cc

module _ (id : Text) (now : ℕ) (m : Memory) where
  -- A grant of the list is that grantee's, has not expired, and is on this item of the store, which
  -- is not archived.
  abbrev pub IsGranted : List Grant → Item → Type 0
  IsGranted [] i = ⊥
  IsGranted (g ∷ grants) i =
      ((g.agent_id ≡ id)
        × (has_expired g.expires_at now ≡ false)
        × (get_item g.item_id m ≡ ok i)
        × (i.archived ≡ false))
      ⊎ IsGranted grants i

  with_item-IsGranted :
      (g : Grant) (grants : List Grant) (read : Result Item) (rest : Result (List Item))
      (items : List Item)
      → get_item g.item_id m ≡ read
      → g.agent_id ≡ id
      → has_expired g.expires_at now ≡ false
      → ((xs : List Item) → rest ≡ ok xs → All (IsGranted (g ∷ grants)) xs)
      → with_item read rest ≡ ok items
      → All (IsGranted (g ∷ grants)) items
  unfolding with_item
  with_item-IsGranted g grants (err e) rest items r own live later e' = cc
  with_item-IsGranted g grants (ok i) (err e) items r own live later e' = cc
  with_item-IsGranted g grants (ok i) (ok xs) items r own live later e =
      elim (Bool-cases i.archived) [
        | inl gone ↦ later items (ground (arith, e))
        | inr there ↦
            subst (All (IsGranted (g ∷ grants))) (items_inj (i ∷ xs) items (ground (arith, e)))
              (inl (own, live, r, there), later xs refl)
      ]

  granted_items-IsGranted :
      (grants : List Grant) (items : List Item)
      → granted_items id now grants m ≡ ok items
      → All (IsGranted grants) items
  unfolding granted_items
  granted_items-IsGranted [] items e = subst (All (IsGranted [])) (items_inj [] items e) tt
  granted_items-IsGranted (g ∷ grants) items e =
      let later : (xs : List Item)
          → granted_items id now grants m ≡ ok xs
          → All (IsGranted (g ∷ grants)) xs =
        λ xs q. All-imp (λ i h. inr h) xs (granted_items-IsGranted grants xs q) in
      elim (Bool-cases (not (text_beq g.agent_id id) || has_expired g.expires_at now)) [
        | inl skipped ↦ later items (ground (arith, e))
        | inr taken ↦
            with_item-IsGranted g grants (get_item g.item_id m) _ items refl
              (ground (arith, text_beq_iff g.agent_id id)) (ground arith) later (ground (arith, e))
      ]

  grantee_items :
      (r : Result Principal) (q : Query (List Item)) (items : List Item)
      → for_grantee r q m ≡ ok items
      → (q m ≡ ok items) ⊎ ([] ≡ items)
  unfolding for_grantee
  grantee_items (err e) q items h = elim (Bool-cases (is_not_found e)) [
    | inl unknown ↦ inl (ground (arith, h))
    | inr other ↦ ground (arith, h)
  ]
  grantee_items (ok p) q items h = elim (Bool-cases (is_some p.revoked_at)) [
    | inl off ↦ inr (items_inj [] items (ground (arith, h)))
    | inr on ↦ inl (ground (arith, h))
  ]

  -- Whatever ItemsForAgent lists, to an agent or to a member, is not archived and stands under a
  -- grant to that grantee that has not expired; a revoked agent is shown nothing.
  pub items_for_agent-IsGranted :
      (items : List Item)
      → items_for_agent id now m ≡ ok items
      → All (IsGranted (list_grants m)) items
        × ((p : Principal) → get_agent id m ≡ ok p → is_some p.revoked_at ≡ true → items ≡ [])
  unfolding items_for_agent for_grantee
  items_for_agent-IsGranted items e = (
    elim (grantee_items (get_agent id m) (granted_items id now (list_grants m)) items e) [
      | inl shown ↦ granted_items-IsGranted (list_grants m) items shown
      | inr nothing ↦ subst (All (IsGranted (list_grants m))) nothing tt
    ],
    λ p found off. ground (arith, e, found, off),
  )
