-- ===== src/App/GrantChecks.antt =====
-- The guards of GrantUntil in internal/app/app.go and what they demand, written out.
use mathlib.Core.Path.{subst}
use password_manager.Prelude.{
  ◌⊎◌, not_found, sym, ◌∙◌, ap, inl, inr, ◌↔◌, none, Option-cases, is_some, [], ◌∷◌, ℕ, ◌≡◌, refl,
  Bool, true, false, not, ◌&&◌, Option, some, Result, ok, err, Error, is_ok, arith,
}
use password_manager.Prelude.Text.{Text, text_keys, text_beq, text_beq_iff, is_empty}
use password_manager.GoMap.{get}
use password_manager.Protocol.{Principal, Item, GrantLevel, level1, level2, other_level}
use password_manager.Id.{valid, is_principal}
use password_manager.Broker.{is_not_found}
use password_manager.Store.{Memory}
use password_manager.Store.Agents.{get_agent}
use password_manager.Store.Items.{get_item}
use password_manager.App.{App, Members}
use password_manager.App.Grants.{is_named_level, may_grant_to, known_member, asked_member}
use password_manager.App.Items.{item_id}

-- The item was found and is not archived.
abbrev pub is_open : Result Item → Bool
is_open (ok i) = not i.archived
is_open (err e) = false

-- A member of the vault.
abbrev pub IsMember : App → Text → Type 0
IsMember a id = (ms : Members) × (a.members ≡ some ms) × (ms.is_member id ≡ ok true)

-- An agent that is not revoked and that nobody or the vault's owner owns.
abbrev pub IsOwnAgent : App → Principal → Type 0
IsOwnAgent a p = (p.revoked_at ≡ none) × ((p.owner.id ≡ []) ⊎ (p.owner.id ≡ a.human_id))

-- The grantee is such an agent of the store, or else the store has no agent of that id and it is a
-- member's.
abbrev pub MayGet : App → Text → Memory → Type 0
MayGet a grantee m =
    ((p : Principal) × (get grantee m.agents ≡ some p) × IsOwnAgent a p)
    ⊎ ((get grantee m.agents ≡ none) × IsMember a grantee)

-- The store has that item, and it is not archived.
abbrev pub IsOpen : Text → Memory → Type 0
IsOpen id m = (i : Item) × (get id m.items ≡ some i) × (i.archived ≡ false)

abbrev pub MayGrant : App → Text → Text → GrantLevel → Memory → Type 0
MayGrant a grantee item_id level m =
    (is_principal grantee ≡ true)
    × (valid item_id ≡ true)
    × ((level ≡ level1) ⊎ (level ≡ level2))
    × MayGet a grantee m
    × IsOpen item_id m

is_none : (o : Option ℕ) → is_some o ≡ false → o ≡ none
is_none none h = refl
is_none (some x) h = cc

own_or_none :
    (a : App) (id : Text)
    → (not (is_empty id) && not (text_beq id a.human_id) ≡ false) ↔ ((id ≡ []) ⊎ (id ≡ a.human_id))
own_or_none a [] = ((λ h. inl refl), (λ h. refl))
own_or_none a (c ∷ id) = ground (arith, text_beq_iff (c ∷ id) a.human_id)

some_inj : {A : Type 0} (x y : A) → some x ≡ some y → x ≡ y
some_inj x y h = cc

own_agent :
    (a : App) (grantee : Text) (p : Principal)
    → (is_ok (may_grant_to a grantee (ok p)) ≡ true) ↔ IsOwnAgent a p
unfolding may_grant_to
own_agent a grantee p = (
  (λ h.
      (is_none p.revoked_at (ground (arith, h)), (own_or_none a p.owner.id).0 (ground (arith, h)))),
  (λ (live, owned). rw live (ground (arith, (own_or_none a p.owner.id).1 owned))),
)

asked_member-ok_iff :
    (e : Error) (r : Result Bool) → (is_ok (asked_member e r) ≡ true) ↔ (r ≡ ok true)
asked_member-ok_iff e (err failure) = ((λ h. cc), (λ h. cc))
asked_member-ok_iff e (ok false) = ((λ h. cc), (λ h. cc))
asked_member-ok_iff e (ok true) = ((λ h. refl), (λ h. refl))

known_member-IsMember :
    (a : App) (id : Text) (e : Error) → (is_ok (known_member e a.members id) ≡ true) ↔ IsMember a id
known_member-IsMember a id e = elim (Option-cases a.members) [
  | inl alone ↦ rw alone ((λ h. cc), (λ (ms, known, asked). cc))
  | inr (ms, known) ↦ rw known (
    (λ h. (ms, refl, (asked_member-ok_iff e (ms.is_member id)).0 h)),
    (λ (ns, named, asked).
        (asked_member-ok_iff e (ms.is_member id)).1
          (ap (λ (x : Members). x.is_member id) (some_inj ms ns named) ∙ asked)),
  )
]

unknown_agent :
    (a : App) (grantee : Text)
    → (is_ok (may_grant_to a grantee (err not_found)) ≡ true) ↔ IsMember a grantee
unfolding may_grant_to is_not_found
unknown_agent a grantee = known_member-IsMember a grantee _

agent_missing : (id : Text) (m : Memory) → get id m.agents ≡ none → get_agent id m ≡ err not_found
unfolding get_agent
agent_missing id m h = rw (h, get_agent) refl

agent_found :
    (id : Text) (p : Principal) (m : Memory) → get id m.agents ≡ some p → get_agent id m ≡ ok p
unfolding get_agent
agent_found id p m h = rw (h, get_agent) refl

pub may_grant_to-MayGet :
    (a : App) (grantee : Text) (m : Memory)
    → (is_ok (may_grant_to a grantee (get_agent grantee m)) ≡ true) ↔ MayGet a grantee m
may_grant_to-MayGet a grantee m = elim (Option-cases (get grantee m.agents)) [
  | inl missing ↦
      rw (agent_missing grantee m missing, missing)
        (
          (λ h. inr (refl, (unknown_agent a grantee).0 h)),
          (λ h. elim h [
            | inl (p, there, own) ↦ cc
            | inr (gone, member) ↦ (unknown_agent a grantee).1 member
          ]),
        )
  | inr (p, found) ↦
      rw (agent_found grantee p m found, found)
        (
          (λ h. inl (p, refl, (own_agent a grantee p).0 h)),
          (λ h. elim h [
            | inl (q, there, own) ↦
                (own_agent a grantee p).1 (subst (IsOwnAgent a) (sym (some_inj p q there)) own)
            | inr (gone, member) ↦ cc
          ]),
        )
]

pub get_item-IsOpen : (id : Text) (m : Memory) → (is_open (get_item id m) ≡ true) ↔ IsOpen id m
unfolding get_item
get_item-IsOpen id m = elim (Option-cases (get id m.items)) [
  | inl missing ↦ rw missing ((λ h. cc), (λ (i, there, live). cc))
  | inr (i, found) ↦ rw found (
    (λ h. (i, refl, ground (arith, h))),
    (λ (j, there, live).
        ground (arith, subst (λ k. k.archived ≡ false) (sym (some_inj i j there)) live)),
  )
]

pub is_named_level_iff :
    (level : GrantLevel) → (is_named_level level ≡ true) ↔ ((level ≡ level1) ⊎ (level ≡ level2))
is_named_level_iff level1 = ((λ h. inl refl), (λ h. refl))
is_named_level_iff level2 = ((λ h. inr refl), (λ h. refl))
is_named_level_iff (other_level n) = ((λ h. cc), (λ h. elim h [ inl q ↦ cc | inr q ↦ cc ]))
