-- ===== src/App/Granting.antt =====
-- What GrantUntil, PutItemFor and AttachTOTP of internal/app/app.go demand, and what they write.
use password_manager.Prelude.{
  Bool-cases, sym, ◌∙◌, ap, inl, inr, ◌↔◌, [], ◌∷◌, ℕ, ◌≡◌, refl, Bool, true, false, ◌&&◌, Option,
  some, Result, ok, Error, is_ok, arith,
}
use password_manager.Prelude.Text.{Text, text_keys}
use password_manager.GoMap.{get, put, get-put_self}
use password_manager.Protocol.{Principal, Item, Owner, Grant, GrantLevel, fetch, user}
use password_manager.Id.{valid, is_principal, grant_id}
use password_manager.Store.{Memory}
use password_manager.Store.Agents.{get_agent}
use password_manager.Store.Items.{get_item, put_item, save_version}
use password_manager.Store.Grants.{put_grant}
use password_manager.Store.Steps.{step}
use password_manager.App.{App, Toolbox, is_human, may_write_item, owns_vault}
use password_manager.App.GrantChecks.{
  is_open, MayGrant, may_grant_to-MayGet, get_item-IsOpen, is_named_level_iff,
}
use password_manager.App.Grants.{is_named_level, grant_until, may_grant_to}
use password_manager.App.Items.{
  ItemOpts, opts_of, put_item_opts, put_item_for, attach_totp, item_of, item_id, owner_of,
}
use password_manager.Bytes.{trim_space}
use password_manager.App.Gives.{Gives, Gives-bind, Gives-bind_known, Gives-call_last}
use password_manager.App.Vault.{Vault, next, ◌>>=◌, pure, guard, given, reads, calls}

ok_inj : (x y : Grant) → ok x ≡ ok y → x ≡ y
ok_inj x y h = cc

-- The grant that is asked for: to fetch, and for that time.
abbrev pub asked_grant : App → Text → Text → GrantLevel → Option ℕ → Grant
asked_grant a grantee item_id level expires = record {
  id = grant_id grantee item_id;
  org_id = a.org_id;
  agent_id = grantee;
  item_id = item_id;
  level = level;
  actions = fetch ∷ [];
  expires_at = expires;
}

module _ (a : App) (grantee item_id : Text) (level : GrantLevel) (expires : Option ℕ)
    (m : Memory) where
  abbrev pub granted : Result Grant × Memory
  granted = grant_until a grantee item_id level expires m

  abbrev passes : Bool
  passes =
      is_principal grantee
      && valid item_id
      && is_named_level level
      && is_ok (may_grant_to a grantee (get_agent grantee m))
      && is_open (get_item item_id m)

  passes_iff : (passes ≡ true) ↔ MayGrant a grantee item_id level m
  passes_iff =
      let of_level = is_named_level_iff level in
      let of_grantee = may_grant_to-MayGet a grantee m in
      let of_item = get_item-IsOpen item_id m in
      (
        (λ h. (
          ground (arith, h),
          ground (arith, h),
          of_level.0 (ground (arith, h)),
          of_grantee.0 (ground (arith, h)),
          of_item.0 (ground (arith, h)),
        )),
        (λ h. rw (h.0, h.1, of_level.1 h.2, of_grantee.1 h.3, of_item.1 h.4) refl),
      )

  made :
      passes ≡ true
      → granted ≡ (
        ok (asked_grant a grantee item_id level expires),
        put_grant (asked_grant a grantee item_id level expires) m,
      )
  unfolding grant_until ◌>>=◌ next guard given reads calls pure step
  made h = ground (arith, h)

  not_made : passes ≡ false → (is_ok granted.0 ≡ false) × (granted.1 ≡ m)
  unfolding grant_until ◌>>=◌ next guard given reads calls pure step
  not_made h = ground (arith, h)

  -- GrantUntil makes a grant exactly where the grantee's and the item's names are well formed, the level
  -- is one of the two, the grantee is an agent of the store that is not revoked and that nobody or the
  -- vault's owner owns, or no agent and a member, and the store has the item, not archived. The grant is
  -- then the one asked for, to fetch only, and what it returns is what the store is given and the only
  -- change; a failure changes nothing.
  pub grant_until_iff :
      ((is_ok granted.0 ≡ true) ↔ MayGrant a grantee item_id level m)
      × ((g : Grant)
          → granted.0 ≡ ok g
          → (g ≡ asked_grant a grantee item_id level expires) × (granted.1 ≡ put_grant g m))
      × (is_ok granted.0 ≡ false → granted.1 ≡ m)
  grant_until_iff = elim (Bool-cases passes) [
    | inl passed ↦ (
      ((λ h. passes_iff.0 passed), (λ h. rw (made passed) refl)),
      (λ g h.
          let same = ok_inj g _ (sym h ∙ ap (λ (x : Result Grant × Memory). x.0) (made passed)) in
          (same, rw same (ap (λ (x : Result Grant × Memory). x.1) (made passed)))),
      (λ h. ground (arith, h, ap (λ (x : Result Grant × Memory). is_ok x.0) (made passed))),
    )
    | inr failed ↦ (
      ((λ h. ground (arith, h, not_made failed)), (λ h. ground (arith, passes_iff.1 h, failed))),
      (λ g h. ground (arith, h, not_made failed)),
      (λ h. (not_made failed).1),
    )
  ]

-- A seed is attached only by a person who may write the item, to an item that had none.
pub attach_totp_may_write :
    (a : App) (box : Toolbox) (p : Principal) (id seed : Text) (now : ℕ) (m : Memory) (i : Item)
    → get_item id m ≡ ok i
    → (attach_totp a box p id seed now m).0 ≡ ok tt
    → (is_human p.kind ≡ true) × (may_write_item a p i ≡ ok true) × (i.has_totp ≡ false)
unfolding attach_totp ◌>>=◌ next guard given reads calls pure
attach_totp_may_write a box p id seed now m i found done = ground arith

found_item : (id : Text) (i : Item) (m : Memory) → get id m.items ≡ some i → get_item id m ≡ ok i
unfolding get_item
found_item id i m h = rw (h, get_item) refl

get_item-put_item :
    (i : Item) (secret : Text) (now : ℕ) (m : Memory)
    → get_item i.id (put_item i secret now m) ≡ ok i
get_item-put_item i secret now m =
    found_item i.id i _
      (unfold put_item in get-put_self i.id i (save_version i.id now (get i.id m.secrets) m).items)

module _ (a : App) (box : Toolbox) where
  -- The item is found under its id as it is returned, with that owner.
  abbrev pub IsPut : Owner → Item → Memory → Type 0
  IsPut owner i m = (get_item i.id m ≡ ok i) × (i.owner ≡ owner)

  put_item_opts-Gives :
      (o : ItemOpts) (random : Result Text) (now : ℕ)
      → Gives (IsPut (owner_of a o.owner.kind o.owner)) (put_item_opts a box o random now)
  unfolding put_item_opts step item_of
  put_item_opts-Gives o random now = Gives-bind _ _ λ u. Gives-bind _ _ λ id. Gives-bind _ _ λ v.
      Gives-bind _ _ λ blob. Gives-bind _ _ λ sealed.
        Gives-call_last _ _
          (λ m. (get_item-put_item (item_of a id (trim_space o.name) o) sealed now m, refl))

  Gives-given : {A : Type 0} (r : Result A) → Gives (λ x m. r ≡ ok x) (given r)
  unfolding given
  Gives-given r = record { given_by = λ m x e. e }

  Gives-guard : (test : Bool) (e : Error) → Gives (λ x m. test ≡ true) (guard test e)
  unfolding guard
  Gives-guard true e = record { given_by = λ m x p. refl }
  Gives-guard false e = record { given_by = λ m x p. cc }

  -- What a person who does not own the vault adds is that person's own and stands under its id,
  -- whatever item, and whoever's, stood there before; only a human may add one.
  abbrev pub IsOwnPut : Principal → Item → Memory → Type 0
  IsOwnPut p i m =
      (is_human p.kind ≡ true)
      × (get_item i.id m ≡ ok i)
      × (owns_vault a p ≡ ok false → i.owner ≡ record { kind = user; id = p.id })

  own_put :
      (p : Principal) (o : ItemOpts) (owns : Bool) (i : Item) (m : Memory)
      → is_human p.kind ≡ true
      → owns_vault a p ≡ ok owns
      → IsPut (owner_of a (opts_of a box p owns o).owner.kind (opts_of a box p owns o).owner) i m
      → IsOwnPut p i m
  unfolding owner_of
  own_put p o true i m human owns put = (human, put.0, λ e. cc)
  own_put p o false i m human owns put = (human, put.0, λ e. put.1)

  Gives-imp :
      {A : Type 0} (Q R : A → Memory → Type 0) (v : Vault A)
      → ((x : A) (m : Memory) → Q x m → R x m)
      → Gives Q v
      → Gives R v
  Gives-imp Q R v h g = record { given_by = λ m x e. h x _ (g.given_by m x e) }

  pub put_item_for_own :
      (p : Principal) (o : ItemOpts) (random : Result Text) (now : ℕ) (m : Memory) (i : Item)
      → (put_item_for a box p o random now m).0 ≡ ok i
      → IsOwnPut p i (put_item_for a box p o random now m).1
  unfolding put_item_for
  put_item_for_own p o random now m i done =
      (Gives-bind_known (λ u. is_human p.kind ≡ true) (IsOwnPut p) _ _ (Gives-guard _ _)
          λ u human.
            Gives-bind_known (λ owns. owns_vault a p ≡ ok owns) (IsOwnPut p) _ _ (Gives-given _)
              λ owns owned.
                Gives-imp _ (IsOwnPut p) _ (λ i m h. own_put p o owns i m human owned h)
                  (put_item_opts-Gives (opts_of a box p owns o) random now)).given_by
        m i done
