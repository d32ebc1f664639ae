-- ===== src/Store/History.antt =====
-- The versions of a secret in internal/store/memory.go: what a write replaces can be restored.
use password_manager.Prelude.{
  ℕ, ◌≡◌, refl, true, some, List, [], ◌∷◌, ◌++◌, arith, number_keys, nat_beq_iff, ok, find,
}
use password_manager.Prelude.Text.{Text, text_keys, text_beq_refl}
use password_manager.Prelude.Int64.{int_suc}
use password_manager.GoMap.{get, put, get-put_self}
use password_manager.Protocol.{Item, ItemVersion}
use password_manager.Store.{Memory, Secret}
use password_manager.Store.Items.{
  save_version, put_item, get_item, get_secret, has_version, restore_version,
}

-- A version that stands in the list is found.
has_version-append :
    (item : Text) (id now : ℕ) (vs : List ItemVersion)
    → has_version item id (vs ++ record { id = id; item_id = item; time = now } ∷ []) ≡ true
unfolding has_version find
has_version-append item id now [] = ground (arith, text_beq_refl item, nat_beq_iff id id)
has_version-append item id now (v ∷ vs) = ground (arith, has_version-append item id now vs)

get_secret_found :
    (id : Text) (m : Memory) (s : Secret) → (get_secret id m ≡ ok s) → (get id m.secrets ≡ some s)
unfolding get_secret
get_secret_found id m s = ground arith

module _ (i : Item) (new old : Secret) (now : ℕ) (m : Memory) where
  -- The state after a write over the secret `old`.
  abbrev overwritten : Memory
  overwritten = record m {
    items = put i.id i m.items;
    secrets = put i.id new m.secrets;
    next_ver = int_suc m.next_ver;
    ver_secret = put (int_suc m.next_ver) old m.ver_secret;
    versions = m.versions ++ record { id = int_suc m.next_ver; item_id = i.id; time = now } ∷ [];
  }

  put_item_over : get i.id m.secrets ≡ some old → put_item i new now m ≡ overwritten
  unfolding put_item save_version
  put_item_over h = rw (h, put_item)

  restore_overwritten :
      (later : ℕ)
      → restore_version i.id (int_suc m.next_ver) later overwritten ≡ (
        ok tt,
        record (save_version i.id later (some new) overwritten) {
          secrets = put i.id old overwritten.secrets;
          items = put i.id i overwritten.items;
        },
      )
  unfolding restore_version save_version
  restore_overwritten later =
      let found : get i.id overwritten.items ≡ some i = get-put_self i.id i m.items in
      let there : get (int_suc m.next_ver) overwritten.ver_secret ≡ some old =
        get-put_self (int_suc m.next_ver) old m.ver_secret in
      let sealed : get i.id overwritten.secrets ≡ some new = get-put_self i.id new m.secrets in
      rw (found, restore_version)
        (rw there
          (rw sealed (rw (has_version-append i.id (int_suc m.next_ver) now m.versions) refl)))

  -- When a write replaces a secret, the version that it made can be restored: the restore succeeds,
  -- the item has its old secret again and is otherwise as written, and the secret that the restore
  -- replaced is kept in turn, under the next version number.
  pub restore_version-put_item :
      (later : ℕ)
      → get_secret i.id m ≡ ok old
      → let version = int_suc m.next_ver in
        let r = restore_version i.id version later (put_item i new now m) in
        (r.0 ≡ ok tt)
        × (get_secret i.id r.1 ≡ ok old)
        × (get_item i.id r.1 ≡ ok i)
        × (get (int_suc version) r.1.ver_secret ≡ some new)
  unfolding get_secret get_item save_version
  restore_version-put_item later h = rw (put_item_over (get_secret_found i.id m old h)) (
      rw (restore_overwritten later) (
        refl,
        ground (arith, get-put_self i.id old (put i.id new m.secrets)),
        ground (arith, get-put_self i.id i (put i.id i m.items)),
        get-put_self _ new _,
      ))
