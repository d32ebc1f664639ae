-- ===== src/Store/Items.antt =====
-- The items, their sealed secrets and their versions, of internal/store/memory.go.
use password_manager.Prelude.{
  ℕ, Bool, true, ◌&&◌, not, Option, none, some, List, [], ◌∷◌, ◌++◌, ◌==◌, number_keys, is_some,
  Result, ok, err, not_found, if◌then◌else◌, select, find,
}
use password_manager.Prelude.Text.{Text, text_beq, text_keys}
use password_manager.Prelude.Int64.{int_suc}
use password_manager.GoMap.{Map, get, put, delete, keep, values, find_entry}
use password_manager.Protocol.{Item, ItemVersion}
use password_manager.Store.{Memory, Secret, first_results, last_results}

-- The old secret of the item, if there is one, becomes a version.
unfoldable pub save_version : Text → ℕ → Option Secret → Memory → Memory
save_version item_id now none m = m
save_version item_id now (some old) m =
    let id = int_suc m.next_ver in
    record m {
      next_ver = id;
      ver_secret = put id old m.ver_secret;
      versions = m.versions ++ record { id = id; item_id = item_id; time = now } ∷ [];
    }

unfoldable pub put_item : Item → Secret → ℕ → Memory → Memory
put_item item secret now m =
    let m' = save_version item.id now (get item.id m.secrets) m in
    record m' { items = put item.id item m'.items; secrets = put item.id secret m'.secrets }

unfoldable pub get_item : Text → Memory → Result Item
get_item id m = elim (get id m.items) [ none ↦ err not_found | some item ↦ ok item ]

unfoldable pub item_by_name : Text → Text → Memory → Result Item
item_by_name org_id name m =
    elim (find_entry (λ item. text_beq item.org_id org_id && text_beq item.name name) m.items) [
      | none ↦ err not_found
      | some (k, item) ↦ ok item
    ]

unfoldable pub list_items : Memory → List Item
list_items m = first_results (select (λ item. not item.archived) (values m.items))

unfoldable pub archive_item : Text → Memory → Result (Unit {0}) × Memory
archive_item id m = elim (get id m.items) [
  | none ↦ (err not_found, m)
  | some item ↦ (ok tt, record m { items = put id (record item { archived = true }) m.items })
]

-- the loop that drops the versions of an item, and their secrets
unfoldable pub drop_versions :
    Text → List ItemVersion → Map ℕ Secret → List ItemVersion × Map ℕ Secret
drop_versions id [] secrets = ([], secrets)
drop_versions id (v ∷ vs) secrets =
    let gone = text_beq v.item_id id in
    let (kept, left) = drop_versions id vs (if gone then delete v.id secrets else secrets) in
    (if gone then kept else v ∷ kept, left)

unfoldable pub delete_item : Text → Memory → Result (Unit {0}) × Memory
delete_item id m = elim (get id m.items) [
  | none ↦ (err not_found, m)
  | some item ↦
      let (kept, left) = drop_versions id m.versions m.ver_secret in
      (
        ok tt,
        record m {
          items = delete id m.items;
          secrets = delete id m.secrets;
          grants = keep (λ g. not (text_beq g.item_id id)) m.grants;
          ver_secret = left;
          versions = kept;
        },
      )
]

unfoldable pub get_versions : Text → Memory → List ItemVersion
get_versions item_id m = last_results (select (λ v. text_beq v.item_id item_id) m.versions)

-- the loop that looks for the version among those of the item
unfoldable pub has_version : Text → ℕ → List ItemVersion → Bool
has_version item_id version_id versions =
    is_some (find (λ v. v.id == version_id && text_beq v.item_id item_id) versions)

unfoldable pub restore_version : Text → ℕ → ℕ → Memory → Result (Unit {0}) × Memory
restore_version item_id version_id now m = elim (get item_id m.items) [
  | none ↦ (err not_found, m)
  | some item ↦ elim (get version_id m.ver_secret) [
    | none ↦ (err not_found, m)
    | some sec ↦
        let m' = save_version item_id now (get item_id m.secrets) m in
        if not (has_version item_id version_id m.versions) then (err not_found, m) else (
          ok tt,
          record m' { secrets = put item_id sec m'.secrets; items = put item_id item m'.items },
        )
  ]
]

unfoldable pub get_secret : Text → Memory → Result Secret
get_secret id m = elim (get id m.secrets) [ none ↦ err not_found | some s ↦ ok s ]
