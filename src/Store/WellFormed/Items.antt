-- ===== src/Store/WellFormed/Items.antt =====
-- The calls of internal/store/memory.go on items and versions keep the invariant.
use password_manager.Prelude.{
  ℕ, ◌≡◌, refl, true, Bool-cases, Option, none, some, List, [], ◌∷◌, arith, number_keys,
  Option-cases, inl, inr,
}
use password_manager.Prelude.Text.{Text, text_beq, text_beq_iff, text_keys}
use password_manager.GoMap.{
  Map, IsMap, get, put, get-put, get-delete, IsMap-put, IsMap-delete, IsMap-keep,
}
use password_manager.Protocol.{Item, ItemVersion}
use password_manager.Store.{Memory}
use password_manager.Store.Items.{
  put_item, save_version, archive_item, delete_item, drop_versions, restore_version, has_version,
}
use password_manager.Store.WellFormed.{IsWellFormed}

pub save_version-IsWellFormed :
    (id : Text) (now : ℕ) (o : Option Text) (m : Memory)
    → IsWellFormed m
    → IsWellFormed (save_version id now o m)
unfolding save_version
save_version-IsWellFormed id now none m h = h
save_version-IsWellFormed id now (some old) m h = search IsMap-put

-- An item and a secret are written under one key.
pub write_item-IsWellFormed :
    (k : Text) (i : Item) (s : Text) (m : Memory)
    → i.id ≡ k
    → IsWellFormed m
    → IsWellFormed (record m { items = put k i m.items; secrets = put k s m.secrets })
write_item-IsWellFormed k i s m e h = record {
  agents_once = h.agents_once;
  humans_once = h.humans_once;
  items_once = IsMap-put k i m.items h.items_once;
  secrets_once = IsMap-put k s m.secrets h.secrets_once;
  grants_once = h.grants_once;
  approvals_once = h.approvals_once;
  workloads_once = h.workloads_once;
  sessions_once = h.sessions_once;
  ver_secrets_once = h.ver_secrets_once;
  item_keyed = λ j i'. ground (arith, get-put k j i m.items, text_beq_iff k j, h.item_keyed j i');
  sealed = λ j. ground (arith, get-put k j i m.items, get-put k j s m.secrets, h.sealed j);
}

pub put_item-IsWellFormed :
    (i : Item) (s : Text) (now : ℕ) (m : Memory)
    → IsWellFormed m
    → IsWellFormed (put_item i s now m)
unfolding put_item
put_item-IsWellFormed i s now m h =
    write_item-IsWellFormed i.id i s (save_version i.id now (get i.id m.secrets) m) refl
      (save_version-IsWellFormed i.id now (get i.id m.secrets) m h)

pub restore_version-IsWellFormed :
    (id : Text) (version now : ℕ) (m : Memory)
    → IsWellFormed m
    → IsWellFormed (restore_version id version now m).1
unfolding restore_version
restore_version-IsWellFormed id version now m h =
    let m' = save_version id now (get id m.secrets) m in
    elim (Option-cases (get id m.items)) [
      | inl missing ↦ rw (missing, restore_version) h
      | inr (item, found) ↦
          rw (found, restore_version)
            (elim (Option-cases (get version m.ver_secret)) [
              | inl gone ↦ rw gone h
              | inr (sec, there) ↦ rw there (elim (Bool-cases (has_version id version m.versions)) [
                | inl listed ↦ rw listed (
                    write_item-IsWellFormed id item sec m' (h.item_keyed id item found)
                      (save_version-IsWellFormed id now (get id m.secrets) m h))
                | inr other ↦ rw other h
              ])
            ])
    ]

pub archive_item-IsWellFormed :
    (id : Text) (m : Memory) → IsWellFormed m → IsWellFormed (archive_item id m).1
unfolding archive_item
archive_item-IsWellFormed id m h = elim (Option-cases (get id m.items)) [
  | inl missing ↦ rw (missing, archive_item) h
  | inr (i, found) ↦
      let i' = record i { archived = true } in
      rw (found, archive_item)
        (record {
          agents_once = h.agents_once;
          humans_once = h.humans_once;
          items_once = IsMap-put id i' m.items h.items_once;
          secrets_once = h.secrets_once;
          grants_once = h.grants_once;
          approvals_once = h.approvals_once;
          workloads_once = h.workloads_once;
          sessions_once = h.sessions_once;
          ver_secrets_once = h.ver_secrets_once;
          item_keyed = λ j k. ground (
            arith,
            get-put id j i' m.items,
            text_beq_iff id j,
            h.item_keyed j k,
            h.item_keyed id i found,
          );
          sealed = λ j.
              ground
                (arith, get-put id j i' m.items, text_beq_iff id j, h.sealed j, h.sealed id, found);
        })
]

IsMap-drop_versions :
    (id : Text) (vs : List ItemVersion) (secrets : Map ℕ Text)
    → IsMap secrets
    → IsMap (drop_versions id vs secrets).1
unfolding drop_versions
IsMap-drop_versions id [] secrets h = h
IsMap-drop_versions id (v ∷ vs) secrets h = elim (Bool-cases (text_beq v.item_id id)) [
  | inl gone ↦ rw gone (IsMap-drop_versions id vs _ (IsMap-delete v.id secrets h))
  | inr stays ↦ rw stays (IsMap-drop_versions id vs secrets h)
]

pub delete_item-IsWellFormed :
    (id : Text) (m : Memory) → IsWellFormed m → IsWellFormed (delete_item id m).1
unfolding delete_item
delete_item-IsWellFormed id m h = elim (Option-cases (get id m.items)) [
  | inl missing ↦ rw (missing, delete_item) h
  | inr (i, found) ↦
      rw (found, delete_item)
        (record {
          agents_once = h.agents_once;
          humans_once = h.humans_once;
          items_once = IsMap-delete id m.items h.items_once;
          secrets_once = IsMap-delete id m.secrets h.secrets_once;
          grants_once = IsMap-keep _ m.grants h.grants_once;
          approvals_once = h.approvals_once;
          workloads_once = h.workloads_once;
          sessions_once = h.sessions_once;
          ver_secrets_once = IsMap-drop_versions id m.versions m.ver_secret h.ver_secrets_once;
          item_keyed = λ j k. ground (arith, get-delete id j m.items, h.item_keyed j k);
          sealed =
              λ j. ground (arith, get-delete id j m.items, get-delete id j m.secrets, h.sealed j);
        })
]
