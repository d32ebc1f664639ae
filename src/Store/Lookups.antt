-- ===== src/Store/Lookups.antt =====
-- Reads after writes in internal/store/memory.go.
use password_manager.Prelude.{
  ℕ, ◌/◌, ◌%◌, ◌&&◌, select, ◌<◌, ◌≡◌, ◌≢◌, refl, Bool, true, not, some, List, [], ◌∷◌, arith,
  Option-cases, Bool-cases, inl, inr, ok, err, not_found, All, All-imp, if◌then◌else◌,
}
use password_manager.Prelude.Text.{Text, text_keys, text_beq, text_beq_iff}
use password_manager.GoMap.{Map, get, keep, values, get-put, get-delete}
use password_manager.Protocol.{Grant, ItemVersion}
use password_manager.Store.{
  Memory, grant_key, hex_digit, hex_encode, session_hash_key, last_results,
}
use password_manager.Store.Items.{delete_item, get_item, get_secret, get_versions, drop_versions}
use password_manager.Store.Grants.{put_grant, grant_for}

-- The bytes of a text that holds no NUL.
abbrev pub NoNul : Text → Type 0
NoNul = All (λ b. b ≢ 0)

-- The key of a grant tells its agent and its item apart, where no agent id holds a NUL byte.
pub grant_key_inj :
    (a b i j : Text) → NoNul a → NoNul b → grant_key a i ≡ grant_key b j → (a ≡ b) × (i ≡ j)
unfolding grant_key
grant_key_inj [] [] i j ha hb e = ground arith
grant_key_inj [] (d ∷ b) i j ha hb e = ground arith
grant_key_inj (c ∷ a) [] i j ha hb e = ground arith
grant_key_inj (c ∷ a) (d ∷ b) i j ha hb e = ground (arith, grant_key_inj a b i j)

-- A grant that was put is found for its agent and its item, and the grant of every other pair is
-- the one that was there before, where the agents' ids hold no NUL byte.
pub grant_for-put_grant :
    (g : Grant) (agent item : Text) (m : Memory)
    → NoNul g.agent_id
    → NoNul agent
    → grant_for agent item (put_grant g m) ≡ (
        if text_beq g.agent_id agent && text_beq g.item_id item
        then some g
        else grant_for agent item m)
unfolding grant_for put_grant
grant_for-put_grant g agent item m hg ha = rw get-put (
    ground (
      arith,
      text_beq_iff (grant_key g.agent_id g.item_id) (grant_key agent item),
      text_beq_iff g.agent_id agent,
      text_beq_iff g.item_id item,
      grant_key_inj g.agent_id agent g.item_id item hg ha,
    ))

hex_digit_inj : (a b : ℕ) → a < 16 → b < 16 → hex_digit a ≡ hex_digit b → a ≡ b
unfolding hex_digit
hex_digit_inj a b h k e = ground arith

hex_encode_inj :
    (s t : Text) → All (λ b. b < 256) s → All (λ b. b < 256) t → hex_encode s ≡ hex_encode t → s ≡ t
unfolding hex_encode
hex_encode_inj [] [] h k e = refl
hex_encode_inj [] (b ∷ t) h k e = ground arith
hex_encode_inj (a ∷ s) [] h k e = ground arith
hex_encode_inj (a ∷ s) (b ∷ t) h k e = ground (
  arith,
  hex_digit_inj (a / 16) (b / 16) (omega (arith, h.0)) (omega (arith, k.0)),
  hex_digit_inj (a % 16) (b % 16) (omega arith) (omega arith),
  hex_encode_inj s t h.1 k.1,
)

-- Two hashes, as bytes, have one session key only if they are equal.
pub session_hash_key_inj :
    (s t : Text)
    → All (λ b. b < 256) s
    → All (λ b. b < 256) t
    → session_hash_key s ≡ session_hash_key t
    → s ≡ t
unfolding session_hash_key
session_hash_key_inj s t h k e = hex_encode_inj s t h k e

-- A passing value shows in the values of the filtered map, so none that fails does.
values-keep :
    {V : Type 0} (p : V → Bool) (m : Map Text V) → All (λ v. p v ≡ true) (values (keep p m))
unfolding values keep
values-keep p [] = tt
values-keep p ((k, v) ∷ m) = elim (Bool-cases (p v)) [
  | inl in_it ↦ rw in_it (in_it, values-keep p m)
  | inr out ↦ rw out (values-keep p m)
]

select-drop_versions :
    (id : Text) (vs : List ItemVersion) (secrets : Map ℕ Text)
    → select (λ v. text_beq v.item_id id) (drop_versions id vs secrets).0 ≡ []
unfolding select drop_versions
select-drop_versions id [] secrets = refl
select-drop_versions id (v ∷ vs) secrets = elim (Bool-cases (text_beq v.item_id id)) [
  | inl gone ↦ rw gone (select-drop_versions id vs _)
  | inr stays ↦ rw stays (rw stays (select-drop_versions id vs _))
]

-- After an item is deleted the store has neither it nor its secret nor a version of it, and no grant
-- that it still holds is on that item.
pub delete_item-gone :
    (id : Text) (m : Memory)
    → (delete_item id m).0 ≡ ok tt
    → let m' = (delete_item id m).1 in
      (get_item id m' ≡ err not_found)
      × (get_secret id m' ≡ err not_found)
      × (get_versions id m' ≡ [])
      × All (λ g. g.item_id ≢ id) (values m'.grants)
unfolding delete_item get_item get_secret get_versions
delete_item-gone id m done = elim (Option-cases (get id m.items)) [
  | inl missing ↦ cc (done, missing)
  | inr (i, found) ↦
      rw (found, delete_item)
        (
          ground (arith, get-delete id id m.items, text_beq_iff id id),
          ground (arith, get-delete id id m.secrets, text_beq_iff id id),
          rw (select-drop_versions id m.versions m.ver_secret) (unfold last_results in refl),
          All-imp (λ g h. ground (arith, text_beq_iff g.item_id id)) _
              (values-keep (λ (g : Grant). not (text_beq g.item_id id)) m.grants),
        )
]
