-- ===== src/Id/Names.antt =====
-- The grants' ids of internal/id/id.go tell agents and items apart, and random ids are valid.
use mathlib.Core.Path.{subst, subst⁻¹}
use password_manager.Prelude.{
  ℕ, ◌*◌, ◌/◌, ◌%◌, ◌<◌, ◌≡◌, ◌≢◌, refl, Bool, true, false, ◌&&◌, [], ◌∷◌, ◌++◌, length, All, ok,
  leb, arith,
}
use password_manager.Prelude.Text.{Text}
use password_manager.Store.{hex_encode, hex_digit}
use password_manager.Id.{valid, all_bytes, is_name_byte, is_lower, grant_id, new_id, new_item}

abbrev pub NoColon : Text → Type 0
NoColon s = All (λ c. c ≢ b':') s

-- A valid name has no colon.
name_byte-ne-colon : (c : ℕ) → is_name_byte c ≡ true → c ≢ b':'
name_byte-ne-colon c h e = ground arith

lower-ne-colon : (c : ℕ) → is_lower c ≡ true → c ≢ b':'
lower-ne-colon c h e = ground arith

both : (a b : Bool) → (a && b) ≡ true → (a ≡ true) × (b ≡ true)
both true true p = (refl, refl)
both true false p = cc
both false b p = cc

all_bytes-NoColon : (s : Text) → all_bytes is_name_byte s ≡ true → NoColon s
unfolding all_bytes
all_bytes-NoColon [] h = tt
all_bytes-NoColon (c ∷ s) h =
    let (a, b) = both (is_name_byte c) (all_bytes is_name_byte s) h in
    (name_byte-ne-colon c a, all_bytes-NoColon s b)

valid-NoColon : (s : Text) → valid s ≡ true → NoColon s
unfolding valid
valid-NoColon [] h = tt
valid-NoColon (c ∷ s) h =
    let (a, b) =
      both (is_lower c && all_bytes is_name_byte s && leb 1 (length s)) (leb (length s) 62) h in
    let (a', b') = both (is_lower c && all_bytes is_name_byte s) (leb 1 (length s)) a in
    let (first, others) = both (is_lower c) (all_bytes is_name_byte s) a' in
    (lower-ne-colon c first, all_bytes-NoColon s others)

not-NoColon : (a i : Text) → NoColon (a ++ (b':' ∷ i)) → ⊥
not-NoColon [] i h = h.0 refl
not-NoColon (c ∷ a) i h = not-NoColon a i h.1

tails : (c d : ℕ) (s t : Text) → ◌≡◌ {A = Text} (c ∷ s) (d ∷ t) → (c ≡ d) × (s ≡ t)
tails c d s t p = (cc, cc)

-- Grants of valid items have the same id only for the same grantee and the same item, whatever the
-- grantee's id is.
pub grant_id_inj :
    (a b i j : Text)
    → valid i ≡ true
    → valid j ≡ true
    → grant_id a i ≡ grant_id b j
    → (a ≡ b) × (i ≡ j)
unfolding grant_id
grant_id_inj [] [] i j hi hj p = (refl, (tails _ _ i j p).1)
grant_id_inj [] (d ∷ b) i j hi hj p =
    let q = (tails b':' d i (b ++ (b':' ∷ j)) p).1 in
    absurd (not-NoColon b j (subst NoColon q (valid-NoColon i hi)))
grant_id_inj (c ∷ a) [] i j hi hj p =
    let q = (tails c b':' (a ++ (b':' ∷ i)) j p).1 in
    absurd (not-NoColon a i (subst⁻¹ NoColon q (valid-NoColon j hj)))
grant_id_inj (c ∷ a) (d ∷ b) i j hi hj p =
    let (same, rest) = tails c d (a ++ (b':' ∷ i)) (b ++ (b':' ∷ j)) p in
    let (same_agent, same_item) = grant_id_inj a b i j hi hj rest in (cc, same_item)

hex_digit-name_byte : (n : ℕ) → n < 16 → is_name_byte (hex_digit n) ≡ true
unfolding hex_digit
hex_digit-name_byte n h = ground arith

hex_encode-name_bytes :
    (b : Text) → All (λ c. c < 256) b → all_bytes is_name_byte (hex_encode b) ≡ true
unfolding all_bytes hex_encode
hex_encode-name_bytes [] h = refl
hex_encode-name_bytes (c ∷ b) h =
    rw (hex_digit-name_byte (c / 16) (omega (arith, h.0)))
      (rw (hex_digit-name_byte (c % 16) (omega arith)) (hex_encode-name_bytes b h.1))

pub length-hex_encode : (b : Text) → length (hex_encode b) ≡ 2 * length b
unfolding hex_encode
length-hex_encode [] = refl
length-hex_encode (c ∷ b) = omega (arith, length-hex_encode b)

-- Eight random bytes always make a valid item id, so the check after them never fails.
pub new_item_valid :
    (b : Text) → length b ≡ 8 → All (λ c. c < 256) b → new_item (ok b) ≡ ok (b'i' ∷ hex_encode b)
unfolding new_id valid
new_item_valid b n h = rw (hex_encode-name_bytes b h) (ground (arith, length-hex_encode b))
