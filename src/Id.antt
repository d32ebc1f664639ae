-- ===== src/Id.antt =====
-- internal/id/id.go: the names of agents, items, grants and sessions.
pub mod Names
use password_manager.Prelude.{
  ℕ, zero, suc, Bool, true, false, ◌&&◌, ◌||◌, List, [], ◌∷◌, ◌++◌, length, take, Result, ok, err,
  other, ltb, leb, nat_beq, if◌then◌else◌,
}
use password_manager.Prelude.Text.{Text, bytes}
use password_manager.Bytes.{trim_space}
use password_manager.Store.{hex_encode}

abbrev pub is_lower : ℕ → Bool
is_lower c = leb b'a' c && leb c b'z'

abbrev pub is_digit : ℕ → Bool
is_digit c = leb b'0' c && leb c b'9'

abbrev pub is_name_byte : ℕ → Bool
is_name_byte c = is_lower c || is_digit c || nat_beq c b'-'

unfoldable pub all_bytes : (ℕ → Bool) → Text → Bool
all_bytes p [] = true
all_bytes p (c ∷ s) = p c && all_bytes p s

-- ^[a-z][a-z0-9-]{1,62}$
unfoldable pub valid : Text → Bool
valid [] = false
valid (c ∷ s) = is_lower c && all_bytes is_name_byte s && leb 1 (length s) && leb (length s) 62

abbrev pub is_hex : ℕ → Bool
is_hex c = is_digit c || (leb b'a' c && leb c b'f') || (leb b'A' c && leb c b'F')

-- `n` digits, and what is left; the rest of the pattern reads it.
unfoldable pub after_hex : ℕ → (Text → Bool) → Text → Bool
after_hex zero k s = k s
after_hex (suc n) k [] = false
after_hex (suc n) k (c ∷ s) = is_hex c && after_hex n k s

unfoldable pub after_dash : (Text → Bool) → Text → Bool
after_dash k [] = false
after_dash k (c ∷ s) = nat_beq c b'-' && k s

abbrev at_end : Text → Bool
at_end [] = true
at_end (c ∷ s) = false

-- ^[0-9a-fA-F]{8}-[0-9a-fA-F]{4}-[0-9a-fA-F]{4}-[0-9a-fA-F]{4}-[0-9a-fA-F]{12}$
unfoldable pub is_uuid : Text → Bool
is_uuid s =
    after_hex 8
      (after_dash (
        after_hex 4
          (after_dash (after_hex 4 (after_dash (after_hex 4 (after_dash (after_hex 12 at_end))))))))
      (trim_space s)

unfoldable pub is_principal : Text → Bool
is_principal s = valid s || is_uuid s

unfoldable pub grant_id : Text → Text → Text
grant_id agent_id item_id = agent_id ++ (b':' ∷ item_id)

-- A read of eight random bytes under a letter; an error of the reader is passed on.
unfoldable pub new_id : Text → ℕ → Result Text → Result Text
new_id what letter (err e) = err e
new_id what letter (ok b) =
    let s = letter ∷ hex_encode b in if valid s then ok s else err (other what)

abbrev pub new_item : Result Text → Result Text
new_item = new_id (bytes "id: generated invalid item id") b'i'

abbrev pub new_session : Result Text → Result Text
new_session = new_id (bytes "id: generated invalid session id") b's'
