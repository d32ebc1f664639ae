-- ===== src/Bytes.antt =====
-- The functions of Go's `strings` and `bytes` packages that the code calls, over lists of bytes.
pub mod Plain
use password_manager.Prelude.{
  ℕ, zero, suc, ◌-◌, Bool, true, false, leb, ◌+◌, [], ◌∷◌, ◌++◌, length, ◌&&◌, ◌||◌, nat_beq,
  if◌then◌else◌,
}
use mathlib.Core.List.{reverse}
use password_manager.Prelude.Text.{Text}

-- strings.HasPrefix(s, p)
unfoldable pub has_prefix : Text → Text → Bool
has_prefix s [] = true
has_prefix [] (c ∷ p) = false
has_prefix (d ∷ s) (c ∷ p) = nat_beq d c && has_prefix s p

-- bytes.Contains(s, sub)
unfoldable pub contains : Text → Text → Bool
unfolding has_prefix
contains [] sub = has_prefix [] sub
contains (c ∷ s) sub = has_prefix (c ∷ s) sub || contains s sub

-- bytes.ReplaceAll(s, old, new) for an `old` that is not empty: the matches from the left that do
-- not overlap. The first argument counts the bytes of the last match that are still to be passed.
unfoldable pub replace_from : ℕ → Text → Text → Text → Text
unfolding has_prefix
replace_from skip old new [] = []
replace_from (suc skip) old new (c ∷ s) = replace_from skip old new s
replace_from zero old new (c ∷ s) =
    let hit = has_prefix (c ∷ s) old in
    (if hit then new else c ∷ []) ++ replace_from (if hit then length old - 1 else 0) old new s

unfoldable pub replace_all : Text → Text → Text → Text
unfolding replace_from
replace_all s old new = replace_from 0 old new s

-- The runes of unicode.IsSpace in UTF-8, by their length: U+0085 and U+00A0 in two bytes, and
-- U+1680, U+2000 to U+200A, U+2028, U+2029, U+202F, U+205F and U+3000 in three.
unfoldable pub is_space : ℕ → Bool
is_space a = (leb 9 a && leb a 13) || nat_beq a 32

unfoldable pub two_byte_space : ℕ → ℕ → Bool
two_byte_space a b = nat_beq a 0xc2 && (nat_beq b 0x85 || nat_beq b 0xa0)

unfoldable pub three_byte_space : ℕ → ℕ → ℕ → Bool
three_byte_space a b c =
    (nat_beq a 0xe1 && nat_beq b 0x9a && nat_beq c 0x80)
    || (nat_beq a 0xe2 && nat_beq b 0x80 && (leb 0x80 c && leb c 0x8a))
    || (nat_beq a 0xe2 && nat_beq b 0x80 && (nat_beq c 0xa8 || nat_beq c 0xa9 || nat_beq c 0xaf))
    || (nat_beq a 0xe2 && nat_beq b 0x81 && nat_beq c 0x9f)
    || (nat_beq a 0xe3 && nat_beq b 0x80 && nat_beq c 0x80)

-- The text without the white space that it begins with; the tests read the bytes of a rune in the
-- order of the text, or in the reverse order.
module _ (two : ℕ → ℕ → Bool) (three : ℕ → ℕ → ℕ → Bool) where
  unfoldable pub trim_front : Text → Text
  trim_front [] = []
  trim_front (a ∷ []) = if is_space a then [] else a ∷ []
  trim_front (a ∷ b ∷ []) =
      let rest = trim_front (b ∷ []) in
      if is_space a then rest else if two a b then [] else a ∷ b ∷ []
  trim_front (a ∷ b ∷ c ∷ s) =
      let one_on = trim_front (b ∷ c ∷ s) in
      let two_on = trim_front (c ∷ s) in
      let three_on = trim_front s in
      if is_space a
      then one_on
      else if two a b
      then two_on
      else if three a b c
      then three_on
      else a ∷ b ∷ c ∷ s

-- strings.TrimSpace(s)
unfoldable pub trim_space : Text → Text
trim_space s =
    let front = trim_front two_byte_space three_byte_space s in
    reverse
      (trim_front (λ a b. two_byte_space b a) (λ a b c. three_byte_space c b a) (reverse front))

-- The lower case of an ASCII letter.
unfoldable pub lower : ℕ → ℕ
lower c = if leb b'A' c && leb c b'Z' then c + 32 else c

unfoldable pub upper : ℕ → ℕ
upper c = if leb b'a' c && leb c b'z' then c - 32 else c
