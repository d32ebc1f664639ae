-- ===== src/Passgen.antt =====
-- internal/passgen/passgen.go: the classes of bytes of a password, and the texts that name them.
pub mod Rules
pub mod Random
pub mod Lengths
use password_manager.Prelude.{
  ℕ, zero, suc, ◌+◌, ◌-◌, ◌%◌, Bool, true, false, not, ◌&&◌, ◌||◌, Option, none, some, List, [],
  ◌∷◌, ◌++◌, map, length, get_elem?, set, Result, ok, err, Error, other, ltb, leb, nat_beq, arith,
  if◌then◌else◌,
}
use password_manager.Prelude.Text.{Text, bytes, text_beq, is_empty}
use password_manager.Bytes.{trim_space, lower}

abbrev pub alphabet : Text
alphabet = bytes "ABCDEFGHJKLMNPQRSTUVWXYZabcdefghijkmnopqrstuvwxyz23456789"

abbrev pub letters_upper : Text
letters_upper = bytes "ABCDEFGHJKLMNPQRSTUVWXYZ"

abbrev pub letters_lower : Text
letters_lower = bytes "abcdefghijkmnopqrstuvwxyz"

abbrev pub digits : Text
digits = bytes "23456789"

abbrev pub specials : Text
specials = bytes "-~!@#$%^&*_+"

abbrev pub ascii_printable : Text
ascii_printable = letters_upper ++ (letters_lower ++ (digits ++ (specials ++ bytes "=?/;:,.()")))

-- strings.IndexByte(s, c) >= 0
unfoldable pub has_byte : Text → ℕ → Bool
has_byte [] c = false
has_byte (d ∷ s) c = nat_beq d c || has_byte s c

abbrev pub one_of : Text → List Text → Bool
one_of s [] = false
one_of s (t ∷ rest) = text_beq s t || one_of s rest

unfoldable pub class_alphabet : Text → Text
class_alphabet class =
    if one_of class (bytes "upper" ∷ bytes "uppercase" ∷ [])
    then letters_upper
    else if one_of class (bytes "lower" ∷ bytes "lowercase" ∷ [])
    then letters_lower
    else if one_of class (bytes "digit" ∷ bytes "digits" ∷ [])
    then digits
    else if one_of class (bytes "special" ∷ bytes "special-char" ∷ bytes "special-chars" ∷ [])
    then specials
    else if one_of class (bytes "ascii-printable" ∷ [])
    then ascii_printable
    else []

-- The two loops of unionAlphabet: what was not seen yet is written, in order.
unfoldable pub add_unseen : Text → Text → Text
add_unseen out [] = out
add_unseen out (c ∷ s) =
    let next = if has_byte out c then out else out ++ c ∷ [] in add_unseen next s

unfoldable pub union_alphabet : Text → Text → Text
union_alphabet have class =
    let add = class_alphabet class in
    if is_empty add then have else add_unseen (add_unseen [] have) add

unfoldable pub union_all : Text → List Text → Text
union_all alpha [] = alpha
union_all alpha (class ∷ rest) = union_all (union_alphabet alpha class) rest

unfoldable pub intersects : Text → Text → Bool
intersects [] alpha = false
intersects (c ∷ need) alpha = has_byte alpha c || intersects need alpha

-- strings.Cut of a text at its first byte `c`.
unfoldable pub cut_at : ℕ → Text → Option (Text × Text)
cut_at c [] = none
cut_at c (d ∷ s) =
    let rest = cut_at c s in
    if nat_beq d c then some ([], s) else elim rest [ none ↦ none | some (a, b) ↦ some (d ∷ a, b) ]

-- The text in pieces at each byte that passes the test, empty pieces included.
unfoldable pub split_by : (ℕ → Bool) → Text → List Text
split_by p [] = [] ∷ []
split_by p (c ∷ s) =
    let rest = split_by p s in
    if p c then [] ∷ rest else elim rest [ [] ↦ (c ∷ []) ∷ [] | piece ∷ more ↦ (c ∷ piece) ∷ more ]

unfoldable pub drop_while : (ℕ → Bool) → Text → Text
drop_while p [] = []
drop_while p (c ∷ s) = if p c then drop_while p s else c ∷ s

unfoldable pub drop_end : (ℕ → Bool) → Text → Text
drop_end p [] = []
drop_end p (c ∷ s) = let rest = drop_end p s in if p c && is_empty rest then [] else c ∷ rest

abbrev pub is_bracket : ℕ → Bool
is_bracket c = nat_beq c b'[' || nat_beq c b']'

abbrev pub is_separator : ℕ → Bool
is_separator c = nat_beq c b',' || nat_beq c b' '

unfoldable pub clean_classes : List Text → List Text
clean_classes [] = []
clean_classes (p ∷ rest) =
    let name = map lower (trim_space p) in
    let more = clean_classes rest in if is_empty name then more else name ∷ more

unfoldable pub split_classes : Text → List Text
split_classes val =
    clean_classes (split_by is_separator (drop_end is_bracket (drop_while is_bracket val)))
