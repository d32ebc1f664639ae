-- ===== src/Passgen/Lengths.antt =====
-- The length of what internal/passgen/passgen.go generates.
use password_manager.Prelude.{
  ℕ, zero, suc, ◌≤◌, ◌≡◌, Bool, true, false, ◌||◌, Option, none, some, List, [], ◌∷◌, map, length,
  length-set, set, Result, ok, err, Error, arith, refl, ap, ◌∙◌, ltb, if◌then◌else◌,
}
use password_manager.Prelude.Text.{Text}
use password_manager.Passgen.Rules.{RuleSpec, parse_rules}
use password_manager.Passgen.Random.{
  Reads, read_bytes, pick_from, from_alphabet, pick_byte, pick_required, and_then, swapped,
  shuffle_from, shuffle, generate, generate_for, from_rules,
}

length-read_bytes : (n : ℕ) (s : Text) → length (read_bytes n s) ≡ n
unfolding read_bytes
length-read_bytes zero s = refl
length-read_bytes (suc n) [] = ap suc (length-read_bytes n [])
length-read_bytes (suc n) (b ∷ s) = ap suc (length-read_bytes n s)

length-map : (f : ℕ → ℕ) (s : Text) → length (map f s) ≡ length s
length-map f [] = refl
length-map f (c ∷ s) = ap suc (length-map f s)

length-swapped : (i j : ℕ) (out : Text) (x y : Option ℕ) → length (swapped i j out x y) ≡ length out
unfolding swapped
length-swapped i j out (some a) (some b) = length-set (set out i b) j a ∙ length-set out i b
length-swapped i j out (some a) none = refl
length-swapped i j out none y = refl

length-shuffle_from : (i : ℕ) (buf out : Text) → length (shuffle_from i buf out) ≡ length out
unfolding shuffle_from
length-shuffle_from zero buf out = refl
length-shuffle_from (suc i) buf out = length-shuffle_from i buf _ ∙ length-swapped (suc i) _ out _ _

abbrev IsLong : ℕ → Text → Type 0
IsLong n out = (length out ≡ n) × (12 ≤ n) × (n ≤ 128)

abbrev HasLength : ℕ → Result Text → Type 0
HasLength n (ok out) = IsLong n out
HasLength n (err e) = Unit

HasLength-if :
    (n : ℕ) (b : Bool) (e : Error) (reads : Reads) (r : Result Text × Reads)
    → (b ≡ false → HasLength n r.0)
    → HasLength n (if b then (err e, reads) else r).0
HasLength-if n true e reads r h = tt
HasLength-if n false e reads r h = h refl

filled_length : (n : ℕ) (alpha s : Text) → length (map (pick_from alpha) (read_bytes n s)) ≡ n
filled_length n alpha s = length-map (pick_from alpha) (read_bytes n s) ∙ length-read_bytes n s

drawn-IsLong :
    (n : ℕ) (alpha s : Text)
    → (ltb n 12 || ltb 128 n) ≡ false
    → IsLong n (map (pick_from alpha) (read_bytes n s))
drawn-IsLong n alpha s p =
    let bounds : (12 ≤ n) × (n ≤ 128) = ground arith in
    (filled_length n alpha s, bounds.0, bounds.1)

from_alphabet-HasLength :
    (n : ℕ) (alpha : Text) (reads : Reads) → HasLength n (from_alphabet n alpha reads).0
unfolding from_alphabet
from_alphabet-HasLength n alpha [] = search HasLength-if
from_alphabet-HasLength n alpha (none ∷ rest) = search HasLength-if
from_alphabet-HasLength n alpha (some s ∷ rest) = search (HasLength-if, drawn-IsLong)

and_then-HasLength :
    {A : Type 0} (n : ℕ) (x : Result A × Reads) (f : A → Reads → Result Text × Reads)
    → ((a : A) (reads : Reads) → x.0 ≡ ok a → HasLength n (f a reads).0)
    → HasLength n (and_then x f).0
unfolding and_then
and_then-HasLength n (err e, reads) f h = tt
and_then-HasLength n (ok a, reads) f h = h a reads refl

pick_required-HasLength :
    (n i : ℕ) (required : List Text) (out : Text) (reads : Reads)
    → IsLong n out
    → HasLength n (pick_required i required out reads).0
unfolding pick_required
pick_required-HasLength n i [] out reads h = h
pick_required-HasLength n i (class ∷ rest) out reads h =
    and_then-HasLength n (pick_byte class reads) _ (λ pick reads' p.
      pick_required-HasLength n (suc i) rest (set out i pick) reads'
        (length-set out i pick ∙ h.0, h.1, h.2))

shuffle-HasLength :
    (n : ℕ) (out : Text) (reads : Reads) → IsLong n out → HasLength n (shuffle out reads).0
unfolding shuffle
shuffle-HasLength n out [] h = tt
shuffle-HasLength n out (none ∷ rest) h = tt
shuffle-HasLength n out (some s ∷ rest) h = (length-shuffle_from _ _ out ∙ h.0, h.1, h.2)

ok_inj : (s t : Text) → ok s ≡ ok t → s ≡ t
ok_inj s t e = cc

HasLength-ok : (n : ℕ) (r : Result Text) (out : Text) → HasLength n r → r ≡ ok out → IsLong n out
HasLength-ok n (ok s) out h e = rw (← ok_inj s out e) h
HasLength-ok n (err x) out h e = cc

generate-HasLength : (spec : RuleSpec) (reads : Reads) → HasLength spec.n (generate spec reads).0
unfolding generate
generate-HasLength spec reads =
    let n = spec.n in
    let drawn = from_alphabet n spec.alpha reads in
    and_then-HasLength n drawn _ (λ out r e.
      let long = HasLength-ok n drawn.0 out (from_alphabet-HasLength n spec.alpha reads) e in
      and_then-HasLength n (pick_required 0 spec.required out r) _ (λ out' r' e'.
        shuffle-HasLength n out' r'
          (HasLength-ok n _ out' (pick_required-HasLength n 0 spec.required out r long) e')))

long_bounds : (n : ℕ) (out : Text) → IsLong n out → (12 ≤ length out) × (length out ≤ 128)
long_bounds n out h = ground arith

length-generate_for :
    (r : Result RuleSpec) (reads : Reads) (out : Text)
    → (generate_for r reads).0 ≡ ok out
    → (12 ≤ length out) × (length out ≤ 128)
unfolding generate_for
length-generate_for (err x) reads out e = cc
length-generate_for (ok spec) reads out e =
    long_bounds spec.n out (HasLength-ok spec.n _ out (generate-HasLength spec reads) e)

-- A password generated by rules, whatever the rules say and the random source gives, has between 12
-- and 128 bytes.
pub length-from_rules :
    (atoi : Text → Option ℕ) (rules : Text) (reads : Reads) (out : Text)
    → (from_rules atoi rules reads).0 ≡ ok out
    → (12 ≤ length out) × (length out ≤ 128)
unfolding from_rules
length-from_rules atoi rules reads out e = length-generate_for (parse_rules atoi rules) reads out e
