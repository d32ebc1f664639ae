-- ===== src/Passgen/Random.antt =====
-- The random part of internal/passgen/passgen.go, on the reads of crypto/rand.
use password_manager.Prelude.{
  ℕ, zero, suc, ◌-◌, ◌%◌, ◌||◌, Option, none, some, List, [], ◌∷◌, map, length, get_elem?, set,
  Result, ok, err, other, ltb, if◌then◌else◌,
}
use password_manager.Prelude.Text.{Text, bytes, is_empty}
use password_manager.Passgen.{alphabet, class_alphabet}
use password_manager.Passgen.Rules.{RuleSpec, parse_rules}

-- The reads of crypto/rand, one byte string for each, `none` for one that fails.
abbrev pub Reads : Type 0
Reads = List (Option Text)

-- A read of n bytes: the first n of what comes, zero where it is short, as in a new buffer.
unfoldable pub read_bytes : ℕ → Text → Text
read_bytes zero s = []
read_bytes (suc n) [] = 0 ∷ read_bytes n []
read_bytes (suc n) (b ∷ s) = b ∷ read_bytes n s

abbrev pub byte_at : ℕ → Text → ℕ
byte_at i s = elim (get_elem? s i) [ none ↦ 0 | some b ↦ b ]

abbrev pub read_failed : {A : Type 0} → Result A
read_failed = err (other (bytes "crypto/rand"))

-- out[i] = alpha[int(b)%len(alpha)]
unfoldable pub pick_from : Text → ℕ → ℕ
pick_from alpha b = elim (get_elem? alpha (b % length alpha)) [ none ↦ 0 | some c ↦ c ]

unfoldable pub from_alphabet : ℕ → Text → Reads → Result Text × Reads
from_alphabet n alpha reads =
    if ltb n 12 || ltb 128 n
    then (err (other (bytes "passgen: length must be 12-128")), reads)
    else if is_empty alpha
    then (err (other (bytes "passgen: empty alphabet")), reads)
    else elim reads [
      | [] ↦ (read_failed, [])
      | none ∷ rest ↦ (read_failed, rest)
      | some s ∷ rest ↦ (ok (map (pick_from alpha) (read_bytes n s)), rest)
    ]

unfoldable pub pick_byte : Text → Reads → Result ℕ × Reads
pick_byte class reads =
    let alpha = class_alphabet class in
    if is_empty alpha then (err (other (bytes "passgen: unknown class")), reads) else elim reads [
      | [] ↦ (read_failed, [])
      | none ∷ rest ↦ (read_failed, rest)
      | some s ∷ rest ↦ (ok (pick_from alpha (byte_at 0 s)), rest)
    ]

-- The rest goes on from the reads that are left, unless there was an error.
unfoldable pub and_then :
    {A B : Type 0} → Result A × Reads → (A → Reads → Result B × Reads) → Result B × Reads
and_then (err e, reads) f = (err e, reads)
and_then (ok a, reads) f = f a reads

-- for i, class := range spec.required { out[i] = pick }
unfoldable pub pick_required : ℕ → List Text → Text → Reads → Result Text × Reads
pick_required i [] out reads = (ok out, reads)
pick_required i (class ∷ rest) out reads =
    and_then (pick_byte class reads) (λ pick. pick_required (suc i) rest (set out i pick))

unfoldable pub swapped : ℕ → ℕ → Text → Option ℕ → Option ℕ → Text
swapped i j out (some a) (some b) = set (set out i b) j a
swapped i j out _ _ = out

-- out[i], out[j] = out[j], out[i]
abbrev pub swap : ℕ → ℕ → Text → Text
swap i j out = swapped i j out (get_elem? out i) (get_elem? out j)

-- for i := len(out) - 1; i > 0; i--
unfoldable pub shuffle_from : ℕ → Text → Text → Text
shuffle_from zero buf out = out
shuffle_from (suc i) buf out =
    shuffle_from i buf (swap (suc i) (byte_at (suc i) buf % (suc (suc i))) out)

unfoldable pub shuffle : Text → Reads → Result Text × Reads
shuffle out [] = (read_failed, [])
shuffle out (none ∷ rest) = (read_failed, rest)
shuffle out (some s ∷ rest) =
    (ok (shuffle_from (length out - 1) (read_bytes (length out) s) out), rest)

-- New
unfoldable pub new_password : ℕ → Reads → Result Text × Reads
new_password n reads = from_alphabet n alphabet reads

unfoldable pub generate : RuleSpec → Reads → Result Text × Reads
generate spec reads =
    and_then (from_alphabet spec.n spec.alpha reads)
      (λ out r. and_then (pick_required 0 spec.required out r) shuffle)

unfoldable pub generate_for : Result RuleSpec → Reads → Result Text × Reads
generate_for (err e) reads = (err e, reads)
generate_for (ok spec) reads = generate spec reads

-- FromRules
unfoldable pub from_rules : (Text → Option ℕ) → Text → Reads → Result Text × Reads
from_rules atoi rules reads = generate_for (parse_rules atoi rules) reads
