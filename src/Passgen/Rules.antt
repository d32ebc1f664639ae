-- ===== src/Passgen/Rules.antt =====
-- The rules of a password: what internal/passgen/passgen.go reads out of a text of rules.
use password_manager.Prelude.{
  ℕ, Bool, true, false, ◌||◌, Option, none, some, List, [], ◌∷◌, ◌++◌, map, length, Result, ok, err,
  other, ltb, nat_beq, if◌then◌else◌,
}
use password_manager.Prelude.Text.{Text, bytes, text_beq, is_empty}
use password_manager.Prelude.Int64.{int_lt}
use password_manager.Bytes.{trim_space, lower}
use password_manager.Passgen.{
  alphabet, class_alphabet, union_alphabet, union_all, intersects, cut_at, split_by, split_classes,
}

pub record RuleSpec : Type 0 where
  pub n : ℕ
  pub alpha : Text
  pub required : List Text

-- What the loop over the rules has collected; the bounds are int64 words.
pub record Collected : Type 0 where
  pub min_n : ℕ
  pub max_n : ℕ
  pub required : List Text
  pub allowed : List Text

abbrev pub none_collected : Collected
none_collected = record { min_n = 12; max_n = 128; required = []; allowed = [] }

abbrev pub is_limited : List Text → Bool
is_limited [] = false
is_limited (class ∷ rest) = true

abbrev pub atoi_then : Option ℕ → (ℕ → Collected) → Result Collected
atoi_then none f = err (other (bytes "strconv.Atoi: invalid syntax"))
atoi_then (some v) f = ok (f v)

-- The length: 20, raised to the least and cut to the greatest.
unfoldable pub chosen_length : ℕ → ℕ → ℕ
chosen_length min_n max_n =
    let n = (if int_lt 20 min_n then min_n else 20) in if int_lt max_n n then max_n else n

-- The loop over the required classes: each is known and meets the allowed ones, if there are any.
unfoldable pub with_required : Bool → Text → List Text → Result Text
with_required limited alpha [] = ok alpha
with_required limited alpha (class ∷ rest) =
    let need = class_alphabet class in
    let kept = with_required limited alpha rest in
    let grown = with_required limited (union_alphabet alpha class) rest in
    if is_empty need
    then err (other (bytes "passgen: unknown class"))
    else if limited
    then (if intersects need alpha
        then kept
        else err (other (bytes "passgen: required class not allowed")))
    else grown

unfoldable pub rule_spec : Collected → Result RuleSpec
rule_spec c =
    let n = chosen_length c.min_n c.max_n in
    let limited = is_limited c.allowed in
    let start = (if limited then union_all [] c.allowed else alphabet) in
    if int_lt c.max_n c.min_n
    then err (other (bytes "passgen: minlength > maxlength"))
    else if int_lt n 12 || int_lt 128 n
    then err (other (bytes "passgen: length must be 12-128"))
    else if ltb n (length c.required)
    then err (other (bytes "passgen: too many required classes"))
    else elim (with_required limited start c.required) [
      | err e ↦ err e
      | ok alpha ↦
          if is_empty alpha
          then err (other (bytes "passgen: empty alphabet"))
          else ok (record { n = n; alpha = alpha; required = c.required })
    ]

-- strconv.Atoi: an int64 word, or `none` for a text that is no number in range.
module _ (atoi : Text → Option ℕ) where
  -- The switch over the key of one rule.
  unfoldable pub collect : Text → Text → Collected → Result Collected
  collect key val c =
      if text_beq key (bytes "minlength")
      then atoi_then (atoi val) (λ v. record c { min_n = v })
      else if text_beq key (bytes "maxlength")
      then atoi_then (atoi val) (λ v. record c { max_n = v })
      else if text_beq key (bytes "required")
      then ok (record c { required = c.required ++ split_classes val })
      else if text_beq key (bytes "allowed")
      then ok (record c { allowed = c.allowed ++ split_classes val })
      else ok c

  -- One part of the rules: an empty one, or one without a colon, is passed over.
  unfoldable pub collect_part : Text → Collected → Result Collected
  collect_part part c = elim (cut_at b':' (trim_space part)) [
    | none ↦ ok c
    | some (key, val) ↦ collect (map lower (trim_space key)) (trim_space val) c
  ]

  unfoldable pub collect_all : List Text → Collected → Result Collected
  collect_all [] c = ok c
  collect_all (part ∷ rest) c = elim (collect_part part c) [
    | err e ↦ err e
    | ok c' ↦ collect_all rest c'
  ]

  unfoldable pub parse_rules : Text → Result RuleSpec
  parse_rules rules = elim (collect_all (split_by (λ c. nat_beq c b';') rules) none_collected) [
    | err e ↦ err e
    | ok c ↦ rule_spec c
  ]
