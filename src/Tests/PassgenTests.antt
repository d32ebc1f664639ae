-- ===== src/Tests/PassgenTests.antt =====
-- internal/passgen/passgen.go on concrete rules and reads.
use password_manager.Prelude.{ℕ, ◌≡◌, ◌≤◌, refl, Option, none, some, [], ◌∷◌, Result, ok, length}
use password_manager.Prelude.Text.{Text, bytes, text_beq}
use password_manager.Prelude.Int64.{int_lt}
use password_manager.Bytes.{
  trim_space, trim_front, two_byte_space, three_byte_space, is_space, lower,
}
use password_manager.Passgen.{
  class_alphabet, union_alphabet, union_all, add_unseen, has_byte, intersects, cut_at, split_by,
  split_classes, clean_classes, drop_while, drop_end,
}
use password_manager.Passgen.Rules.{
  collect, collect_part, collect_all, chosen_length, with_required, rule_spec, parse_rules,
}
use password_manager.Passgen.Random.{
  read_bytes, pick_from, from_alphabet, pick_byte, pick_required, and_then, swapped, shuffle_from,
  shuffle, generate, generate_for, from_rules,
}
use password_manager.Passgen.Lengths.{length-from_rules}

abbrev no_numbers : Text → Option ℕ
no_numbers s = none

-- Twenty times the first byte of the alphabet, which no swap can change.
abbrev same_byte : Text
same_byte = bytes "AAAAAAAAAAAAAAAAAAAA"

same_byte_generated : (from_rules no_numbers [] (some [] ∷ some [] ∷ [])).0 ≡ ok same_byte
unfolding collect collect_part collect_all chosen_length with_required rule_spec parse_rules
    split_by cut_at read_bytes pick_from from_alphabet pick_required and_then swapped shuffle_from
    shuffle generate generate_for from_rules trim_space trim_front int_lt
same_byte_generated = refl

length-from_rules_example : (12 ≤ length same_byte) × (length same_byte ≤ 128)
length-from_rules_example =
    length-from_rules no_numbers [] (some [] ∷ some [] ∷ []) same_byte same_byte_generated

-- Rules that allow lower case only, and require a printable byte: the byte that is picked for the
-- required class is an upper case one.
abbrev outside : Result Text
outside =
    (from_rules no_numbers (bytes "allowed: lower; required: ascii-printable")
      (some [] ∷ some [] ∷ some [] ∷ [])).0

upper_outside_lower : outside ≡ ok (bytes "aaaaaaaaaaaaaaaaaaaA")
unfolding collect collect_part collect_all chosen_length with_required rule_spec parse_rules
    split_by cut_at read_bytes pick_from from_alphabet pick_byte pick_required and_then swapped
    shuffle_from shuffle generate generate_for from_rules trim_space trim_front int_lt
    class_alphabet union_alphabet union_all add_unseen has_byte intersects split_classes
    clean_classes drop_while drop_end lower text_beq two_byte_space three_byte_space is_space
upper_outside_lower = refl
