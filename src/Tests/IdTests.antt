-- ===== src/Tests/IdTests.antt =====
-- internal/id/id.go and the packing of internal/material/material.go on concrete inputs.
use password_manager.Prelude.{
  ◌≡◌, ◌≤◌, ◌<◌, refl, true, false, Option, some, none, [], ◌∷◌, length, Result, ok, err, other,
  arith,
}
use password_manager.Prelude.Text.{Text, bytes, is_empty}
use password_manager.Bytes.{trim_space, trim_front, is_space, two_byte_space, three_byte_space}
use password_manager.Id.{valid, all_bytes, is_uuid, after_hex, after_dash}
use password_manager.Material.{Envelope, Codecs, version, empty_envelope, unpack}
use password_manager.Material.Pack.{
  with_login, login_envelope, file_envelope, pack_file, file_bytes, max_file,
}
use password_manager.Material.RoundTrip.{file_bytes-pack_file}

i1_valid : valid (bytes "i1") ≡ true
unfolding valid all_bytes
i1_valid = refl

uuid_read : is_uuid (bytes " 01234567-89ab-cdef-0123-456789ABCDEF ") ≡ true
unfolding is_uuid after_hex after_dash trim_space trim_front is_space two_byte_space
    three_byte_space
uuid_read = refl

abbrev eight : Text
eight = 0 ∷ 255 ∷ 16 ∷ 1 ∷ 2 ∷ 3 ∷ 4 ∷ 5 ∷ []

-- A library that reads back one envelope.
abbrev reads_one : Envelope → Codecs
reads_one e = record {
  unmarshal = λ raw. elim (is_empty raw) [ true ↦ none | false ↦ some e ];
  generate_code = λ seed now. none;
  canonical_key = λ k. k;
}

abbrev writes : Envelope → Result Text
writes e = ok (bytes "{}")

read_written :
    (e : Envelope) (raw : Text) → ok (bytes "{}") ≡ ok raw → (reads_one e).unmarshal raw ≡ some e
read_written e raw p = ground arith

abbrev with_bob : Envelope
with_bob = record empty_envelope { v = version; token = bytes "k-1"; login = bytes "bob" }

packs_bob : with_login writes (reads_one with_bob) (bytes "x") (bytes " bob ") ≡ ok (bytes "{}")
unfolding with_login trim_space trim_front is_space two_byte_space three_byte_space
packs_bob = refl

reads_bob : login_envelope (reads_one with_bob) (bytes "x") (trim_space (bytes " bob ")) ≡ with_bob
unfolding unpack trim_space trim_front is_space two_byte_space three_byte_space
reads_bob = refl

abbrev note : Envelope
note = file_envelope (bytes "a.txt") (bytes "text/plain") (bytes "hi")

abbrev decode_one : Text → Option Text
decode_one s = some (bytes "hi")

file_bytes-pack_file_example :
    (max_file < length (bytes "hi")
      → pack_file writes (bytes "a.txt") (bytes "text/plain") (bytes "hi")
        ≡ err (other (bytes "material: file too large")))
    × ((raw : Text)
        → is_empty (bytes "hi") ≡ false
        → length (bytes "hi") ≤ max_file
        → writes note ≡ ok raw
        → (pack_file writes (bytes "a.txt") (bytes "text/plain") (bytes "hi") ≡ ok raw)
          × (file_bytes decode_one (unpack (reads_one note) raw) ≡ ok (bytes "hi")))
file_bytes-pack_file_example =
    file_bytes-pack_file (reads_one note) writes decode_one (bytes "a.txt") (bytes "text/plain")
      (bytes "hi") (read_written note) refl
