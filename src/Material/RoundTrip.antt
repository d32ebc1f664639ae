-- ===== src/Material/RoundTrip.antt =====
-- internal/material/material.go: what is packed is unpacked again, as far as the JSON library reads
-- back what it wrote.
use password_manager.Prelude.{
  ℕ, ◌<◌, ◌≤◌, ◌≡◌, refl, sym, ◌∙◌, [], ◌∷◌, Bool, true, false, Option, some, Result, ok, err,
  other, ltb, nat_beq, length, arith, if◌then◌else◌,
}
use password_manager.Prelude.Text.{Text, bytes, is_empty}
use password_manager.Bytes.{trim_space}
use password_manager.Scrub.Base64.{std_encode, encode}
use password_manager.Material.{Envelope, Codecs, version, unpack}
use password_manager.Material.Pack.{
  file_bytes, pack_file, with_login, login_envelope, file_envelope, max_file,
}

keep_current : (e x : Envelope) (v : ℕ) → v ≡ version → (if nat_beq v version then e else x) ≡ e
keep_current e x v h = rw h refl

if_false : {A : Type 0} (b : Bool) (x y : A) → b ≡ false → (if b then x else y) ≡ y
if_false true x y p = cc
if_false false x y p = refl

if_true : {A : Type 0} (b : Bool) (x y : A) → b ≡ true → (if b then x else y) ≡ x
if_true true x y p = refl
if_true false x y p = cc

std_encode_filled : (body : Text) → is_empty body ≡ false → is_empty (std_encode body) ≡ false
unfolding encode
std_encode_filled [] p = cc
std_encode_filled (a ∷ []) p = refl
std_encode_filled (a ∷ b ∷ []) p = refl
std_encode_filled (a ∷ b ∷ c ∷ rest) p = refl

too_large : (n : ℕ) → max_file < n → ltb max_file n ≡ true
too_large n h = ground arith

small_enough : (n : ℕ) → n ≤ max_file → ltb max_file n ≡ false
small_enough n h = ground arith

ok_inj : (a b : Text) → ok a ≡ ok b → a ≡ b
ok_inj a b p = cc

module _ (lib : Codecs) (marshal : Envelope → Result Text) where
  -- The library reads back the envelope from what it wrote of it.
  abbrev pub ReadsBack : Envelope → Type 0
  ReadsBack e = (raw : Text) → marshal e ≡ ok raw → lib.unmarshal raw ≡ some e

  unpack_marshaled :
      (e : Envelope) (raw : Text)
      → e.v ≡ version
      → ReadsBack e
      → marshal e ≡ ok raw
      → unpack lib raw ≡ e
  unfolding unpack
  unpack_marshaled e raw h back p = rw (back raw p, unpack) (keep_current e _ e.v h)

  -- A login that is put in a payload is read back from it, trimmed, and every other field is as it was
  -- in the payload before, a bare token included; an empty login leaves the payload.
  pub unpack-with_login :
      (raw login blob : Text)
      → ReadsBack (login_envelope lib raw (trim_space login))
      → with_login marshal lib raw login ≡ ok blob
      → (is_empty (trim_space login) ≡ true → blob ≡ raw)
        × (is_empty (trim_space login) ≡ false
            → unpack lib blob ≡ record (unpack lib raw) { v = version; login = trim_space login })
  unfolding with_login
  unpack-with_login raw login blob back p = (
    (λ q. sym (ok_inj raw blob (sym (if_true (is_empty (trim_space login)) (ok raw) _ q) ∙ p))),
    λ q.
        unpack_marshaled (login_envelope lib raw (trim_space login)) blob refl back
          (sym (if_false (is_empty (trim_space login)) (ok raw) _ q) ∙ p),
  )

  -- A file of at most 8 MiB that is not empty is packed whenever its envelope can be written, and its
  -- bytes come back; a larger one is refused.
  pub file_bytes-pack_file :
      (decode : Text → Option Text) (name mime body : Text)
      → ReadsBack (file_envelope name mime body)
      → decode (std_encode body) ≡ some body
      → (max_file < length body
          → pack_file marshal name mime body ≡ err (other (bytes "material: file too large")))
        × ((raw : Text)
            → is_empty body ≡ false
            → length body ≤ max_file
            → marshal (file_envelope name mime body) ≡ ok raw
            → (pack_file marshal name mime body ≡ ok raw)
              × (file_bytes decode (unpack lib raw) ≡ ok body))
  unfolding pack_file file_bytes
  file_bytes-pack_file decode name mime body back decoded = (
    (λ h. if_true _ _ _ (too_large (length body) h)),
    λ raw filled h p. (
      if_false _ _ _ (small_enough (length body) h) ∙ p,
      rw (unpack_marshaled (file_envelope name mime body) raw refl back p)
          (rw (std_encode_filled body filled) (rw decoded refl)),
    ),
  )
