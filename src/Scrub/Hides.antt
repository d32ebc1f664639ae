-- ===== src/Scrub/Hides.antt =====
-- What internal/scrub/scrub.go returns holds none of the secrets, in any of the forms it looks for.
use password_manager.Prelude.{
  ℕ, zero, suc, ◌-◌, ◌≡◌, ◌≢◌, ◌⊎◌, refl, inl, inr, true, false, List, [], ◌∷◌, ◌++◌, length, All,
  arith, Bool-cases,
}
use password_manager.Prelude.Text.{Text, bytes, is_empty}
use password_manager.Bytes.{has_prefix, contains, replace_from, replace_all}
use password_manager.Scrub.{redacted, scrub_one, scrub_bytes}
use password_manager.Scrub.Base64.{std_encode, raw_std_encode, url_encode, raw_url_encode}

-- The marker can make no occurrence of the text: it has no bracket, and does not stand in "redacted".
pub record IsForeign (p : Text) : Type 0 where
  pub filled : is_empty p ≡ false
  pub no_open : All (λ c. c ≢ b'[') p
  pub no_close : All (λ c. c ≢ b']') p
  pub apart : contains (bytes "redacted") p ≡ false

-- A prefix that has no closing bracket ends before the first one.
prefix_before :
    (a t p : Text)
    → All (λ c. c ≢ b']') p
    → has_prefix (a ++ b']' ∷ t) p ≡ true
    → has_prefix a p ≡ true
unfolding has_prefix
prefix_before a t [] h e = refl
prefix_before [] t (c ∷ p) h e = ground (arith, h.0)
prefix_before (d ∷ a) t (c ∷ p) h e = ground (arith, prefix_before a t p h.1)

contains_before :
    (a t p : Text)
    → All (λ c. c ≢ b']') p
    → is_empty p ≡ false
    → contains a p ≡ false
    → contains t p ≡ false
    → contains (a ++ b']' ∷ t) p ≡ false
unfolding contains
contains_before [] t (c ∷ p) h f x y = ground (arith, h.0)
contains_before (d ∷ a) t p h f x y =
    ground (arith, prefix_before (d ∷ a) t p h, contains_before a t p h f)
contains_before [] t [] h f x y = cc

contains-marker :
    (t p : Text) → IsForeign p → contains t p ≡ false → contains (redacted ++ t) p ≡ false
unfolding contains
contains-marker t [] w y = cc (w.filled)
contains-marker t (c ∷ p) w y =
    let inside = contains_before (bytes "redacted") t (c ∷ p) w.no_close w.filled w.apart y in
    ground (arith, w.no_open.0)

module _ (q new : Text) (c : ℕ) (s : Text) where
  replace_hit :
      has_prefix (c ∷ s) q ≡ true
      → replace_from 0 q new (c ∷ s) ≡ new ++ replace_from (length q - 1) q new s
  unfolding replace_from
  replace_hit hit = rw hit refl

  replace_skip : (skip : ℕ) → replace_from (suc skip) q new (c ∷ s) ≡ replace_from skip q new s
  unfolding replace_from
  replace_skip skip = refl

  replace_miss :
      has_prefix (c ∷ s) q ≡ false → replace_from 0 q new (c ∷ s) ≡ c ∷ replace_from 0 q new s
  unfolding replace_from
  replace_miss miss = rw miss refl

-- What a replacement leaves at the front stood at the front before, up to the first marker.
prefix_copied :
    (q s p : Text)
    → All (λ c. c ≢ b'[') p
    → has_prefix (replace_from 0 q redacted s) p ≡ true
    → has_prefix s p ≡ true
unfolding has_prefix
prefix_copied q [] p h e = unfold replace_from in e
prefix_copied q (d ∷ s) [] h e = refl
prefix_copied q (d ∷ s) (c ∷ p) h e = elim (Bool-cases (has_prefix (d ∷ s) q)) [
  | inl hit ↦
      let marked : has_prefix (redacted ++ replace_from (length q - 1) q redacted s) (c ∷ p)
          ≡ true =
        rw (replace_hit q redacted d s hit) at e in
      ground (arith, h.0)
  | inr miss ↦
      let kept : has_prefix (d ∷ replace_from 0 q redacted s) (c ∷ p) ≡ true =
        rw (replace_miss q redacted d s miss) at e in
      ground (arith, prefix_copied q s p h.1)
]

-- No replacement makes an occurrence of a text that the marker cannot be part of.
replace_from-keeps :
    (skip : ℕ) (q s p : Text)
    → IsForeign p
    → contains s p ≡ false
    → contains (replace_from skip q redacted s) p ≡ false
unfolding contains
replace_from-keeps skip q [] p w y = unfold replace_from in y
replace_from-keeps (suc skip) q (c ∷ s) p w y =
    rw (replace_skip q redacted c s skip) (replace_from-keeps skip q s p w (ground arith))
replace_from-keeps zero q (c ∷ s) p w y =
    let rest : contains s p ≡ false = ground arith in
    let front : has_prefix (c ∷ s) p ≡ false = ground arith in
    elim (Bool-cases (has_prefix (c ∷ s) q)) [
      | inl hit ↦
          rw (replace_hit q redacted c s hit)
            (contains-marker _ p w (replace_from-keeps (length q - 1) q s p w rest))
      | inr miss ↦
          let same = replace_miss q redacted c s miss in
          let copied = prefix_copied q (c ∷ s) p w.no_open in
          ground (arith, same, copied, replace_from-keeps zero q s p w rest)
    ]

-- A replacement leaves no occurrence of what it replaces.
replace_from-removes :
    (skip : ℕ) (s p : Text) → IsForeign p → contains (replace_from skip p redacted s) p ≡ false
unfolding contains
replace_from-removes skip [] [] w = cc (w.filled)
replace_from-removes skip [] (c ∷ p) w = unfold replace_from in refl
replace_from-removes (suc skip) (c ∷ s) p w =
    rw (replace_skip p redacted c s skip) (replace_from-removes skip s p w)
replace_from-removes zero (c ∷ s) p w = elim (Bool-cases (has_prefix (c ∷ s) p)) [
  | inl hit ↦
      rw (replace_hit p redacted c s hit)
        (contains-marker _ p w (replace_from-removes (length p - 1) s p w))
  | inr miss ↦
      let same = replace_miss p redacted c s miss in
      let copied = prefix_copied p (c ∷ s) p w.no_open in
      ground (arith, same, copied, replace_from-removes zero s p w)
]

module _ (s p : Text) (w : IsForeign p) where
  replace_all-removes : contains (replace_all s p redacted) p ≡ false
  unfolding replace_all
  replace_all-removes = replace_from-removes 0 s p w

  replace_all-keeps :
      (q : Text) → contains s p ≡ false → contains (replace_all s q redacted) p ≡ false
  unfolding replace_all
  replace_all-keeps q y = replace_from-keeps 0 q s p w y

-- The texts that the scrubber looks for when it is given a secret.
abbrev pub forms : Text → List Text
forms s = s ∷ std_encode s ∷ raw_std_encode s ∷ url_encode s ∷ raw_url_encode s ∷ []

abbrev pub Member : Text → List Text → Type 0
Member p [] = ⊥
Member p (s ∷ rest) = (p ≡ s) ⊎ Member p rest

module _ (p : Text) (w : IsForeign p) where
  scrub_one-keeps : (out s : Text) → contains out p ≡ false → contains (scrub_one out s) p ≡ false
  unfolding scrub_one
  scrub_one-keeps out [] y = y
  scrub_one-keeps out (c ∷ s) y = replace_all-keeps _ p w _ (
      replace_all-keeps _ p w _
        (replace_all-keeps _ p w _ (replace_all-keeps _ p w _ (replace_all-keeps _ p w _ y))))

  scrub_bytes-keeps :
      (out : Text) (secrets : List Text)
      → contains out p ≡ false
      → contains (scrub_bytes out secrets) p ≡ false
  unfolding scrub_bytes
  scrub_bytes-keeps out [] y = y
  scrub_bytes-keeps out (s ∷ secrets) y =
      scrub_bytes-keeps (scrub_one out s) secrets (scrub_one-keeps out s y)

  keep_on : (t q : Text) → contains t p ≡ false → contains (replace_all t q redacted) p ≡ false
  keep_on t q = replace_all-keeps t p w q

  cut_out : (t q : Text) → p ≡ q → contains (replace_all t q redacted) p ≡ false
  cut_out t q e = rw (← e) (replace_all-removes t p w)

  scrub_one-removes :
      (out : Text) (c : ℕ) (s : Text)
      → Member p (forms (c ∷ s))
      → contains (scrub_one out (c ∷ s)) p ≡ false
  unfolding scrub_one
  scrub_one-removes out c s f = elim f [
    | inl e ↦ keep_on _ _ (keep_on _ _ (keep_on _ _ (keep_on _ _ (cut_out _ _ e))))
    | inr (inl e) ↦ keep_on _ _ (keep_on _ _ (keep_on _ _ (cut_out _ _ e)))
    | inr (inr (inl e)) ↦ keep_on _ _ (keep_on _ _ (cut_out _ _ e))
    | inr (inr (inr (inl e))) ↦ keep_on _ _ (cut_out _ _ e)
    | inr (inr (inr (inr (inl e)))) ↦ cut_out _ _ e
    | inr (inr (inr (inr (inr e)))) ↦ absurd e
  ]

  -- The scrubbed bytes hold no form of any secret that was handed in and is not empty: neither the
  -- secret nor one of its four base64 forms, as long as that form has no bracket and does not stand
  -- inside the word of the marker.
  pub scrub_bytes-removes :
      (out : Text) (secrets : List Text) (c : ℕ) (s : Text)
      → Member (c ∷ s) secrets
      → Member p (forms (c ∷ s))
      → contains (scrub_bytes out secrets) p ≡ false
  unfolding scrub_bytes
  scrub_bytes-removes out [] c s m f = absurd m
  scrub_bytes-removes out (t ∷ secrets) c s m f = elim m [
    | inl e ↦ scrub_bytes-keeps (scrub_one out t) secrets (rw (← e) (scrub_one-removes out c s f))
    | inr later ↦ scrub_bytes-removes (scrub_one out t) secrets c s later f
  ]
