-- ===== src/Bytes/Plain.antt =====
-- A text of visible ASCII bytes has nothing to trim.
use mathlib.Core.List.{reverse, reverse-cons, reverse-reverse}
use password_manager.Prelude.{
  ℕ, ◌<◌, ◌≡◌, ◌∙◌, refl, ap, Bool, false, [], ◌∷◌, All, All-append, arith,
}
use password_manager.Prelude.Text.{Text}
use password_manager.Bytes.{is_space, two_byte_space, three_byte_space, trim_front, trim_space}

abbrev pub Plain : ℕ → Type 0
Plain c = (32 < c) × (c < 128)

is_space-Plain : (a : ℕ) → Plain a → is_space a ≡ false
unfolding is_space
is_space-Plain a h = ground arith

two_byte_space-Plain : (a b : ℕ) → Plain a → two_byte_space a b ≡ false
unfolding two_byte_space
two_byte_space-Plain a b h = ground arith

three_byte_space-Plain : (a b c : ℕ) → Plain a → three_byte_space a b c ≡ false
unfolding three_byte_space
three_byte_space-Plain a b c h = ground arith

module _ (two : ℕ → ℕ → Bool) (three : ℕ → ℕ → ℕ → Bool)
    (no_two : (a b : ℕ) → Plain a → Plain b → two a b ≡ false)
    (no_three : (a b c : ℕ) → Plain a → Plain c → three a b c ≡ false) where
  trim_front-Plain : (s : Text) → All Plain s → trim_front two three s ≡ s
  unfolding trim_front
  trim_front-Plain [] h = refl
  trim_front-Plain (a ∷ []) h = rw (is_space-Plain a h.0) refl
  trim_front-Plain (a ∷ b ∷ []) h = rw (is_space-Plain a h.0) (rw (no_two a b h.0 h.1.0) refl)
  trim_front-Plain (a ∷ b ∷ c ∷ s) h =
      rw (is_space-Plain a h.0) (rw (no_two a b h.0 h.1.0) (rw (no_three a b c h.0 h.1.1.0) refl))

All-reverse : (s : Text) → All Plain s → All Plain (reverse s)
All-reverse [] h = tt
All-reverse (c ∷ s) h =
    rw (reverse-cons c s) (All-append Plain (reverse s) (c ∷ []) (All-reverse s h.1) (h.0, tt))

pub trim_space-Plain : (s : Text) → All Plain s → trim_space s ≡ s
unfolding trim_space
trim_space-Plain s h =
    ap
      (λ t.
        reverse
          (trim_front (λ a b. two_byte_space b a) (λ a b c. three_byte_space c b a) (reverse t)))
      (trim_front-Plain two_byte_space three_byte_space (λ a b ha hb. two_byte_space-Plain a b ha)
        (λ a b c ha hc. three_byte_space-Plain a b c ha) s h)
    ∙ ap reverse (
        trim_front-Plain _ _ (λ a b ha hb. two_byte_space-Plain b a hb)
          (λ a b c ha hc. three_byte_space-Plain c b a hc) (reverse s) (All-reverse s h))
    ∙ reverse-reverse s
