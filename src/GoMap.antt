-- ===== src/GoMap.antt =====
-- Go's maps: association lists in which a key stands once. The order of the entries stands for the
-- order in which a `range` loop meets them, which Go leaves open.
use password_manager.Prelude.{
  ◌≡◌, refl, Bool, true, Option, none, some, List, [], ◌∷◌, arith, ap, ◌∙◌, Comparable, ◌==◌,
  Bool-cases, inl, inr, if◌then◌else◌,
}

abbrev pub Map {ℓ κ} : Type ℓ → Type κ → Type (ℓ ⊔ κ)
Map K V = List (K × V)

module _ {ℓ κ} {K : Type ℓ} {V : Type κ} ⦃e : Comparable K⦄ where
  -- v, ok := m[k]
  unfoldable pub get : K → Map K V → Option V
  get k [] = none
  get k ((j, v) ∷ m) = if j == k then some v else get k m

  -- m[k] = v
  unfoldable pub put : K → V → Map K V → Map K V
  put k v [] = (k, v) ∷ []
  put k v ((j, w) ∷ m) = if j == k then (k, v) ∷ m else (j, w) ∷ put k v m

  -- delete(m, k)
  unfoldable pub delete : K → Map K V → Map K V
  delete k [] = []
  delete k ((j, w) ∷ m) = let rest = delete k m in if j == k then rest else (j, w) ∷ rest

  -- a key stands once
  abbrev pub IsMap : Map K V → Type κ
  IsMap [] = Unit
  IsMap ((k, v) ∷ m) = (get k m ≡ none) × IsMap m

module _ {ℓ κ} {K : Type ℓ} {V : Type κ} where
  -- for k, v := range m { if !keep(v) { delete(m, k) } }
  unfoldable pub keep : (V → Bool) → Map K V → Map K V
  keep p [] = []
  keep p ((j, w) ∷ m) = let rest = keep p m in if p w then (j, w) ∷ rest else rest

  -- for _, v := range m { out = append(out, v) }
  unfoldable pub values : Map K V → List V
  values [] = []
  values ((j, w) ∷ m) = w ∷ values m

  -- for k, v := range m { if p(v) { return k, v } }
  unfoldable pub find_entry : (V → Bool) → Map K V → Option (K × V)
  find_entry p [] = none
  find_entry p ((j, w) ∷ m) = if p w then some (j, w) else find_entry p m

abbrev pub passing {κ} : {V : Type κ} → (V → Bool) → Option V → Option V
passing p none = none
passing p (some v) = if p v then some v else none

module _ {ℓ κ} {K : Type ℓ} {V : Type κ} ⦃e : Comparable K⦄ where
  pub get-put :
      (k j : K) (v : V) (m : Map K V) → get j (put k v m) ≡ (if k == j then some v else get j m)
  unfolding get put
  get-put k j v [] = refl
  get-put k j v ((i, w) ∷ m) =
      ground (arith, e.equal_iff k j, e.equal_iff i k, e.equal_iff i j, get-put k j v m)

  pub get-put_self : (k : K) (v : V) (m : Map K V) → get k (put k v m) ≡ some v
  get-put_self k v m = ground (arith, get-put k k v m, e.equal_iff k k)

  pub get-delete : (k j : K) (m : Map K V) → get j (delete k m) ≡ (if k == j then none else get j m)
  unfolding get delete
  get-delete k j [] = ground arith
  get-delete k j ((i, w) ∷ m) =
      ground (arith, e.equal_iff k j, e.equal_iff i k, e.equal_iff i j, get-delete k j m)

  pub IsMap-put : (k : K) (v : V) (m : Map K V) → IsMap m → IsMap (put k v m)
  unfolding get put
  IsMap-put k v [] h = (refl, tt)
  IsMap-put k v ((i, w) ∷ m) h = elim (Bool-cases (i == k)) [
    | inl same ↦ rw same (rw (← (e.equal_iff i k).0 same) (h.0, h.1))
    | inr other ↦ rw other (
      ground (arith, get-put k i v m, e.equal_iff k i, e.equal_iff i k, h.0),
      IsMap-put k v m h.1,
    )
  ]

  pub IsMap-delete : (k : K) (m : Map K V) → IsMap m → IsMap (delete k m)
  unfolding get delete
  IsMap-delete k [] h = h
  IsMap-delete k ((i, w) ∷ m) h = elim (Bool-cases (i == k)) [
    | inl same ↦ rw same (IsMap-delete k m h.1)
    | inr other ↦ rw other (ground (arith, get-delete k i m, h.0), IsMap-delete k m h.1)
  ]

  pub get-keep :
      (p : V → Bool) (k : K) (m : Map K V) → IsMap m → get k (keep p m) ≡ passing p (get k m)
  unfolding get keep
  get-keep p k [] h = refl
  get-keep p k ((i, w) ∷ m) h = ground (arith, e.equal_iff i k, get-keep p k m h.1, h.0)

  pub IsMap-keep : (p : V → Bool) (m : Map K V) → IsMap m → IsMap (keep p m)
  unfolding keep
  IsMap-keep p [] h = h
  IsMap-keep p ((i, w) ∷ m) h = elim (Bool-cases (p w)) [
    | inl stays ↦ rw stays (get-keep p i m h.1 ∙ ap (passing p) h.0, IsMap-keep p m h.1)
    | inr goes ↦ rw goes (IsMap-keep p m h.1)
  ]

module _ {ℓ κ} {K : Type ℓ} {V : Type κ} ⦃e : Comparable K⦄ where
  -- An entry that a loop finds is the one under its key, and it passes the test.
  pub get-find_entry :
      (p : V → Bool) (m : Map K V) {k : K} {v : V}
      → IsMap m
      → find_entry p m ≡ some (k, v)
      → get k m ≡ some v
  unfolding get find_entry
  get-find_entry p [] h f = cc f
  get-find_entry p ((j, w) ∷ m) {k} {v} h f = elim (Bool-cases (p w)) [
    | inl here ↦ ground (arith, e.equal_iff j k, here, f)
    | inr later ↦
        let there : get k m ≡ some v = get-find_entry p m h.1 (rw later at f) in
        ground (arith, e.equal_iff j k, there, h.0)
  ]

  pub find_entry-passes :
      (p : V → Bool) (m : Map K V) {k : K} {v : V} → find_entry p m ≡ some (k, v) → p v ≡ true
  unfolding find_entry
  find_entry-passes p [] f = cc f
  find_entry-passes p ((j, w) ∷ m) {k} {v} f = elim (Bool-cases (p w)) [
    | inl here ↦ ground (arith, here, f)
    | inr later ↦ find_entry-passes p m (rw later at f)
  ]
