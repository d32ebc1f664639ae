-- ===== src/App/Filled.antt =====
-- What the fill calls of internal/app/app.go give, and to whom.
use mathlib.Core.Path.{subst}
use password_manager.Prelude.{
  ℕ, ◌≡◌, ◌≢◌, refl, Bool, true, false, not, ◌||◌, List, [], ◌∷◌, All, All-imp, Result, ok, err,
  arith, Bool-cases, inl, inr,
}
use password_manager.Prelude.Text.{Text, bytes, text_beq_refl}
use password_manager.Protocol.{Principal, Item, fillable, injects}
use password_manager.Material.{unpack, mint}
use password_manager.Store.{Memory}
use password_manager.Store.Items.{get_secret}
use password_manager.App.{App, Toolbox, is_human}
use password_manager.App.Listing.{items_for_principal, has_item}
use password_manager.App.Fill.{FillEntry, FillSyncRow, fill_sync, sync_rows, with_row}

-- The entry's fields, from the item and its secret: the password is the sealed token, or the whole
-- payload where there is none; the login is the sealed one, or the item's; a code is minted on demand.
abbrev pub IsOpened : Toolbox → Bool → ℕ → FillEntry → Item → Text → Type 0
IsOpened box mint_totp now e item secret =
    let sealed = unpack box.codecs secret in
    (e.uuid ≡ item.id)
    × (e.name ≡ item.name)
    × (sealed.passkey_pem ≡ [])
    × (sealed.token ≡ [] → e.password ≡ secret)
    × (sealed.token ≢ [] → e.password ≡ sealed.token)
    × (sealed.login ≡ [] → e.login ≡ item.login)
    × (sealed.login ≢ [] → e.login ≡ sealed.login)
    × (mint_totp ≡ false → sealed.totp ≡ [] → e.totp ≡ [])
    × (mint_totp ≡ false → sealed.totp ≢ [] → e.totp ≡ bytes "*")
    × (mint_totp ≡ true
        → (sealed.totp ≢ []) × (e.totp ≢ []) × (mint box.codecs sealed.totp now ≡ ok e.totp))

-- The item is there, of a kind that a child or a fill may be given, and the entry is made of it and of
-- the secret that the store has of it.
abbrev pub IsFilled : Toolbox → Bool → ℕ → Memory → FillEntry → Result Item → Type 0
IsFilled box mint_totp now m e (err failure) = ⊥
IsFilled box mint_totp now m e (ok item) =
    (injects item.kind ≡ true)
    × ((secret : Text) × (get_secret item.id m ≡ ok secret)
        × IsOpened box mint_totp now e item secret)

-- A row of an item of the list, of a kind that the fill host may write, and the secret that the store
-- has of it.
abbrev pub IsSynced : Memory → List Item → FillSyncRow → Type 0
IsSynced m items r =
    (has_item r.item.id items ≡ true)
    × (r.item.archived ≡ false)
    × (fillable r.item.kind ≡ true)
    × (get_secret r.item.id m ≡ ok r.material)

or_true : (b : Bool) → (b || true) ≡ true
or_true true = refl
or_true false = refl

rows_inj : (xs ys : List FillSyncRow) → ok xs ≡ ok ys → xs ≡ ys
rows_inj xs ys e = cc

-- A row of the other items is a row of them all.
IsSynced-cons :
    (m : Memory) (i : Item) (items : List Item) (r : FillSyncRow)
    → IsSynced m items r
    → IsSynced m (i ∷ items) r
unfolding has_item
IsSynced-cons m i items r h = (rw h.0 (or_true _), h.1, h.2, h.3)

with_row-IsSynced :
    (m : Memory) (i : Item) (items : List Item) (read : Result Text)
    (rest : Result (List FillSyncRow)) (rows : List FillSyncRow)
    → get_secret i.id m ≡ read
    → i.archived ≡ false
    → fillable i.kind ≡ true
    → ((xs : List FillSyncRow) → rest ≡ ok xs → All (IsSynced m (i ∷ items)) xs)
    → with_row i read rest ≡ ok rows
    → All (IsSynced m (i ∷ items)) rows
unfolding has_item
with_row-IsSynced m i items (err e) rest rows r there kind later h = cc
with_row-IsSynced m i items (ok secret) (err e) rows r there kind later h = cc
with_row-IsSynced m i items (ok secret) (ok xs) rows r there kind later h =
    subst (All (IsSynced m (i ∷ items))) (rows_inj _ rows h)
      ((rw (text_beq_refl i.id) refl, there, kind, r), later xs refl)

sync_rows-IsSynced :
    (m : Memory) (items : List Item) (rows : List FillSyncRow)
    → sync_rows items m ≡ ok rows
    → All (IsSynced m items) rows
unfolding sync_rows
sync_rows-IsSynced m [] rows h = subst (All (IsSynced m [])) (rows_inj [] rows h) tt
sync_rows-IsSynced m (i ∷ items) rows h =
    let later : (xs : List FillSyncRow)
        → sync_rows items m ≡ ok xs
        → All (IsSynced m (i ∷ items)) xs =
      λ xs q. All-imp (IsSynced-cons m i items) xs (sync_rows-IsSynced m items xs q) in
    elim (Bool-cases (i.archived || not (fillable i.kind))) [
      | inl skipped ↦ later rows (ground (arith, h))
      | inr taken ↦
          with_row-IsSynced m i items (get_secret i.id m) _ rows refl (ground arith) (ground arith)
            later (ground (arith, h))
    ]

-- FillSync gives a person, and nobody else, rows of items that this person sees, each not archived, of
-- a kind that the fill host may write, and with the secret that the store has of it.
pub fill_sync-IsSynced :
    (a : App) (p : Principal) (now : ℕ) (m : Memory) (rows : List FillSyncRow) (items : List Item)
    → items_for_principal a p now m ≡ ok items
    → fill_sync a p now m ≡ ok rows
    → (is_human p.kind ≡ true) × All (IsSynced m items) rows
unfolding fill_sync
fill_sync-IsSynced a p now m rows items seen h =
    let synced = sync_rows-IsSynced m items rows in ground arith
