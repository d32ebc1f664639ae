-- ===== src/App/Fill.antt =====
-- FillLogins, FillLogin, FillSync, FillTOTP and unlockFill of internal/app/app.go: what a person's fill
-- host reads.
use password_manager.Prelude.{
  ℕ, Bool, not, ◌||◌, Option, none, some, List, [], ◌∷◌, Result, ok, err, other, if◌then◌else◌,
}
use password_manager.Prelude.Text.{Text, bytes, is_empty}
use password_manager.Bytes.{trim_space}
use password_manager.Protocol.{Principal, Item, fillable, injects}
use password_manager.Grant.{host_allowed}
use password_manager.Material.{Envelope, unpack, mint}
use password_manager.Store.{Memory}
use password_manager.Store.Items.{get_item, get_secret}
use password_manager.App.{App, Toolbox, is_human}
use password_manager.App.Query.{Query, ◌>>=◌, ◌>>◌, given, guard}
use password_manager.App.Listing.{items_for_principal, may_fill_item}

pub record FillEntry : Type 0 where
  pub login : Text
  pub name : Text
  pub password : Text
  pub uuid : Text
  pub totp : Text

pub record FillSyncRow : Type 0 where
  pub item : Item
  pub material : Text

abbrev pub entry_of : Item → Text → Envelope → FillEntry
entry_of item secret e = record {
  login = e.login;
  name = item.name;
  password = if is_empty e.token then secret else e.token;
  uuid = item.id;
  totp = if is_empty e.totp then [] else bytes "*";
}

-- A passkey is not filled as a login.
abbrev pub unless_passkey : Item → Text → Envelope → Option (FillEntry × Envelope)
unless_passkey item secret e =
    if is_empty e.passkey_pem then some (entry_of item secret e, e) else none

abbrev pub opened : Toolbox → Item → Result Text → Option (FillEntry × Envelope)
opened box item (err e) = none
opened box item (ok secret) = unless_passkey item secret (unpack box.codecs secret)

unfoldable pub unlock_fill : Toolbox → Item → Memory → Option (FillEntry × Envelope)
unlock_fill box item m = if injects item.kind then opened box item (get_secret item.id m) else none

-- An item that cannot be unlocked is left out.
abbrev pub with_entry : Option (FillEntry × Envelope) → List FillEntry → List FillEntry
with_entry none rest = rest
with_entry (some (e, env)) rest = e ∷ rest

unfoldable pub login_entries : Toolbox → Text → List Item → Memory → List FillEntry
login_entries box url [] m = []
login_entries box url (i ∷ items) m =
    let rest = login_entries box url items m in
    if host_allowed box.urls i url then with_entry (unlock_fill box i m) rest else rest

unfoldable pub fill_logins : App → Toolbox → Principal → Text → ℕ → Query (List FillEntry)
fill_logins a box p url now = do
  guard (is_human p.kind) (other (bytes "app: fill is human"))
  items ← items_for_principal a p now
  λ m. ok (login_entries box url items m)

-- The login of the item stands in for one that is not sealed.
abbrev pub with_item_login : Item → FillEntry → FillEntry
with_item_login item e = if is_empty e.login then record e { login = item.login } else e

abbrev pub no_totp : {A : Type 0} → Result A
no_totp = err (other (bytes "app: no totp"))

abbrev pub minted_code : Result Text → Result Text
minted_code (err e) = no_totp
minted_code (ok code) = if is_empty code then no_totp else ok code

abbrev pub coded : FillEntry → Result Text → Result FillEntry
coded e (err failure) = err failure
coded e (ok code) = ok (record e { totp = code })

-- The entry, with a code in place of the star where one is asked for.
unfoldable pub finish_fill :
    Toolbox → Bool → ℕ → Item → Option (FillEntry × Envelope) → Result FillEntry
finish_fill box mint_totp now item none = err (other (bytes "app: fill"))
finish_fill box mint_totp now item (some (e, env)) =
    if not mint_totp
    then ok (with_item_login item e)
    else if is_empty env.totp
    then no_totp
    else coded (with_item_login item e) (minted_code (mint box.codecs env.totp now))

abbrev pub or_fill : {A : Type 0} → Result A → Result A
or_fill (ok a) = ok a
or_fill (err e) = err (other (bytes "app: fill"))

unfoldable pub fill_login : App → Toolbox → Principal → Text → Bool → ℕ → Query FillEntry
fill_login a box p raw_uuid mint_totp now =
    let uuid = trim_space raw_uuid in
    (do
      guard (is_human p.kind) (other (bytes "app: fill is human"))
      guard (not (is_empty uuid)) (other (bytes "app: fill uuid"))
      may ← (λ m. ok (may_fill_item a p uuid now m))
      guard may (other (bytes "app: fill"))
      item ← (λ m. or_fill (get_item uuid m))
      λ m. finish_fill box mint_totp now item (unlock_fill box item m))

abbrev pub with_row : Item → Result Text → Result (List FillSyncRow) → Result (List FillSyncRow)
with_row i (err e) rest = err e
with_row i (ok secret) (err e) = err e
with_row i (ok secret) (ok rows) = ok (record { item = i; material = secret } ∷ rows)

-- The loop over the items; a secret that cannot be read ends it.
unfoldable pub sync_rows : List Item → Query (List FillSyncRow)
sync_rows [] m = ok []
sync_rows (i ∷ items) m =
    let rest = sync_rows items m in
    if i.archived || not (fillable i.kind) then rest else with_row i (get_secret i.id m) rest

-- The time of the answer is left out.
unfoldable pub fill_sync : App → Principal → ℕ → Query (List FillSyncRow)
fill_sync a p now = do
  guard (is_human p.kind) (other (bytes "app: fill is human"))
  items ← items_for_principal a p now
  sync_rows items

abbrev pub seeded_item : Result Item → Result Item
seeded_item (err e) = no_totp
seeded_item (ok item) = if item.has_totp then ok item else no_totp

unfoldable pub fill_totp : App → Toolbox → Principal → Text → ℕ → ℕ → Query Text
fill_totp a box p item_id at now = do
  guard (is_human p.kind) (other (bytes "app: fill is human"))
  may ← (λ m. ok (may_fill_item a p item_id now m))
  guard may (other (bytes "app: no totp"))
  item ← (λ m. seeded_item (get_item item_id m))
  secret ← get_secret item.id
  given (minted_code (mint box.codecs (unpack box.codecs secret).totp at))
