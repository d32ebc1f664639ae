-- ===== src/App/Items.antt =====
-- PutItem, PutItemFor, ImportItems, UpdateItem, ArchiveItem, DeleteItem and AttachTOTP of
-- internal/app/app.go. Names, and random bytes for them, are arguments.
use password_manager.Prelude.{
  ℕ, Bool, true, false, not, ◌&&◌, ◌||◌, Option, none, some, List, [], ◌∷◌, ◌++◌, Result, ok, other,
  if◌then◌else◌,
}
use password_manager.Prelude.Text.{Text, bytes, text_beq, is_empty}
use password_manager.Bytes.{trim_space}
use password_manager.Protocol.{
  Principal, Item, Owner, OwnerKind, user, org, no_owner, ItemKind, api_key, oauth, file, passkey,
  other_kind,
}
use password_manager.Id.{valid, new_item}
use password_manager.Material.{unpack, without_blanks}
use password_manager.Material.Pack.{pack, pack_file, pack_oauth, with_login}
use password_manager.Store.Items.{get_item, get_secret}
use password_manager.Store.Steps.{item_put}
use password_manager.App.{App, Toolbox, is_human, owns_vault, may_write_item}
use password_manager.App.Vault.{
  Vault, ◌>>=◌, ◌>>◌, pure, given, guard, reads, calls, archive_call, delete_call,
}

pub record ItemOpts : Type 0 where
  pub id : Text
  pub name : Text
  pub uri : Text
  pub uris : List Text
  pub tags : List Text
  pub kind : ItemKind
  pub token : Text
  pub login : Text
  pub totp_seed : Text
  pub refresh : Text
  pub token_url : Text
  pub client_id : Text
  pub client_secret : Text
  pub file_name : Text
  pub mime : Text
  pub file : Text
  pub passkey : Text
  pub owner : Owner

-- oneimport.Row
pub record Row : Type 0 where
  pub name : Text
  pub uris : List Text
  pub kind : ItemKind
  pub token : Text
  pub login : Text
  pub totp_seed : Text
  pub file_name : Text
  pub mime : Text
  pub file : Text

-- A name that is no valid id gets a random one; `random` is the read of its bytes.
unfoldable pub item_id : Text → Text → Result Text → Result Text
item_id asked name random =
    if not (is_empty (trim_space asked))
    then ok (trim_space asked)
    else if valid name
    then ok name
    else new_item random

abbrev pub has_secret : ItemOpts → Bool
has_secret o = not (
    is_empty o.token
    && is_empty o.totp_seed
    && is_empty o.refresh
    && is_empty o.file
    && is_empty o.passkey)

-- The kind that the payload tells, where none is asked for.
abbrev pub told_kind : ItemOpts → ItemKind
told_kind o =
    if not (is_empty o.passkey)
    then passkey
    else if not (is_empty o.file)
    then file
    else if not (is_empty o.refresh)
    then oauth
    else api_key

unfoldable pub kind_of : ItemKind → ItemOpts → ItemKind
kind_of (other_kind []) o = told_kind o
kind_of k o = k

unfoldable pub owner_of : App → OwnerKind → Owner → Owner
owner_of a no_owner o = record { kind = org; id = a.org_id }
owner_of a _ o = o

unfoldable pub item_of : App → Text → Text → ItemOpts → Item
unfolding kind_of owner_of
item_of a id name o = record {
  id = id;
  org_id = a.org_id;
  name = name;
  kind = kind_of o.kind o;
  owner = owner_of a o.owner.kind o.owner;
  uris = if is_empty o.uri then o.uris else o.uri ∷ o.uris;
  tags = o.tags;
  archived = false;
  has_totp = not (is_empty o.totp_seed);
  has_file = not (is_empty o.file);
  login = trim_space o.login;
}

-- The payload that is sealed, before the login is added.
unfoldable pub payload : Toolbox → ItemOpts → Result Text
payload box o =
    if not (is_empty o.passkey)
    then ok o.passkey
    else if not (is_empty o.file)
    then pack_file box.marshal o.file_name o.mime o.file
    else if not (is_empty o.refresh)
    then pack_oauth box.marshal o.refresh o.token_url o.client_id o.client_secret
    else if not (is_empty o.totp_seed)
    then pack box.marshal o.token o.totp_seed
    else ok o.token

-- unionURIs: what is added is trimmed, and neither empty nor there already.
unfoldable pub has_uri : Text → List Text → Bool
has_uri u [] = false
has_uri u (v ∷ uris) = text_beq v u || has_uri u uris

unfoldable pub add_uri : Text → List Text → List Text
unfolding has_uri
add_uri u out = if is_empty u || has_uri u out then out else out ++ u ∷ []

unfoldable pub union_uris : List Text → List Text → List Text
union_uris out [] = out
union_uris out (u ∷ add) = union_uris (add_uri (trim_space u) out) add

abbrev pub replaced : {A : Type 0} → A → Option A → A
replaced old none = old
replaced old (some new) = new

-- The item after UpdateItem; `none` is a nil slice.
unfoldable pub updated_item :
    Item → Option (List Text) → List Text → Option (List Text) → Text → Item
updated_item i uris added tags login = record i {
  uris = union_uris (replaced i.uris uris) added;
  tags = replaced i.tags tags;
  login = if is_empty login then i.login else login;
}

-- An item that may take a seed.
abbrev pub takes_totp : ItemKind → Bool
takes_totp api_key = true
takes_totp (other_kind []) = true
takes_totp _ = false

module _ (a : App) (box : Toolbox) where
  unfoldable pub put_item_opts : ItemOpts → Result Text → ℕ → Vault Item
  put_item_opts o random now = do
    guard (not (is_empty (trim_space o.name))) (other (bytes "app: empty item name"))
    id ← given (item_id o.id (trim_space o.name) random)
    guard (has_secret o) (other (bytes "app: empty secret"))
    blob ← given (payload box o)
    sealed ← given (with_login box.marshal box.codecs blob o.login)
    calls (item_put (item_of a id (trim_space o.name) o) sealed now)
    pure (item_of a id (trim_space o.name) o)

  -- What someone who does not own the vault adds is that person's own.
  abbrev pub opts_of : Principal → Bool → ItemOpts → ItemOpts
  opts_of p true o = o
  opts_of p false o = record o { owner = record { kind = user; id = p.id } }

  unfoldable pub put_item_for : Principal → ItemOpts → Result Text → ℕ → Vault Item
  put_item_for p o random now = do
    guard (is_human p.kind) (other (bytes "app: create is human"))
    owns ← given (owns_vault a p)
    put_item_opts (opts_of p owns o) random now

  abbrev pub row_opts : Text → Row → ItemOpts
  row_opts id r = record {
    id = id;
    name = r.name;
    uri = [];
    uris = r.uris;
    tags = [];
    kind = r.kind;
    token = r.token;
    login = r.login;
    totp_seed = r.totp_seed;
    refresh = [];
    token_url = [];
    client_id = [];
    client_secret = [];
    file_name = r.file_name;
    mime = r.mime;
    file = r.file;
    passkey = [];
    owner = record { kind = no_owner; id = [] };
  }

  -- The rows in their order; each comes with the two reads of random bytes that it may ask for. An
  -- error ends the import, and what went before stays.
  unfoldable pub import_rows : List (Result Text × Result Text × Row) → ℕ → Vault (List Text)
  import_rows [] now = pure []
  import_rows ((random, unused, r) ∷ rows) now = do
    id ← given (new_item random)
    i ← put_item_opts (row_opts id r) unused now
    names ← import_rows rows now
    pure (i.name ∷ names)

  unfoldable pub import_items :
      Principal → List (Result Text × Result Text × Row) → ℕ → Vault (List Text)
  import_items p rows now = do
    guard (is_human p.kind) (other (bytes "app: import is human"))
    owns ← given (owns_vault a p)
    guard owns (other (bytes "app: import is owner"))
    import_rows rows now

  unfoldable pub update_item :
      Text → Option (List Text) → List Text → Option (List Text) → Text → ℕ → Vault Item
  update_item name uris added tags login now = do
    i ← reads (get_item name)
    secret ← reads (get_secret i.id)
    sealed ← given (with_login box.marshal box.codecs secret (trim_space login))
    calls (item_put (updated_item i uris added tags (trim_space login)) sealed now)
    pure (updated_item i uris added tags (trim_space login))

  unfoldable pub attach_totp : Principal → Text → Text → ℕ → Vault (Unit {0})
  attach_totp p id raw_seed now =
      let seed = box.to_upper (without_blanks (trim_space raw_seed)) in
      (do
        guard (is_human p.kind) (other (bytes "app: totp enroll denied"))
        guard (not (is_empty seed)) (other (bytes "app: totp seed"))
        i ← reads (get_item id)
        may ← given (may_write_item a p i)
        guard may (other (bytes "app: totp enroll denied"))
        guard (not i.has_totp) (other (bytes "app: totp already enrolled"))
        guard (takes_totp i.kind) (other (bytes "app: totp enroll login"))
        secret ← reads (get_secret i.id)
        let e = unpack box.codecs secret
        blob ← given (pack box.marshal e.token seed)
        sealed ←
            given (
              with_login box.marshal box.codecs blob
                (if is_empty e.login then i.login else e.login))
        calls (item_put (record i { has_totp = true }) sealed now))

abbrev pub archive_named : Text → Vault (Unit {0})
archive_named = archive_call

abbrev pub delete_named : Text → Vault (Unit {0})
delete_named = delete_call
