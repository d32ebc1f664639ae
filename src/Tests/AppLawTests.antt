-- ===== src/Tests/AppLawTests.antt =====
-- What internal/app/app.go and session.go demand and write, on concrete inputs.
use password_manager.Prelude.{
  ◌≡◌, ◌≢◌, ◌↔◌, refl, true, false, none, [], ◌∷◌, ◌++◌, All, ok, is_ok, is_some, arith,
}
use password_manager.Prelude.Text.{Text, bytes, text_beq}
use password_manager.Prelude.Int64.{int_lt, time_add}
use password_manager.Bytes.{trim_space, trim_front, is_space, two_byte_space, three_byte_space}
use password_manager.GoMap.{get, put, values}
use password_manager.Protocol.{Principal, Item, Grant, Session, level2, user, api_key, no_owner}
use password_manager.Material.{unpack, without_blanks}
use password_manager.Material.Pack.{with_login, pack}
use password_manager.Id.{valid, all_bytes, new_id}
use password_manager.Store.{
  Memory, new_memory, session_hash_key, hex_encode, hex_digit, grant_key, first_results,
}
use password_manager.Store.Agents.{put_agent, get_agent}
use password_manager.Store.Items.{put_item, get_item, get_secret, save_version}
use password_manager.Store.Grants.{put_grant, list_grants}
use password_manager.Store.Sessions.{put_session}
use password_manager.Store.Steps.{step}
use password_manager.App.{owns_vault, may_write_item, member_owns}
use password_manager.App.Vault.{◌>>=◌, next, pure, given, guard, reads, calls}
use password_manager.App.Grants.{grant_until}
use password_manager.App.GrantChecks.{MayGrant}
use password_manager.App.Service.{serve, puts_item_for}
use password_manager.App.Spares.{IsSpared}
use password_manager.App.Strangers.{serve-IsSpared}
use password_manager.App.Granting.{asked_grant, grant_until_iff, IsOwnPut, put_item_for_own}
use password_manager.App.Items.{
  ItemOpts, put_item_for, put_item_opts, attach_totp, item_id, payload, item_of, kind_of, owner_of,
}
use password_manager.App.Listing.{items_for_agent, for_grantee, granted_items, with_item}
use password_manager.App.Visible.{IsGranted, items_for_agent-IsGranted}
use password_manager.App.Sessions.{create_session, new_session_token}
use password_manager.App.SessionLaws.{
  IsFresh, create_session_bounds, principal_from_session-create_session,
}
use password_manager.App.SignIn.{principal_from_session}
use password_manager.Tests.Data.{stripe}
use password_manager.Tests.AppTests.{self, vault, tools, world, start, our_bot}

grant_until_iff_example :
    ((is_ok (grant_until vault (bytes "bot") (bytes "i1") level2 none start).0 ≡ true)
      ↔ MayGrant vault (bytes "bot") (bytes "i1") level2 start)
    × ((g : Grant)
        → (grant_until vault (bytes "bot") (bytes "i1") level2 none start).0 ≡ ok g
        → (g ≡ asked_grant vault (bytes "bot") (bytes "i1") level2 none)
          × ((grant_until vault (bytes "bot") (bytes "i1") level2 none start).1
              ≡ put_grant g start))
    × (is_ok (grant_until vault (bytes "bot") (bytes "i1") level2 none start).0 ≡ false
        → (grant_until vault (bytes "bot") (bytes "i1") level2 none start).1 ≡ start)
grant_until_iff_example = grant_until_iff vault (bytes "bot") (bytes "i1") level2 none start

shown : items_for_agent (bytes "bot") 20 start ≡ ok (stripe ∷ [])
unfolding items_for_agent for_grantee granted_items with_item get_agent get_item list_grants
    put_session put_grant put_item put_agent get put values save_version first_results text_beq
    grant_key session_hash_key hex_encode hex_digit
shown = refl

items_for_agent-IsGranted_example :
    All (IsGranted (bytes "bot") 20 start (list_grants start)) (stripe ∷ [])
    × ((p : Principal)
        → get_agent (bytes "bot") start ≡ ok p
        → is_some p.revoked_at ≡ true
        → stripe ∷ [] ≡ [])
items_for_agent-IsGranted_example =
    items_for_agent-IsGranted (bytes "bot") 20 start (stripe ∷ []) shown

-- A member who does not own the vault adds an item named as one that is there.
abbrev ada : Principal
ada = record self { id = bytes "ada" }

abbrev opts : ItemOpts
opts = record {
  id = [];
  name = bytes "i1";
  uri = [];
  uris = [];
  tags = [];
  kind = api_key;
  token = bytes "k-2";
  login = [];
  totp_seed = [];
  refresh = [];
  token_url = [];
  client_id = [];
  client_secret = [];
  file_name = [];
  mime = [];
  file = [];
  passkey = [];
  owner = record { kind = no_owner; id = [] };
}

abbrev adas : Item
adas = record stripe {
  name = bytes "i1";
  owner = record { kind = user; id = bytes "ada" };
  uris = [];
}

adds : (put_item_for vault tools ada opts (ok []) 40 start).0 ≡ ok adas
unfolding put_item_for put_item_opts ◌>>=◌ next pure guard given calls step owns_vault member_owns
    item_id payload item_of kind_of owner_of with_login trim_space trim_front is_space
    two_byte_space three_byte_space valid all_bytes text_beq
adds = refl

put_item_for_own_example :
    IsOwnPut vault tools ada adas (put_item_for vault tools ada opts (ok []) 40 start).1
put_item_for_own_example = put_item_for_own vault tools ada opts (ok []) 40 start adas adds

ada_is_stranger : owns_vault vault ada ≢ ok true
unfolding owns_vault member_owns text_beq
ada_is_stranger h = cc

serve-IsSpared_example :
    IsSpared ada start (serve vault tools world (puts_item_for ada opts (ok [])) 40 start)
serve-IsSpared_example =
    serve-IsSpared vault tools world ada ada_is_stranger (puts_item_for ada opts (ok [])) 40 start
      refl

found : get_item (bytes "i1") start ≡ ok stripe
unfolding get_item put_session put_grant put_item put_agent get put save_version text_beq
found = refl

abbrev own_item : Item
own_item = record stripe { owner = record { kind = user; id = bytes "self" } }

abbrev own_start : Memory
own_start = put_item own_item (bytes "k-1") 5 (new_memory)

own_found : get_item (bytes "i1") own_start ≡ ok own_item
unfolding get_item put_item get put save_version text_beq
own_found = refl

attaches : (attach_totp vault tools self (bytes "i1") (bytes "ABC") 40 own_start).0 ≡ ok tt
unfolding attach_totp ◌>>=◌ next pure guard given reads calls step may_write_item owns_vault
    get_item get_secret put_item get put save_version text_beq trim_space trim_front is_space
    two_byte_space three_byte_space without_blanks unpack pack with_login
attaches = refl

abbrev eight_bytes : Text
eight_bytes = 0 ∷ 1 ∷ 2 ∷ 3 ∷ 4 ∷ 5 ∷ 6 ∷ 255 ∷ []

abbrev secret_bytes : Text
secret_bytes = eight_bytes ++ eight_bytes ++ eight_bytes ++ eight_bytes

abbrev minted : Text
minted = bytes "ses_00010203040506ff00010203040506ff00010203040506ff00010203040506ff"

abbrev minute_lease : Session
minute_lease = record {
  id = bytes "s00010203040506ff";
  org_id = bytes "org";
  agent_id = bytes "bot";
  expires_at = 60000000040;
  created_at = 40;
  revoked_at = none;
  renewed_at = none;
  ttl = 60;
  max_ttl = 3600;
  max_uses = 2;
  uses = 0;
}

bot_found : get_agent (bytes "bot") start ≡ ok our_bot
unfolding get_agent put_session put_grant put_item put_agent get put save_version text_beq
bot_found = refl

creates :
    (create_session vault tools self
      (bytes "bot")
      60000000000
      2
      (ok secret_bytes)
      (ok eight_bytes)
      40
      start).0
    ≡ ok (minute_lease, minted)
unfolding create_session ◌>>=◌ next pure guard given reads calls step owns_vault get_agent
    put_session put_grant put_item put_agent get put save_version text_beq int_lt new_session_token
    new_id hex_encode hex_digit valid all_bytes time_add
creates = refl

create_session_bounds_example :
    (owns_vault vault self ≡ ok true)
    × (our_bot.revoked_at ≡ none)
    × IsFresh vault (bytes "bot") 2 40 minute_lease
create_session_bounds_example =
    create_session_bounds vault tools self (bytes "bot") 60000000000 2 secret_bytes (ok eight_bytes)
      40 start our_bot minute_lease minted (ground arith) bot_found creates

principal_from_session-create_session_example :
    principal_from_session tools minted 50
      (create_session vault tools self
        (bytes "bot")
        60000000000
        2
        (ok secret_bytes)
        (ok eight_bytes)
        40
        start).1
    ≡ ok our_bot
principal_from_session-create_session_example =
    principal_from_session-create_session vault tools self (bytes "bot") 60000000000 2 secret_bytes
      (ok eight_bytes) 40 start our_bot minute_lease minted 50 (ground arith) refl (ground arith)
      bot_found refl creates (ground arith)
