-- ===== src/Tests/FillTests.antt =====
-- The fill calls of internal/app/app.go and the redirects of internal/broker/broker.go on concrete
-- inputs.
use password_manager.Prelude.{◌≡◌, ◌<◌, refl, true, false, [], ◌∷◌, length, All, ok}
use password_manager.Prelude.Text.{Text, bytes, text_beq}
use password_manager.GoMap.{get, put, values, delete}
use password_manager.Protocol.{Item, Header, user, fillable}
use password_manager.Material.{header_get, header_totp}
use password_manager.Store.{Memory, new_memory, first_results}
use password_manager.Store.Agents.{get_agent}
use password_manager.Store.Grants.{list_grants}
use password_manager.Store.Items.{put_item, get_secret, list_items, save_version}
use password_manager.Broker.{is_not_found}
use password_manager.Prelude.{select}
use password_manager.App.{owns_vault}
use password_manager.App.Listing.{
  items_for_principal, items_for_agent, for_grantee, granted_items, add_visible, add_items,
  add_item, has_item,
}
use password_manager.App.Fill.{FillEntry, FillSyncRow, fill_sync, sync_rows}
use password_manager.App.Filled.{IsSynced, fill_sync-IsSynced}
use password_manager.Broker.Redirects.{last_host, check_redirect, check_redirect_sealed}
use password_manager.Tests.Data.{stripe}
use password_manager.Tests.AppTests.{self, vault, tools}

abbrev own_item : Item
own_item = record stripe { owner = record { kind = user; id = bytes "self" } }

abbrev own_start : Memory
own_start = put_item own_item (bytes "k-1") 5 (new_memory)

abbrev entry : FillEntry
entry = record {
  login = [];
  name = bytes "stripe";
  password = bytes "k-1";
  uuid = bytes "i1";
  totp = [];
}

visible : items_for_principal vault self 20 own_start ≡ ok (own_item ∷ [])
unfolding is_not_found items_for_principal items_for_agent for_grantee granted_items add_visible
    add_items add_item has_item owns_vault get_agent list_grants list_items get put values
    first_results select put_item save_version text_beq
visible = refl

abbrev own_row : FillSyncRow
own_row = record { item = own_item; material = bytes "k-1" }

syncs : fill_sync vault self 20 own_start ≡ ok (own_row ∷ [])
unfolding is_not_found fill_sync sync_rows items_for_principal items_for_agent for_grantee
    granted_items add_visible add_items add_item has_item owns_vault get_agent list_grants
    list_items get put values first_results select put_item save_version text_beq get_secret
    fillable
syncs = refl

fill_sync-IsSynced_example : (true ≡ true) × All (IsSynced own_start (own_item ∷ [])) (own_row ∷ [])
fill_sync-IsSynced_example =
    fill_sync-IsSynced vault self 20 own_start (own_row ∷ []) (own_item ∷ []) visible syncs

abbrev injected : Header
injected =
    (bytes "Authorization", bytes "Bearer k-1" ∷ []) ∷ (bytes "Accept", bytes "text/html" ∷ []) ∷ []

abbrev cut : Header
cut = (bytes "Accept", bytes "text/html" ∷ []) ∷ []

follows : check_redirect tools.codecs (bytes "a.io" ∷ []) (bytes "b.io") injected ≡ ok cut
unfolding check_redirect last_host text_beq delete
follows = refl

-- A second redirect on the other host keeps what the client put back.
follows_on :
    check_redirect tools.codecs (bytes "a.io" ∷ bytes "b.io" ∷ []) (bytes "b.io") injected
    ≡ ok injected
unfolding check_redirect last_host text_beq delete
follows_on = refl

check_redirect_sealed_example :
    (length (bytes "a.io" ∷ []) < 10)
    × (text_beq (bytes "b.io") (last_host (bytes "a.io") []) ≡ true → cut ≡ injected)
    × (text_beq (bytes "b.io") (last_host (bytes "a.io") []) ≡ false
        → (header_get tools.codecs cut (bytes "Authorization") ≡ [])
          × (header_get tools.codecs cut header_totp ≡ [])
          × ((key : Text)
              → text_beq (bytes "Authorization") key ≡ false
              → text_beq header_totp key ≡ false
              → header_get tools.codecs cut key ≡ header_get tools.codecs injected key))
check_redirect_sealed_example =
    check_redirect_sealed tools.codecs (bytes "a.io") [] (bytes "b.io") injected cut follows
