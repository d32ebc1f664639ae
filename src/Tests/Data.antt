-- ===== src/Tests/Data.antt =====
-- The vault that the tests share: an agent `bot`, the item `stripe`, and the grants between them.
use password_manager.Prelude.{Option, none, some, [], ◌∷◌, false, if◌then◌else◌}
use password_manager.Prelude.Text.{Text, bytes, text_beq}
use password_manager.Protocol.{
  Principal, Item, Grant, Session, AuditEvent, zero_owner, agent, api_key, level1, level2, fetch,
  Decision, Reason,
}
use password_manager.Grant.{Url, UrlLibrary, Input}

abbrev pub bot : Principal
bot = record {
  kind = agent;
  id = bytes "bot";
  org_id = bytes "org";
  owner = zero_owner;
  revoked_at = none;
}

abbrev pub stripe : Item
stripe = record {
  id = bytes "i1";
  org_id = bytes "org";
  name = bytes "stripe";
  kind = api_key;
  owner = zero_owner;
  uris = bytes "https://a.io" ∷ [];
  tags = [];
  archived = false;
  has_totp = false;
  has_file = false;
  login = [];
}

abbrev pub free_grant : Grant
free_grant = record {
  id = bytes "g";
  org_id = bytes "org";
  agent_id = bytes "bot";
  item_id = bytes "i1";
  level = level2;
  actions = fetch ∷ [];
  expires_at = some 100;
}

abbrev pub held_grant : Grant
held_grant = record free_grant { level = level1 }

abbrev pub lease : Session
lease = record {
  id = bytes "s";
  org_id = bytes "org";
  agent_id = bytes "bot";
  expires_at = 50;
  created_at = 10;
  revoked_at = none;
  renewed_at = none;
  ttl = 900;
  max_ttl = 3600;
  max_uses = 2;
  uses = 0;
}

abbrev pub row : AuditEvent
row = record {
  time = 20;
  org_id = [];
  agent_id = [];
  item_id = bytes "i1";
  action = fetch;
  decision = Decision.allow;
  reason = Reason.no_reason;
  approval_id = [];
}

-- A library that knows one URL.
abbrev pub parse_one : Text → Option Url
parse_one raw =
    if text_beq raw (bytes "https://a.io")
    then some
        (record { scheme = bytes "https"; host = bytes "a.io"; hostname = bytes "a.io"; port = [] })
    else none

abbrev pub library : UrlLibrary
library = record { parse_url = parse_one; to_lower = λ s. s; etld_plus_one = λ s. some s }

abbrev pub request : Input
request = record {
  principal = bot;
  item = stripe;
  grant = some free_grant;
  action = fetch;
  target_url = bytes "https://a.io";
  approval = none;
  now = 20;
}
