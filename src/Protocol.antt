-- ===== src/Protocol.antt =====
-- internal/protocol/protocol.go: the types every surface speaks. Go's string-typed enumerations are
-- data types with one constructor for each named constant; a value that no constant names is kept
-- by a constructor of its own where the code treats it apart. A pointer that may be nil is an
-- `Option`. Times are nanoseconds since Go's zero time, `int` and `int64` are words of 64 bits.
use password_manager.Prelude.{
  ℕ, ◌≡◌, ◌↔◌, Bool, true, false, Option, none, List, [], arith, Comparable,
}
use password_manager.Prelude.Text.{Text, text_beq, text_beq_iff}

pub data PrincipalKind : Type 0 where
  human agent : PrincipalKind
  other_principal : Text → PrincipalKind

pub data OwnerKind : Type 0 where
  user org no_owner : OwnerKind
  other_owner : Text → OwnerKind

pub data GrantLevel : Type 0 where
  level1 level2 : GrantLevel
  other_level : Text → GrantLevel

pub data ItemKind : Type 0 where
  api_key oauth ssh file passkey card identity : ItemKind
  other_kind : Text → ItemKind

-- Whether Use and a child's environment may touch this kind.
unfoldable pub injects : ItemKind → Bool
injects ssh = false
injects file = false
injects passkey = false
injects card = false
injects identity = false
injects _ = true

-- Whether the fill host may write this kind.
unfoldable pub fillable : ItemKind → Bool
fillable api_key = true
fillable passkey = true
fillable card = true
fillable identity = true
fillable _ = false

pub data ActionKind : Type 0 where
  fetch env revoke : ActionKind
  other_action : Text → ActionKind

pub data Decision : Type 0 where
  allow deny need_approval : Decision

-- The reason strings that the grant evaluation and the broker write; `no_reason` is "".
pub data Reason : Type 0 where
  no_reason human_cannot_use agent_is_revoked item_archived no_grant wrong_org wrong_agent : Reason
  wrong_item grant_expired action_not_allowed missing_url invalid_url host_not_allowed : Reason
  needs_approval approval_expired unknown_level item_not_found not_injectable : Reason
  unsupported_action session_is_revoked fetch_failed oauth_failed empty_secret : Reason

pub record Owner : Type 0 where
  pub kind : OwnerKind
  pub id : Text

pub record Principal : Type 0 where
  pub kind : PrincipalKind
  pub id : Text
  pub org_id : Text
  pub owner : Owner
  pub revoked_at : Option ℕ

pub record Item : Type 0 where
  pub id : Text
  pub org_id : Text
  pub name : Text
  pub kind : ItemKind
  pub owner : Owner
  pub uris : List Text
  pub tags : List Text
  pub archived : Bool
  pub has_totp : Bool
  pub has_file : Bool
  pub login : Text

pub record ItemVersion : Type 0 where
  pub id : ℕ
  pub item_id : Text
  pub time : ℕ

pub record Grant : Type 0 where
  pub id : Text
  pub org_id : Text
  pub agent_id : Text
  pub item_id : Text
  pub level : GrantLevel
  pub actions : List ActionKind
  pub expires_at : Option ℕ

pub record Approval : Type 0 where
  pub id : Text
  pub grant_id : Text
  pub human_id : Text
  pub expires_at : ℕ

pub record Workload : Type 0 where
  pub agent_id : Text
  pub issuer : Text
  pub subject : Text
  pub audience : Text

-- http.Header: the values of each key, the keys in their canonical form.
abbrev pub Header : Type 0
Header = List (Text × List Text)

pub record Fetch : Type 0 where
  pub method : Text
  pub url : Text
  pub header : Header
  pub body : Text

pub record UseRequest : Type 0 where
  pub item_id : Text
  pub action : ActionKind
  pub fetch : Option Fetch

pub record FetchResult : Type 0 where
  pub status : ℕ
  pub header : Header
  pub body : Text

pub record UseResult : Type 0 where
  pub decision : Decision
  pub reason : Reason
  pub approval_id : Text
  pub fetch : Option FetchResult

pub record AuditEvent : Type 0 where
  pub time : ℕ
  pub org_id : Text
  pub agent_id : Text
  pub item_id : Text
  pub action : ActionKind
  pub decision : Decision
  pub reason : Reason
  pub approval_id : Text

pub record Session : Type 0 where
  pub id : Text
  pub org_id : Text
  pub agent_id : Text
  pub expires_at : ℕ
  pub created_at : ℕ
  pub revoked_at : Option ℕ
  pub renewed_at : Option ℕ
  pub ttl : ℕ
  pub max_ttl : ℕ
  pub max_uses : ℕ
  pub uses : ℕ

-- Go's zero values.
abbrev pub zero_owner : Owner
zero_owner = record { kind = no_owner; id = [] }

abbrev pub zero_principal : Principal
zero_principal = record {
  kind = other_principal [];
  id = [];
  org_id = [];
  owner = zero_owner;
  revoked_at = none;
}

abbrev pub zero_item : Item
zero_item = record {
  id = [];
  org_id = [];
  name = [];
  kind = other_kind [];
  owner = zero_owner;
  uris = [];
  tags = [];
  archived = false;
  has_totp = false;
  has_file = false;
  login = [];
}

unfoldable pub action_beq : ActionKind → ActionKind → Bool
action_beq fetch fetch = true
action_beq env env = true
action_beq revoke revoke = true
action_beq (other_action a) (other_action b) = text_beq a b
action_beq _ _ = false

pub action_beq_iff : (a b : ActionKind) → (action_beq a b ≡ true) ↔ (a ≡ b)
unfolding action_beq
action_beq_iff (other_action a) (other_action b) = ground (arith, text_beq_iff a b)
action_beq_iff _ _ = ground arith

instance abbrev pub action_keys : Comparable ActionKind
action_keys = record { equal = action_beq; equal_iff = action_beq_iff }
