-- ===== src/Store.antt =====
-- internal/store: the in-memory store of memory.go behind the interface of store.go. A method under
-- the store's lock is a function from the state to the new state and its result.
pub mod Agents
pub mod Items
pub mod Grants
pub mod Sessions
pub mod Sweep
pub mod Steps
pub mod Reaches
pub mod Revocation
pub mod WellFormed
pub mod Lookups
pub mod SessionLaws
pub mod SweepLaws
pub mod Untouched
pub mod Budget
pub mod History
use password_manager.Prelude.{
  ℕ, Bool, Option, none, some, List, [], ◌∷◌, ◌++◌, take, drop, length, ltb, ◌+◌, ◌-◌, ◌/◌, ◌%◌,
  if◌then◌else◌,
}
use password_manager.Prelude.Text.{Text, text_keys, bytes}
use password_manager.GoMap.{Map}
use password_manager.Protocol.{
  Principal, Item, ItemVersion, Grant, Approval, AuditEvent, Workload, Session,
}

abbrev pub Secret : Type 0
Secret = Text

pub record UseAuth : Type 0 where
  pub agent : Principal
  pub item : Item
  pub grant : Option Grant
  pub approval : Option Approval

pub record SweepReport : Type 0 where
  pub sessions : ℕ
  pub grants : ℕ
  pub approvals : ℕ

pub record Memory : Type 0 where
  pub agents : Map Text Principal
  pub humans : Map Text Principal
  pub items : Map Text Item
  pub secrets : Map Text Secret
  pub grants : Map Text Grant
  pub approvals : Map Text Approval
  pub audit : List AuditEvent
  pub workloads : Map Text Workload
  pub sessions : Map Text Session
  pub versions : List ItemVersion
  pub ver_secret : Map ℕ Secret
  pub next_ver : ℕ

abbrev pub new_memory : Memory
new_memory = record {
  agents = [];
  humans = [];
  items = [];
  secrets = [];
  grants = [];
  approvals = [];
  audit = [];
  workloads = [];
  sessions = [];
  versions = [];
  ver_secret = [];
  next_ver = 0;
}

abbrev pub max_list_results : ℕ
max_list_results = 10000

-- if len(out) > maxListResults { out = out[:maxListResults] }
unfoldable pub first_results {ℓ} : {A : Type ℓ} → List A → List A
first_results out = if ltb max_list_results (length out) then take max_list_results out else out

-- if len(out) > maxListResults { out = out[len(out)-maxListResults:] }
unfoldable pub last_results {ℓ} : {A : Type ℓ} → List A → List A
last_results out =
    if ltb max_list_results (length out) then drop (length out - max_list_results) out else out

-- agentID + "\x00" + itemID
unfoldable pub grant_key : Text → Text → Text
grant_key agent_id item_id = agent_id ++ 0 ∷ item_id

-- issuer + "\x00" + subject
unfoldable pub workload_key : Text → Text → Text
workload_key issuer subject = issuer ++ 0 ∷ subject

-- The digits of encoding/hex.
unfoldable pub hex_digit : ℕ → ℕ
hex_digit n = if ltb n 10 then n + 48 else n + 87

-- hex.EncodeToString
unfoldable pub hex_encode : Text → Text
hex_encode [] = []
hex_encode (b ∷ rest) = hex_digit (b / 16) ∷ hex_digit (b % 16) ∷ hex_encode rest

unfoldable pub session_hash_key : Text → Text
unfolding hex_encode
session_hash_key secret_hash = hex_encode secret_hash
