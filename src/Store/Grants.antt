-- ===== src/Store/Grants.antt =====
-- The grants and approvals of internal/store/memory.go, and what one Use call reads of them.
use password_manager.Prelude.{
  ℕ, Option, none, some, List, ltb, Result, ok, err, not_found, if◌then◌else◌,
}
use password_manager.Prelude.Text.{Text, text_beq, text_keys}
use password_manager.GoMap.{get, put, values, find_entry}
use password_manager.Protocol.{Grant, Approval, zero_principal, zero_item}
use password_manager.Store.{Memory, UseAuth, first_results, grant_key}

unfoldable pub put_grant : Grant → Memory → Memory
put_grant g m = record m { grants = put (grant_key g.agent_id g.item_id) g m.grants }

unfoldable pub get_grant : Text → Memory → Result Grant
get_grant id m = elim (find_entry (λ g. text_beq g.id id) m.grants) [
  | none ↦ err not_found
  | some (k, g) ↦ ok g
]

unfoldable pub grant_for : Text → Text → Memory → Option Grant
grant_for agent_id item_id m = get (grant_key agent_id item_id) m.grants

unfoldable pub list_grants : Memory → List Grant
list_grants m = first_results (values m.grants)

unfoldable pub put_approval : Approval → Memory → Memory
put_approval a m = record m { approvals = put a.grant_id a m.approvals }

-- An approval counts while `now` is before its expiry.
abbrev pub live_at : ℕ → Option Approval → Option Approval
live_at now none = none
live_at now (some a) = if ltb now a.expires_at then some a else none

unfoldable pub live_approval : Text → ℕ → Memory → Option Approval
live_approval grant_id now m = live_at now (get grant_id m.approvals)

abbrev pub or_zero {ℓ} : {A : Type ℓ} → A → Option A → A
or_zero zero_value none = zero_value
or_zero zero_value (some a) = a

abbrev pub approval_of : Option Grant → ℕ → Memory → Option Approval
approval_of none now m = none
approval_of (some g) now m = live_at now (get g.id m.approvals)

-- useAuthLocked: what is missing keeps Go's zero value.
unfoldable pub use_auth : Text → Text → ℕ → Memory → UseAuth
use_auth agent_id item_id now m =
    let grant = get (grant_key agent_id item_id) m.grants in
    record {
      agent = or_zero zero_principal (get agent_id m.agents);
      item = or_zero zero_item (get item_id m.items);
      grant = grant;
      approval = approval_of grant now m;
    }
