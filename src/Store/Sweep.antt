-- ===== src/Store/Sweep.antt =====
-- Sweep of internal/store/memory.go: rows past their expiry before the cutoff are deleted.
use password_manager.Prelude.{
  ℕ, suc, Bool, false, ◌||◌, not, Option, none, some, [], ◌∷◌, ltb, if◌then◌else◌,
}
use password_manager.GoMap.{Map, keep}
use password_manager.Protocol.{Grant, Approval, Session}
use password_manager.Store.{Memory, SweepReport}

abbrev pub is_before : Option ℕ → ℕ → Bool
is_before none cut = false
is_before (some t) cut = ltb t cut

unfoldable pub keeps_session : ℕ → Session → Bool
keeps_session cut s = not (ltb s.expires_at cut || is_before s.revoked_at cut)

unfoldable pub keeps_grant : ℕ → Grant → Bool
keeps_grant cut g = not (is_before g.expires_at cut)

unfoldable pub keeps_approval : ℕ → Approval → Bool
keeps_approval cut a = not (ltb a.expires_at cut)

-- The counter that a loop over the map raises at each deletion.
unfoldable pub deletions {ℓ κ} : {K : Type ℓ} {V : Type κ} → (V → Bool) → Map K V → ℕ
deletions keeps [] = 0
deletions keeps ((k, v) ∷ m) = let n = deletions keeps m in if keeps v then n else suc n

unfoldable pub sweep : ℕ → Memory → SweepReport × Memory
sweep cut m = (
  record {
    sessions = deletions (keeps_session cut) m.sessions;
    grants = deletions (keeps_grant cut) m.grants;
    approvals = deletions (keeps_approval cut) m.approvals;
  },
  record m {
    sessions = keep (keeps_session cut) m.sessions;
    grants = keep (keeps_grant cut) m.grants;
    approvals = keep (keeps_approval cut) m.approvals;
  },
)
