-- ===== src/Broker/Release.antt =====
-- The order of the calls in internal/broker/broker.go: the row of an allowed call is durable before
-- its secret is read, and before anything is sent.
use password_manager.Prelude.{
  ℕ, ◌≡◌, ◌⊎◌, inr, refl, Bool, true, false, not, List, [], ◌∷◌, Result, ok, err, is_ok,
}
use password_manager.Prelude.Text.{Text}
use password_manager.Protocol.{
  UseRequest, UseResult, AuditEvent, Item, Fetch, Header, Decision, fetch,
}
use password_manager.Material.{Envelope}
use password_manager.Broker.{
  Libraries, release, fetch_upstream, send_with, access_token, fresh_token, is_allow,
}
use password_manager.Broker.Calls.Invariants.{Keeps, Keeps-recorded, Keeps-fail, call_rules}
use password_manager.Broker.Calls.{
  Environment, Upstream, Effect, audited, consumed, secret_read, refreshed, sent, read_secret,
  refresh_token, send_request,
}

-- A call that lets something sealed out of the store, or out of the process.
abbrev pub releases : Effect → Bool
releases (audited e done) = false
releases (consumed hash e done) = false
releases _ = true

-- A row that was written, which allows a fetch of the requested item.
abbrev pub AllowsRow : UseRequest → AuditEvent → Bool → Type 0
AllowsRow req e done =
    (done ≡ true) × (e.decision ≡ Decision.allow) × (e.item_id ≡ req.item_id) × (e.action ≡ fetch)

abbrev pub IsRow : UseRequest → Effect → Type 0
IsRow req (audited e done) = AllowsRow req e done
IsRow req (consumed hash e done) = AllowsRow req e done
IsRow req _ = ⊥

-- One of the calls wrote such a row.
abbrev pub HasRow : UseRequest → List Effect → Type 0
HasRow req [] = ⊥
HasRow req (e ∷ past) = IsRow req e ⊎ HasRow req past

-- Each call that releases something comes after such a row.
abbrev pub IsGuarded : UseRequest → List Effect → Type 0
IsGuarded req [] = Unit
IsGuarded req (e ∷ past) = (releases e ≡ true → HasRow req past) × IsGuarded req past

-- After such a row.
abbrev pub IsBehind : UseRequest → List Effect → Type 0
IsBehind req past = HasRow req past × IsGuarded req past

IsBehind-cons :
    (req : UseRequest) (e : Effect) (past : List Effect)
    → IsBehind req past
    → IsBehind req (e ∷ past)
IsBehind-cons req e past (r, g) = (inr r, ((λ _. r), g))

module _ (lib : Libraries) (env : Environment) (req : UseRequest) where
  refresh_token-IsBehind : (e : Envelope) → Keeps (IsBehind req) (refresh_token env e)
  unfolding refresh_token
  refresh_token-IsBehind e =
      Keeps-recorded (refreshed e) (env.refresh e)
        (λ done past. IsBehind-cons req (refreshed e done) past)

  read_secret-IsBehind : (id : Text) → Keeps (IsBehind req) (read_secret env id)
  unfolding read_secret
  read_secret-IsBehind id =
      Keeps-recorded (secret_read id) (env.secret id)
        (λ done past. IsBehind-cons req (secret_read id done) past)

  send_request-IsBehind : (u : Upstream) → Keeps (IsBehind req) (send_request env u)
  unfolding send_request
  send_request-IsBehind u =
      Keeps-recorded _ (env.send u) (λ r past. IsBehind-cons req (sent u (is_ok r)) past)

  fresh_token-IsBehind : (token : Text) → Keeps (IsBehind req) (fresh_token lib env token)
  unfolding fresh_token
  fresh_token-IsBehind token = search call_rules

  access_token-IsBehind : (e : Envelope) → Keeps (IsBehind req) (access_token lib env e)
  unfolding access_token
  access_token-IsBehind e = search (call_rules, refresh_token-IsBehind, fresh_token-IsBehind)

  send_with-IsBehind :
      (method : Text) (f : Fetch) (access : Text) (r : Result (Header × Text))
      → Keeps (IsBehind req) (send_with lib env method f access r)
  unfolding send_with
  send_with-IsBehind method f access (err e) = Keeps-fail e
  send_with-IsBehind method f access (ok (h, code)) = search (call_rules, send_request-IsBehind)

  fetch_upstream-IsBehind :
      (f : Fetch) (e : Envelope) (now : ℕ) → Keeps (IsBehind req) (fetch_upstream lib env f e now)
  unfolding fetch_upstream
  fetch_upstream-IsBehind f e now = search (call_rules, access_token-IsBehind, send_with-IsBehind)

  pub release-IsBehind :
      (item : Item) (f : Fetch) (dec : UseResult) (now : ℕ)
      → Keeps (IsBehind req) (release lib env item f dec now)
  unfolding release
  release-IsBehind item f dec now =
      search (call_rules, read_secret-IsBehind, fetch_upstream-IsBehind)

pub is_allow_sound : (d : Decision) → not (is_allow d) ≡ false → d ≡ Decision.allow
is_allow_sound Decision.allow p = refl
is_allow_sound Decision.deny p = cc
is_allow_sound Decision.need_approval p = cc
