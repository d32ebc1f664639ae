-- ===== src/Broker/Calls.antt =====
-- What internal/broker/broker.go is given (the store, the auditor, the OAuth and HTTP clients), and
-- actions that call them.
pub mod Invariants
pub mod Results
use password_manager.Prelude.{
  ℕ, Bool, true, false, Option, none, some, List, [], ◌∷◌, Result, ok, err, Error, wrap, is_ok,
}
use password_manager.Prelude.Text.{Text}
use password_manager.Protocol.{Principal, AuditEvent, Header}
use password_manager.Store.{UseAuth}
use password_manager.Material.{Envelope}

pub record Upstream : Type 0 where
  pub method : Text
  pub url : Text
  pub header : Header
  pub body : Text

pub record Response : Type 0 where
  pub status : ℕ
  pub header : Header
  pub body : Text

-- Each operation takes the state of what lies behind it, and may fail.
pub record Environment : Type 1 where
  pub State : Type 0
  pub use_auth : Text → Text → ℕ → State → Result UseAuth × State
  pub use_auth_session : Text → Text → ℕ → State → Result UseAuth × State
  pub agent : Text → State → Result Principal × State
  pub consume_session_audited : Text → ℕ → AuditEvent → State → Result Principal × State
  pub append_audit : AuditEvent → State → Result (Unit {0}) × State
  pub secret : Text → State → Result Text × State
  -- material.AccessToken for an envelope with a refresh token
  pub refresh : Envelope → State → Result Text × State
  -- http.NewRequestWithContext, Client.Do and the read of at most 1 MiB of the body
  pub accepts : Text → Text → Bool
  pub send : Upstream → State → Result Response × State

-- A call that the broker made, and whether it succeeded or what it brought.
pub data Effect : Type 0 where
  audited : AuditEvent → Bool → Effect
  consumed : Text → AuditEvent → Bool → Effect
  secret_read : Text → Result Text → Effect
  refreshed : Envelope → Result Text → Effect
  sent : Upstream → Bool → Effect

module _ (env : Environment) where
  open env use {State}

  -- The calls made so far, the latest first.
  pub record World : Type 0 where
    pub state : State
    pub past : List Effect

  abbrev pub Act : Type 0 → Type 0
  Act A = World → Result A × World

module _ {env : Environment} where
  unfoldable pub pure : {A : Type 0} → A → Act env A
  pure a w = (ok a, w)

  unfoldable pub fail : {A : Type 0} → Error → Act env A
  fail e w = (err e, w)

  infixl 5 ◌>>=◌ ◌>>◌
  unfoldable pub next : {A B : Type 0} → (A → Act env B) → Result A → Act env B
  next f (ok a) w = f a w
  next f (err e) w = (err e, w)

  unfoldable pub ◌>>=◌ : {A B : Type 0} → Act env A → (A → Act env B) → Act env B
  unfolding next
  ◌>>=◌ m f w = let (r, w') = m w in next f r w'

  abbrev pub ◌>>◌ : {A B : Type 0} → Act env A → Act env B → Act env B
  m >> k = m >>= λ _. k

  -- The action with its error as a value.
  unfoldable pub attempt : {A : Type 0} → Act env A → Act env (Result A)
  attempt m w = let (r, w') = m w in (ok r, w')

  -- fmt.Errorf("…: %w", err)
  unfoldable pub wrapping : {A : Type 0} → Text → Act env A → Act env A
  wrapping text m w = let (r, w') = m w in (elim r [ ok a ↦ ok a | err e ↦ err (wrap text e) ], w')

  -- A call that is recorded with its result.
  unfoldable pub recorded :
      {A : Type 0} → (Result A → Effect) → (env.State → Result A × env.State) → Act env A
  recorded effect op w =
      let (r, s) = op w.state in (r, record { state = s; past = effect r ∷ w.past })

  -- A read that touches no secret.
  unfoldable pub unrecorded : {A : Type 0} → (env.State → Result A × env.State) → Act env A
  unrecorded op w = let (r, s) = op w.state in (r, record w { state = s })

module _ (env : Environment) where
  unfoldable pub append_audit : AuditEvent → Act env (Unit {0})
  append_audit e = recorded (λ r. audited e (is_ok r)) (env.append_audit e)

  unfoldable pub reload_agent : Text → Act env Principal
  reload_agent id = unrecorded (env.agent id)

  unfoldable pub consume_audited : Text → ℕ → AuditEvent → Act env Principal
  consume_audited hash now e =
      recorded (λ r. consumed hash e (is_ok r)) (env.consume_session_audited hash now e)

  unfoldable pub read_secret : Text → Act env Text
  read_secret id = recorded (secret_read id) (env.secret id)

  unfoldable pub refresh_token : Envelope → Act env Text
  refresh_token e = recorded (refreshed e) (env.refresh e)

  unfoldable pub send_request : Upstream → Act env Response
  send_request u = recorded (λ r. sent u (is_ok r)) (env.send u)
