-- ===== src/App/Released.antt =====
-- A revoked agent and the broker: no use of an item releases anything once internal/app/app.go has
-- revoked the agent.
use password_manager.Prelude.{
  ℕ, ◌≡◌, refl, Bool, true, false, List, [], Result, ok, err, is_some, arith, Bool-cases, inl, inr,
  none, some,
}
use password_manager.Prelude.Text.{Text, is_empty, text_keys}
use password_manager.GoMap.{get}
use password_manager.Protocol.{Principal, Session, Fetch, Decision, UseRequest}
use password_manager.Grant.{UrlLibrary, Input, evaluate, is_agent}
use password_manager.Grant.Evaluation.{evaluate_revoked}
use password_manager.Store.{Memory, UseAuth}
use password_manager.Store.Grants.{use_auth}
use password_manager.Store.Sessions.{session_by_hash, use_auth_session}
use password_manager.Store.Revocation.{IsRevoked, revoked_or_zero}
use password_manager.Broker.{use_call, use_session, use_authorized, session_auth, is_session_error}
use password_manager.Broker.Calls.{World, next, ◌>>=◌, unrecorded, attempt, pure, fail}
use password_manager.Broker.OnMemory.{Outside, on_memory}
use password_manager.Broker.Refusals.{released}
use password_manager.Broker.Denied.{judged_caller, evaluate_no_agent, use_authorized-Quiet}
use password_manager.App.{App, Toolbox}
use password_manager.App.Uses.{
  use_fetch, use_fetch_session, libraries_of, caller_of, fetch_request, from_store,
}
use password_manager.App.Agents.{revoke_own_agent}
use password_manager.App.Service.{Request}
use password_manager.App.Revoked.{later, still-IsRevoked}

-- A caller that is no agent is denied, and so is one that the store knows as revoked.
evaluate_caller :
    (lib : UrlLibrary) (caller : Principal) (auth : UseAuth) (i : Input)
    → is_agent caller.kind ≡ false
    → is_some auth.agent.revoked_at ≡ true
    → i.principal ≡ judged_caller caller auth
    → (evaluate lib i).decision ≡ Decision.deny
evaluate_caller lib caller auth i no_agent off who = elim (Bool-cases (is_empty auth.agent.id)) [
  | inl unknown ↦ evaluate_no_agent lib i (ground (arith, who))
  | inr known ↦ evaluate_revoked lib i (ground (arith, who))
]

module _ (box : Toolbox) (out : Outside) (full : Bool) where
  use_fetch_revoked :
      (id item_id : Text) (f : Fetch) (now : ℕ) (m : Memory)
      → IsRevoked id m
      → released (use_fetch box out full id item_id f now m).1.past ≡ []
  unfolding use_fetch use_call ◌>>=◌ next unrecorded fail use_auth
  use_fetch_revoked id item_id f now m off = elim (Bool-cases full) [
    | inl busy ↦ rw busy refl
    | inr free ↦
        rw (free, use_auth)
          ((use_authorized-Quiet (libraries_of box) (on_memory out) [] (caller_of id)
              (fetch_request item_id f) (use_auth id item_id now m) none now
              (evaluate_caller box.urls (caller_of id) (use_auth id item_id now m) _ refl
                (unfold use_auth in revoked_or_zero (get id m.agents) off) refl)).kept
            (from_store out m) refl)
  ]

  -- What the session's row lets in goes to the broker with the agent that the store knows.
  authorized_revoked :
      (hash : Text) (req : UseRequest) (now : ℕ) (w : World (on_memory out)) (auth : UseAuth)
      → released w.past ≡ []
      → is_some auth.agent.revoked_at ≡ true
      → released
          ((session_auth (libraries_of box) (on_memory out) (ok auth) >>= λ u.
              use_authorized (libraries_of box) (on_memory out) u.agent req u (some hash) now)
            w).1.past
        ≡ []
  unfolding session_auth ◌>>=◌ next fail pure
  authorized_revoked hash req now w auth quiet off = elim (Bool-cases (is_empty auth.agent.id)) [
    | inl unknown ↦ rw unknown quiet
    | inr known ↦ rw known (
        (use_authorized-Quiet (libraries_of box) (on_memory out) [] auth.agent req auth (some hash)
            now (evaluate_revoked box.urls _ (rw known off))).kept
          w quiet)
  ]

  answer_revoked :
      (hash : Text) (req : UseRequest) (now : ℕ) (w : World (on_memory out)) (r : Result UseAuth)
      → released w.past ≡ []
      → ((auth : UseAuth) → r ≡ ok auth → is_some auth.agent.revoked_at ≡ true)
      → released
          ((session_auth (libraries_of box) (on_memory out) r >>= λ u.
              use_authorized (libraries_of box) (on_memory out) u.agent req u (some hash) now)
            w).1.past
        ≡ []
  unfolding session_auth ◌>>=◌ next fail
  answer_revoked hash req now w (ok auth) quiet off =
      authorized_revoked hash req now w auth quiet (off auth refl)
  answer_revoked hash req now w (err e) quiet off = elim (Bool-cases (is_session_error e)) [
    | inl known ↦ rw known quiet
    | inr other ↦ rw other quiet
  ]

  -- A session lets in the agent that its row names.
  use_auth_session_agent :
      (hash item_id : Text) (now : ℕ) (m : Memory) (s : Session) (auth : UseAuth)
      → session_by_hash hash m ≡ ok s
      → IsRevoked s.agent_id m
      → use_auth_session hash item_id now m ≡ ok auth
      → is_some auth.agent.revoked_at ≡ true
  unfolding use_auth_session session_by_hash use_auth
  use_auth_session_agent hash item_id now m s auth found off e =
      ground (arith, revoked_or_zero (get s.agent_id m.agents) off)

  use_fetch_session_revoked :
      (token item_id : Text) (f : Fetch) (now : ℕ) (m : Memory) (s : Session)
      → session_by_hash (box.sha256 token) m ≡ ok s
      → IsRevoked s.agent_id m
      → released (use_fetch_session box out full token item_id f now m).1.past ≡ []
  unfolding use_fetch_session use_session ◌>>=◌ next attempt unrecorded fail
  use_fetch_session_revoked token item_id f now m s found off = elim (Bool-cases full) [
    | inl busy ↦ rw busy refl
    | inr free ↦ rw free (
        answer_revoked (box.sha256 token) (fetch_request item_id f) now (from_store out m)
          (use_auth_session (box.sha256 token) item_id now m) refl
          (λ auth e. use_auth_session_agent (box.sha256 token) item_id now m s auth found off e))
  ]

module _ (a : App) (box : Toolbox) (out : Outside) (actor : Principal) (id : Text) (at : ℕ)
    (m : Memory) (rs : List (Request × ℕ)) where
  -- Once the revocation of an agent has succeeded, and whatever requests the facade serves after it,
  -- a use of any item under that agent's name reads no secret, refreshes no token and sends no
  -- request, at any time and whatever it answers.
  pub revoke_own_agent-use_fetch :
      (full : Bool) (item_id : Text) (f : Fetch) (now : ℕ)
      → (revoke_own_agent a actor id at m).0 ≡ ok tt
      → released (use_fetch box out full id item_id f now (later a box out actor id at m rs)).1.past
        ≡ []
  revoke_own_agent-use_fetch full item_id f now done =
      use_fetch_revoked box out full id item_id f now (later a box out actor id at m rs)
        (still-IsRevoked a box out actor id at m rs done)

  -- Once the revocation of an agent has succeeded, and whatever requests the facade serves after it,
  -- a use of any item by a token of one of that agent's sessions reads no secret, refreshes no token
  -- and sends no request, at any time and whatever it answers.
  pub revoke_own_agent-use_fetch_session :
      (full : Bool) (token item_id : Text) (f : Fetch) (now : ℕ) (s : Session)
      → (revoke_own_agent a actor id at m).0 ≡ ok tt
      → session_by_hash (box.sha256 token) (later a box out actor id at m rs) ≡ ok s
      → s.agent_id ≡ id
      → released
          (use_fetch_session box out full token item_id f now
            (later a box out actor id at m rs)).1.past
        ≡ []
  revoke_own_agent-use_fetch_session full token item_id f now s done found owner =
      use_fetch_session_revoked box out full token item_id f now (later a box out actor id at m rs)
        s found (rw owner (still-IsRevoked a box out actor id at m rs done))
