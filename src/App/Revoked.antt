-- ===== src/App/Revoked.antt =====
-- What an agent that internal/app/app.go revoked can still do: nothing, whatever the facade serves
-- afterwards.
use password_manager.Prelude.{
  ℕ, ◌≡◌, refl, sym, ◌∙◌, true, false, Option, List, [], ◌∷◌, ok, is_ok, is_some, arith,
  Option-cases, inl, inr,
}
use password_manager.Prelude.Text.{Text, text_keys}
use password_manager.Bytes.{trim_space}
use password_manager.GoMap.{get}
use password_manager.Protocol.{Principal, Item, Grant, Session, Decision, UseResult, Approval}
use password_manager.Grant.Evaluation.{evaluate_revoked}
use password_manager.Store.{Memory}
use password_manager.Store.Agents.{get_agent}
use password_manager.Store.Sessions.{session_by_hash}
use password_manager.Store.Reaches.{Reaches-IsRevoked}
use password_manager.Store.Revocation.{IsRevoked, revoke_agent_found}
use password_manager.Broker.OnMemory.{Outside}
use password_manager.App.{App, Toolbox}
use password_manager.App.Agents.{revoke_own_agent, revoke_event}
use password_manager.App.ChildEnv.{
  try_append, agent_env, child_env, all_pairs, grant_pairs, judged_pairs, judge,
}
use password_manager.App.SignIn.{principal_from_session}
use password_manager.App.Service.{Request, serve_all}
use password_manager.App.Refinement.{serve_all-Reaches}
use password_manager.App.Gives.{Gives, Gives-pure, Gives-if, Gives-bind, Gives-bind_known}
use password_manager.App.Vault.{next, ◌>>=◌, pure, guard, given, reads, revoke_call}

-- A success of the revocation leaves the agent revoked: it was already, or the store's call did it.
pub revoke_own_agent_done :
    (a : App) (actor : Principal) (id : Text) (now : ℕ) (m : Memory)
    → (revoke_own_agent a actor id now m).0 ≡ ok tt
    → IsRevoked id (revoke_own_agent a actor id now m).1
unfolding revoke_own_agent ◌>>=◌ next guard given reads pure revoke_call get_agent
revoke_own_agent_done a actor id now m done =
    ground (arith, revoke_agent_found id now (revoke_event a id now ∷ []) m)

module _ (box : Toolbox) where
  principal_from_session_revoked :
      (token : Text) (now : ℕ) (m : Memory) (s : Session)
      → session_by_hash (box.sha256 (trim_space token)) m ≡ ok s
      → IsRevoked s.agent_id m
      → is_ok (principal_from_session box token now m) ≡ false
  unfolding principal_from_session get_agent
  principal_from_session_revoked token now m s found off = ground arith

ok_empty : (pairs : List Text) → ok [] ≡ ok pairs → pairs ≡ []
ok_empty pairs e = cc

abbrev Nothing : List Text → Memory → Type 0
Nothing pairs m = pairs ≡ []

abbrev IsNothing : List Text → Type 0
IsNothing pairs = pairs ≡ []

module _ (box : Toolbox) (out : Outside) (p : Principal) (now : ℕ)
    (off : is_some p.revoked_at ≡ true) where
  judged_pairs_denied :
      (item : Item) (dec : UseResult) (m : Memory)
      → dec.decision ≡ Decision.deny
      → (judged_pairs box out p now item dec m).0 ≡ ok []
  unfolding judged_pairs try_append ◌>>=◌ next pure
  judged_pairs_denied item dec m denied = rw denied refl

  judge_pairs_revoked :
      (item : Item) (g : Grant) (approval : Option Approval) (m : Memory)
      → (judged_pairs box out p now item (judge box out p now item g approval) m).0 ≡ ok []
  judge_pairs_revoked item g approval m =
      judged_pairs_denied item _ m (evaluate_revoked box.urls _ off)

  grant_pairs-Gives : (g : Grant) → Gives Nothing (grant_pairs box out p now g)
  unfolding grant_pairs
  grant_pairs-Gives g = Gives-if _ _ _ (Gives-pure _ (λ m. refl)) (
      Gives-bind _ _ λ item. Gives-if _ _ _ (Gives-pure _ (λ m. refl)) (
        Gives-bind _ _ λ approval. record {
          given_by = λ m pairs e. ok_empty pairs (sym (judge_pairs_revoked item g approval m) ∙ e);
        }))

  all_pairs-Gives : (grants : List Grant) → Gives Nothing (all_pairs box out p now grants)
  unfolding all_pairs
  all_pairs-Gives [] = Gives-pure _ (λ m. refl)
  all_pairs-Gives (g ∷ grants) =
      Gives-bind_known IsNothing Nothing _ _ (grant_pairs-Gives g) λ pairs none_first.
        Gives-bind_known IsNothing Nothing _ _ (all_pairs-Gives grants)
          λ rest none_later. Gives-pure _ (λ m. rw (none_first, none_later) refl)

  child_env-Gives : Gives Nothing (child_env box out p now)
  unfolding child_env
  child_env-Gives = Gives-bind _ _ λ u. Gives-bind _ _ λ grants. all_pairs-Gives grants

module _ (a : App) (box : Toolbox) (out : Outside) (actor : Principal) (id : Text) (at : ℕ)
    (m : Memory) (rs : List (Request × ℕ)) where
  -- The store once the revocation has returned and the facade has served the requests `rs`.
  abbrev pub later : Memory
  later = serve_all a box out rs (revoke_own_agent a actor id at m).1

  pub still-IsRevoked : (revoke_own_agent a actor id at m).0 ≡ ok tt → IsRevoked id later
  still-IsRevoked done =
      Reaches-IsRevoked id (serve_all-Reaches a box out rs _)
        (revoke_own_agent_done a actor id at m done)

  -- Once the revocation of an agent has succeeded, and whatever requests the facade serves after it,
  -- no token of a session of that agent signs anyone in, at any time.
  pub revoke_own_agent-principal_from_session :
      (token : Text) (now : ℕ) (s : Session)
      → (revoke_own_agent a actor id at m).0 ≡ ok tt
      → session_by_hash (box.sha256 (trim_space token)) later ≡ ok s
      → s.agent_id ≡ id
      → is_ok (principal_from_session box token now later) ≡ false
  revoke_own_agent-principal_from_session token now s done found owner =
      principal_from_session_revoked box token now later s found (rw owner (still-IsRevoked done))

  -- Once the revocation of an agent has succeeded, and whatever requests the facade serves after it,
  -- a child process that runs for that agent is given no variable, at any time.
  pub revoke_own_agent-agent_env :
      (now : ℕ) (pairs : List Text)
      → (revoke_own_agent a actor id at m).0 ≡ ok tt
      → (agent_env box out id now later).0 ≡ ok pairs
      → pairs ≡ []
  unfolding agent_env ◌>>=◌ next reads get_agent
  revoke_own_agent-agent_env now pairs done e = elim (Option-cases (get id later.agents)) [
    | inl missing ↦ ground (arith, missing)
    | inr (p, found) ↦
        (child_env-Gives box out p now (ground (arith, still-IsRevoked done))).given_by later pairs
          (ground (arith, found))
  ]
