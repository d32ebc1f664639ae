-- ===== src/Broker/Refusals.antt =====
-- What internal/broker/broker.go answers: an answer that is not allow released nothing, unless an error comes
-- with it.
use password_manager.Prelude.{
  ◌≡◌, ◌≢◌, refl, ℕ, Bool, false, List, [], ◌∷◌, Result, ok, err, true, none, is_some, ◌⊎◌, inl,
  inr, if◌then◌else◌,
}
use password_manager.Prelude.Text.{Text}
use password_manager.Protocol.{
  UseRequest, UseResult, Principal, Item, Fetch, FetchResult, Decision, Reason,
}
use password_manager.Grant.{deny}
use password_manager.Material.{Envelope, unpack}
use password_manager.Broker.{Libraries, Answer, answer_of, use_call, use_session, release}
use password_manager.Broker.Calls.{Environment, World, Effect}
use password_manager.Broker.Calls.Results.{Yields, Yields-pure, Yields-bind}
use password_manager.Broker.Release.{releases}
use password_manager.Broker.Outcomes.{use_call-Yields, use_session-Yields}

-- The calls that let something sealed out, the latest first.
abbrev pub released : List Effect → List Effect
released [] = []
released (e ∷ past) = let rest = released past in if releases e then e ∷ rest else rest

-- An answer that is not allow comes without an error and leaves the releases at `l`, or it is the
-- denial of a failed fetch and comes beside the error.
abbrev pub LeavesReleases : List Effect → Answer → List Effect → Type 0
LeavesReleases l res past =
    ((res.failure ≡ none) × (released past ≡ l))
    ⊎ ((res.result ≡ deny Reason.fetch_failed) × (is_some res.failure ≡ true))

abbrev Refuses : List Effect → Answer → List Effect → Type 0
Refuses l res past = res.result.decision ≢ Decision.allow → LeavesReleases l res past

module _ (lib : Libraries) (env : Environment) where
  Yields-any :
      {A : Type 0} (P : List Effect → Type 0) (m : World env → Result A × World env)
      → Yields P (λ a past. Unit) m
  Yields-any P m = record { yielded = λ w h a e. tt }

  answer_of-Refuses :
      (l : List Effect) (secret : Text) (e : Envelope) (dec : UseResult)
      (got : Result (FetchResult × Text × Text)) (past : List Effect)
      → dec.decision ≡ Decision.allow
      → Refuses l (answer_of lib env secret e dec got) past
  unfolding answer_of
  answer_of-Refuses l secret e dec (ok got) past allows refuses = absurd (refuses allows)
  answer_of-Refuses l secret e dec (err failure) past allows refuses = inr (refl, refl)

  release-Refuses :
      (P : List Effect → Type 0) (l : List Effect) (item : Item) (f : Fetch) (dec : UseResult)
      (now : ℕ)
      → dec.decision ≡ Decision.allow
      → Yields P (Refuses l) (release lib env item f dec now)
  unfolding release
  release-Refuses P l item f dec now allows =
      Yields-bind (λ s past. Unit) (Refuses l) _ _ (Yields-any P _)
        (λ s.
          Yields-bind (λ got past. Unit) (Refuses l) _ _ (Yields-any _ _)
            (λ got.
              Yields-pure _
                (λ past u. answer_of-Refuses l s (unpack lib.codecs s) dec got past allows)))

  released-quiet :
      (l : List Effect) (e : Effect) (past : List Effect)
      → releases e ≡ false
      → released past ≡ l
      → released (e ∷ past) ≡ l
  released-quiet l e past p h = rw p h

  -- A call by an agent's own token that answers something else than allow has, where no error comes with the
  -- answer, read no secret, refreshed no token and sent no request; the one answer that an error comes
  -- with is the denial of a fetch that failed.
  pub use_call-released :
      (full : Bool) (agent : Principal) (req : UseRequest) (now : ℕ) (w : World env) (res : Answer)
      → (use_call lib env full agent req now w).0 ≡ ok res
      → res.result.decision ≢ Decision.allow
      → LeavesReleases (released w.past) res (use_call lib env full agent req now w).1.past
  use_call-released full agent req now w =
      let l = released w.past in
      (use_call-Yields lib env now (λ past. released past ≡ l) (Refuses l) (released-quiet l)
          (λ dec past h n. inl (refl, h)) (λ item f dec. release-Refuses _ l item f dec now) full
          agent req).yielded
        w refl

  -- A call by a session's token that answers something else than allow has, where no error comes with the
  -- answer, read no secret, refreshed no token and sent no request; the one answer that an error comes
  -- with is the denial of a fetch that failed.
  pub use_session-released :
      (full : Bool) (hash : Text) (req : UseRequest) (now : ℕ) (w : World env) (res : Answer)
      → (use_session lib env full hash req now w).0 ≡ ok res
      → res.result.decision ≢ Decision.allow
      → LeavesReleases (released w.past) res (use_session lib env full hash req now w).1.past
  use_session-released full hash req now w =
      let l = released w.past in
      (use_session-Yields lib env now (λ past. released past ≡ l) (Refuses l) (released-quiet l)
          (λ dec past h n. inl (refl, h)) (λ item f dec. release-Refuses _ l item f dec now) full
          hash req).yielded
        w refl
