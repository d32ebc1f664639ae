-- ===== src/Broker/Clean.antt =====
-- What internal/broker/broker.go answers: a response holds no form of what was read from the store,
-- of what the secret's envelope carries, or of what a token refresh brought.
use password_manager.Prelude.{ℕ, ◌≡◌, Bool, false, some, List, [], ◌∷◌, Result, ok, err}
use password_manager.Prelude.Text.{Text, bytes, is_empty}
use password_manager.Protocol.{UseRequest, UseResult, Principal, Item, Fetch, FetchResult}
use password_manager.Scrub.{scrub_bytes}
use password_manager.Scrub.Hides.{Member}
use password_manager.Material.{unpack, scrub_list}
use password_manager.Broker.{
  Libraries, Answer, answer_of, answer_with, use_call, use_session, release, scrub_header,
}
use password_manager.Broker.Release.{releases}
use password_manager.Broker.Outcomes.{use_call-Yields, use_session-Yields}
use password_manager.Broker.Calls.{
  Environment, World, Effect, audited, consumed, secret_read, refreshed, sent,
}
use password_manager.Broker.Calls.Results.{
  Yields, Yields-pure, Yields-bind, Yields-wrapping, Yields-attempt,
}
use password_manager.Broker.Answers.{
  brought, IsClean, IsFresh, scrub_bytes-IsHidden, scrub_header-HeaderHides,
}
use password_manager.Broker.Covered.{
  none_brought, OnlyFrom, IsCovered, read_secret-OnlyFrom, fetch_upstream-IsCovered,
}

some_inj : (a b : FetchResult) → some a ≡ some b → a ≡ b
some_inj a b e = cc

module _ (lib : Libraries) (env : Environment) (now : ℕ) where
  -- What is known of the answer of the upstream, where there is one.
  abbrev Fetched : Text → Result (FetchResult × Text × Text) → List Effect → Type 0
  Fetched s (ok got) past = IsCovered lib.codecs now s got past
  Fetched s (err e) past = Unit

  answer_of-IsClean :
      (s : Text) (dec : UseResult) (got : Result (FetchResult × Text × Text)) (past : List Effect)
      → Fetched s got past
      → IsClean lib.codecs now (answer_of lib env s (unpack lib.codecs s) dec got) past
  unfolding answer_of
  answer_of-IsClean s dec (err e) past k r none_there t m = cc
  answer_of-IsClean s dec (ok got) past k r e t m =
      let hide = scrub_list (unpack lib.codecs s) (s ∷ got.1 ∷ got.2 ∷ []) in
      let found : is_empty t ≡ false → Member t hide = λ w. k t w m in
      let fr : FetchResult = record {
        status = got.0.status;
        header = scrub_header lib env hide got.0.header;
        body = scrub_bytes got.0.body hide;
      } in
      rw (← some_inj fr r e) (
        scrub_bytes-IsHidden t hide got.0.body found,
        scrub_header-HeaderHides lib env t hide got.0.header found,
      )

  release-IsClean :
      (item : Item) (f : Fetch) (dec : UseResult)
      → Yields (IsFresh lib.codecs now) (IsClean lib.codecs now) (release lib env item f dec now)
  unfolding release
  release-IsClean item f dec =
      Yields-bind (OnlyFrom lib.codecs now) (IsClean lib.codecs now) _ _
        (Yields-wrapping (bytes "secret") _ (read_secret-OnlyFrom lib env now item.id))
        (λ s.
          Yields-bind (Fetched s) (IsClean lib.codecs now) _ _
            (Yields-attempt (Fetched s) _ (fetch_upstream-IsCovered lib env now s f)
              (λ got past k. k) (λ e past. tt))
            (λ got. Yields-pure _ (λ past k. answer_of-IsClean s dec got past k)))

module _ (lib : Libraries) (env : Environment) where
  IsFresh-quiet :
      (now : ℕ) (e : Effect) (past : List Effect)
      → releases e ≡ false
      → IsFresh lib.codecs now past
      → IsFresh lib.codecs now (e ∷ past)
  IsFresh-quiet now (audited e done) past p h = h
  IsFresh-quiet now (consumed hash e done) past p h = h
  IsFresh-quiet now (secret_read id r) past p h = cc
  IsFresh-quiet now (refreshed e r) past p h = cc
  IsFresh-quiet now (sent u done) past p h = cc

  IsFresh-IsClean :
      (now : ℕ) (dec : UseResult) (past : List Effect)
      → IsFresh lib.codecs now past
      → IsClean lib.codecs now (answer_with dec) past
  IsFresh-IsClean now dec past h r e t m = none_brought t (brought lib.codecs now past) h m

  -- The answer of a call by an agent's own token to a world where nothing was brought yet: where it
  -- carries a response, neither its body nor a value of its header holds a form (plain, or one of four
  -- base64 forms) of a secret that was read from the store, of a credential of that secret's envelope
  -- (token, login, seed, refresh token, client secret, passkey, card and address fields), of the
  -- one-time code of its seed at that time, or of a token that a refresh brought, where that text is not
  -- empty and the form has no bracket and does not stand inside the word of the marker.
  pub use_call-IsClean :
      (full : Bool) (agent : Principal) (req : UseRequest) (now : ℕ) (w : World env)
      → brought lib.codecs now w.past ≡ []
      → (res : Answer) → (use_call lib env full agent req now w).0 ≡ ok res
      → IsClean lib.codecs now res (use_call lib env full agent req now w).1.past
  use_call-IsClean full agent req now =
      (use_call-Yields lib env now (IsFresh lib.codecs now) (IsClean lib.codecs now)
        (IsFresh-quiet now) (IsFresh-IsClean now)
        (λ item f dec allows. release-IsClean lib env now item f dec) full agent req).yielded

  -- The answer of a call by a session's token to a world where nothing was brought yet: where it
  -- carries a response, neither its body nor a value of its header holds a form (plain, or one of four
  -- base64 forms) of a secret that was read from the store, of a credential of that secret's envelope
  -- (token, login, seed, refresh token, client secret, passkey, card and address fields), of the
  -- one-time code of its seed at that time, or of a token that a refresh brought, where that text is not
  -- empty and the form has no bracket and does not stand inside the word of the marker.
  pub use_session-IsClean :
      (full : Bool) (hash : Text) (req : UseRequest) (now : ℕ) (w : World env)
      → brought lib.codecs now w.past ≡ []
      → (res : Answer) → (use_session lib env full hash req now w).0 ≡ ok res
      → IsClean lib.codecs now res (use_session lib env full hash req now w).1.past
  use_session-IsClean full hash req now =
      (use_session-Yields lib env now (IsFresh lib.codecs now) (IsClean lib.codecs now)
        (IsFresh-quiet now) (IsFresh-IsClean now)
        (λ item f dec allows. release-IsClean lib env now item f dec) full hash req).yielded
