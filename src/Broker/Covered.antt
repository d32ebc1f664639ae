-- ===== src/Broker/Covered.antt =====
-- What internal/broker/broker.go reads from the store and what a token refresh brings is on the list
-- of what is cut from the response.
use mathlib.Core.Path.{subst}
use password_manager.Prelude.{
  ℕ, ◌≡◌, ◌⊎◌, inl, inr, Bool-cases, Result-cases, sym, true, refl, false, not, List, [], ◌∷◌, ◌∙◌,
  Result, ok, err, if◌then◌else◌,
}
use password_manager.Prelude.Text.{Text, bytes, is_empty}
use password_manager.Protocol.{Fetch, FetchResult, Header}
use password_manager.Scrub.Hides.{Member}
use password_manager.Material.{
  Envelope, Codecs, unpack, mint, apply_material, apply_token, header_set, header_totp, scrub_list,
  without_blanks,
}
use password_manager.Bytes.{trim_space, trim_front}
use password_manager.Broker.{Libraries, fetch_upstream, send_with, access_token, fresh_token}
use password_manager.Broker.Calls.{
  ◌>>=◌, Environment, Effect, read_secret, refresh_token, send_request,
}
use password_manager.Broker.Calls.Results.{
  Yields, Yields-pure, Yields-fail, Yields-if, Yields-bind, Yields-recorded,
}
use password_manager.Broker.Answers.{
  credentials, minted, carried, brought, IsFresh, Member-split, Member-scrub_list, Member-scrub_own,
}

abbrev both : Header → Text → Result (Header × Text)
both h code = ok (h, code)

pair_inj : (h' h : Header) (c code : Text) → both h' c ≡ both h code → c ≡ code
pair_inj h' h c code e = cc

not_alone : {A : Type 0} (t : Text) → is_empty t ≡ false → Member t ([] ∷ []) → A
not_alone [] w m = cc
not_alone (c ∷ t) w (inl e) = cc
not_alone (c ∷ t) w (inr m) = absurd m

pub none_brought : {A : Type 0} (t : Text) (l : List Text) → l ≡ [] → Member t l → A
none_brought t [] h m = absurd m
none_brought t (s ∷ l) h m = cc

module _ (codecs : Codecs) (now : ℕ) where
  -- Only what the secret carries was brought.
  abbrev pub OnlyFrom : Text → List Effect → Type 0
  OnlyFrom s past =
      (t : Text) → Member t (brought codecs now past) → Member t (carried codecs now s)

  -- Once the secret was read, the token is the only other thing that is brought.
  abbrev pub WithToken : Text → Text → List Effect → Type 0
  WithToken s access past =
      (t : Text)
      → Member t (brought codecs now past)
      → Member t (carried codecs now s) ⊎ (t ≡ access)

  -- All that was brought is on the scrub list.
  abbrev pub IsCovered : Text → FetchResult × Text × Text → List Effect → Type 0
  IsCovered s got past =
      (t : Text)
      → is_empty t ≡ false
      → Member t (brought codecs now past)
      → Member t (scrub_list (unpack codecs s) (s ∷ got.1 ∷ got.2 ∷ []))

  -- The code that goes out is the one that the seed gives.
  abbrev IsMinted : Envelope → Result (Header × Text) → Type 0
  IsMinted e r =
      (h : Header) (code t : Text)
      → r ≡ ok (h, code)
      → is_empty t ≡ false
      → Member t (minted (mint codecs e.totp now))
      → t ≡ code

  empty_mint : (seed : Text) → is_empty seed ≡ true → mint codecs seed now ≡ ok []
  unfolding mint trim_space trim_front without_blanks
  empty_mint [] h = refl
  empty_mint (c ∷ seed) h = cc

  sealed_code : Header → Result Text → Result (Header × Text)
  sealed_code h (err e) = err e
  sealed_code h (ok code) = ok (header_set codecs header_totp code h, code)

  code_inj : (c code : Text) (h' h : Header) → sealed_code h' (ok c) ≡ ok (h, code) → c ≡ code
  unfolding sealed_code
  code_inj c code h' h e = pair_inj _ h c code e

  minted_alone :
      (r : Result Text) (h' h : Header) (code t : Text)
      → sealed_code h' r ≡ ok (h, code)
      → Member t (minted r)
      → t ≡ code
  unfolding sealed_code
  minted_alone (ok c) h' h code t e (inl m) = m ∙ code_inj c code h' h e
  minted_alone (ok c) h' h code t e (inr m) = absurd m
  minted_alone (err x) h' h code t e m = cc

  seeded_material :
      (h : Header) (e : Envelope)
      → is_empty e.totp ≡ false
      → apply_material codecs h e now
        ≡ sealed_code (apply_token codecs h e) (mint codecs e.totp now)
  unfolding apply_material sealed_code
  seeded_material h e seeded = elim (Result-cases (mint codecs e.totp now)) [
    | inl (code, made) ↦ rw (seeded, made) refl
    | inr (failure, none_made) ↦ rw (seeded, none_made) refl
  ]

  apply_material-IsMinted : (h : Header) (e : Envelope) → IsMinted e (apply_material codecs h e now)
  unfolding apply_material
  apply_material-IsMinted h e h' code t done w m = elim (Bool-cases (is_empty e.totp)) [
    | inl bare ↦ not_alone t w (subst (λ r. Member t (minted r)) (empty_mint e.totp bare) m)
    | inr seeded ↦
        minted_alone (mint codecs e.totp now) _ h' code t (sym (seeded_material h e seeded) ∙ done)
          m
  ]

  carried-scrub_list :
      (s t code access : Text)
      → is_empty t ≡ false
      → (Member t (minted (mint codecs (unpack codecs s).totp now)) → t ≡ code)
      → Member t (carried codecs now s)
      → Member t (scrub_list (unpack codecs s) (s ∷ code ∷ access ∷ []))
  unfolding carried
  carried-scrub_list s t code access w coded m =
      let e = unpack codecs s in
      let extra = s ∷ code ∷ access ∷ [] in
      Member-split t (s ∷ credentials e) (minted (mint codecs e.totp now))
        (λ n. elim n [
          | inl same ↦ Member-scrub_list t e extra w (inl same)
          | inr own ↦ Member-scrub_own t e extra w own
        ])
        (λ n. Member-scrub_list t e extra w (inr (inl (coded n)))) m

module _ (lib : Libraries) (env : Environment) (now : ℕ) where
  pub read_secret-OnlyFrom :
      (id : Text) → Yields (IsFresh lib.codecs now) (OnlyFrom lib.codecs now) (read_secret env id)
  unfolding read_secret
  read_secret-OnlyFrom id = Yields-recorded _ (env.secret id) (λ s past h t m.
      Member-split t (carried lib.codecs now s) (brought lib.codecs now past) (λ n. n)
        (none_brought t _ h) m)

  refresh_token-WithToken :
      (s : Text) (e : Envelope)
      → Yields (OnlyFrom lib.codecs now s) (WithToken lib.codecs now s) (refresh_token env e)
  unfolding refresh_token
  refresh_token-WithToken s e =
      Yields-recorded _ (env.refresh e)
        (λ a past h t m. elim m [ inl q ↦ inr q | inr n ↦ inl (h t n) ])

  fresh_token-WithToken :
      (s token : Text)
      → Yields
          (WithToken lib.codecs now s token)
          (WithToken lib.codecs now s)
          (fresh_token lib env token)
  unfolding fresh_token
  fresh_token-WithToken s token =
      Yields-if (is_empty token) _ _ (λ p. Yields-fail _) (λ p. Yields-pure token (λ past k. k))

  renewed_token-WithToken :
      (s : Text) (e : Envelope)
      → Yields
          (OnlyFrom lib.codecs now s)
          (WithToken lib.codecs now s)
          (refresh_token env e >>= fresh_token lib env)
  renewed_token-WithToken s e =
      Yields-bind (WithToken lib.codecs now s) (WithToken lib.codecs now s) _ _
        (refresh_token-WithToken s e) (fresh_token-WithToken s)

  access_token-WithToken :
      (s : Text) (e : Envelope)
      → Yields (OnlyFrom lib.codecs now s) (WithToken lib.codecs now s) (access_token lib env e)
  unfolding access_token
  access_token-WithToken s e =
      Yields-if (is_empty e.refresh) _ _ (λ p. Yields-pure e.token (λ past h t m. inl (h t m)))
        (λ p. search (Yields-if, Yields-fail, renewed_token-WithToken))

  send_with-IsCovered :
      (s : Text) (method : Text) (f : Fetch) (access : Text) (r : Result (Header × Text))
      → IsMinted lib.codecs now (unpack lib.codecs s) r
      → Yields
          (WithToken lib.codecs now s access)
          (IsCovered lib.codecs now s)
          (send_with lib env method f access r)
  unfolding send_with send_request
  send_with-IsCovered s method f access (err e) coded = Yields-fail e
  send_with-IsCovered s method f access (ok (h, code)) coded =
      Yields-bind (λ res. WithToken lib.codecs now s access) (IsCovered lib.codecs now s) _ _
        (Yields-recorded _ (env.send _) (λ res past k. k))
        (λ res. Yields-pure _ (λ past k t w m. elim (k t m) [
          | inl n ↦ carried-scrub_list lib.codecs now s t code access w (coded h code t refl w) n
          | inr e ↦ Member-scrub_list t (unpack lib.codecs s) _ w (inr (inr (inl e)))
        ]))

  pub fetch_upstream-IsCovered :
      (s : Text) (f : Fetch)
      → Yields
          (OnlyFrom lib.codecs now s)
          (IsCovered lib.codecs now s)
          (fetch_upstream lib env f (unpack lib.codecs s) now)
  unfolding fetch_upstream
  fetch_upstream-IsCovered s f =
      Yields-if (not (env.accepts (if is_empty f.method then bytes "GET" else f.method) f.url)) _ _
        (λ p. Yields-fail _)
        (λ p.
          Yields-bind (WithToken lib.codecs now s) (IsCovered lib.codecs now s) _ _
            (access_token-WithToken s (unpack lib.codecs s))
            (λ access.
              send_with-IsCovered s _ f access _ (apply_material-IsMinted lib.codecs now _ _)))
