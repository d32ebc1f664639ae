-- ===== src/Broker/Answers.antt =====
-- What it means for an answer of internal/broker/broker.go to hold no form of what was read from the
-- store or brought by a token refresh, and that the scrubbed texts and headers hold none.
use password_manager.Prelude.{
  ℕ, Result, err, ◌≡◌, inl, inr, false, some, List, [], ◌∷◌, ◌++◌, map, ok, All,
}
use password_manager.Prelude.Text.{Text, is_empty}
use password_manager.Bytes.{contains}
use password_manager.Protocol.{FetchResult, Header}
use password_manager.Scrub.{scrub_bytes}
use password_manager.Scrub.Hides.{IsForeign, Member, forms, scrub_bytes-removes}
use password_manager.Material.{
  Envelope, Codecs, unpack, mint, scrub_list, own_secrets, filled, all_filled,
}
use password_manager.Broker.{Libraries, Answer, scrub_header}
use password_manager.Broker.Calls.{Environment, Effect, secret_read, refreshed}

-- The credentials of an envelope, each field that is one.
abbrev pub credentials : Envelope → List Text
credentials e =
    e.token ∷ e.login ∷ e.totp ∷ e.refresh ∷ e.client_sec ∷ e.passkey_pem ∷ e.number ∷ e.exp_month
    ∷ e.exp_year ∷ e.cvv ∷ e.given_name ∷ e.family_name ∷ e.address ∷ e.city ∷ e.region ∷ e.postal
    ∷ e.country ∷ e.phone ∷ e.email ∷ []

abbrev pub minted : Result Text → List Text
minted (ok code) = code ∷ []
minted (err e) = []

-- What the secret `s` gives away at that time: itself, the credentials of its envelope, and the
-- one-time code of its seed.
unfoldable pub carried : Codecs → ℕ → Text → List Text
carried codecs now s =
    let e = unpack codecs s in (s ∷ credentials e) ++ minted (mint codecs e.totp now)

-- What came out of the store or from a token refresh: what the secrets carry, and the access tokens.
abbrev pub brought : Codecs → ℕ → List Effect → List Text
brought codecs now [] = []
brought codecs now (secret_read id (ok s) ∷ past) = carried codecs now s ++ brought codecs now past
brought codecs now (refreshed e (ok t) ∷ past) = t ∷ brought codecs now past
brought codecs now (e ∷ past) = brought codecs now past

-- `v` holds no form of `t` that the scrubber can find.
abbrev pub IsHidden : Text → Text → Type 0
IsHidden t v =
    (p : Text) → IsForeign p → is_empty t ≡ false → Member p (forms t) → contains v p ≡ false

abbrev pub HeaderHides : Text → Header → Type 0
HeaderHides t [] = Unit
HeaderHides t ((key, vs) ∷ rest) = All (IsHidden t) vs × HeaderHides t rest

abbrev pub ResponseHides : Text → FetchResult → Type 0
ResponseHides t r = IsHidden t r.body × HeaderHides t r.header

-- Nothing that was brought is in the answer.
abbrev pub IsClean : Codecs → ℕ → Answer → List Effect → Type 0
IsClean codecs now res past =
    (r : FetchResult)
    → res.result.fetch ≡ some r
    → (t : Text) → Member t (brought codecs now past)
    → ResponseHides t r

abbrev pub IsFresh : Codecs → ℕ → List Effect → Type 0
IsFresh codecs now past = brought codecs now past ≡ []

pub Member-split :
    {C : Type 0} (t : Text) (a b : List Text)
    → (Member t a → C)
    → (Member t b → C)
    → Member t (a ++ b)
    → C
Member-split t [] b left right m = right m
Member-split t (x ∷ a) b left right (inl e) = left (inl e)
Member-split t (x ∷ a) b left right (inr m) = Member-split t a b (λ n. left (inr n)) right m

Member-before : (t : Text) (a b : List Text) → Member t a → Member t (a ++ b)
Member-before t [] b m = absurd m
Member-before t (x ∷ a) b (inl e) = inl e
Member-before t (x ∷ a) b (inr m) = inr (Member-before t a b m)

Member-append : (t : Text) (a b : List Text) → Member t b → Member t (a ++ b)
Member-append t [] b m = m
Member-append t (x ∷ a) b m = inr (Member-append t a b m)

Member-filled :
    (t s : Text) (rest : List Text) → is_empty t ≡ false → t ≡ s → Member t (filled s ++ rest)
unfolding filled
Member-filled [] s rest w e = cc
Member-filled (c ∷ t) [] rest w e = cc
Member-filled (c ∷ t) (d ∷ s) rest w e = inl e

Member-all_filled :
    (t : Text) (l : List Text) → is_empty t ≡ false → Member t l → Member t (all_filled l)
unfolding all_filled filled
Member-all_filled t [] w m = absurd m
Member-all_filled t (s ∷ l) w (inl e) = Member-filled t s (all_filled l) w e
Member-all_filled t (s ∷ l) w (inr m) =
    Member-append t (filled s) (all_filled l) (Member-all_filled t l w m)

-- The scrub list has each credential that is not empty.
Member-own_secrets :
    (t : Text) (e : Envelope)
    → is_empty t ≡ false
    → Member t (credentials e)
    → Member t (own_secrets e)
unfolding own_secrets
Member-own_secrets t e w m =
    let first = e.token ∷ e.login ∷ e.totp ∷ e.refresh ∷ e.client_sec ∷ e.passkey_pem ∷ [] in
    let rest =
      e.number ∷ e.exp_month ∷ e.exp_year ∷ e.cvv ∷ e.given_name ∷ e.family_name ∷ e.address
      ∷ e.city ∷ e.region ∷ e.postal ∷ e.country ∷ e.phone ∷ e.email ∷ [] in
    Member-split t first rest
      (λ n. Member-before t (all_filled first) (all_filled rest) (Member-all_filled t first w n))
      (λ n. Member-append t (all_filled first) (all_filled rest) (Member-all_filled t rest w n)) m

pub Member-scrub_own :
    (t : Text) (e : Envelope) (extra : List Text)
    → is_empty t ≡ false
    → Member t (credentials e)
    → Member t (scrub_list e extra)
unfolding scrub_list
Member-scrub_own t e extra w m =
    Member-before t (own_secrets e) (all_filled extra) (Member-own_secrets t e w m)

pub Member-scrub_list :
    (t : Text) (e : Envelope) (extra : List Text)
    → is_empty t ≡ false
    → Member t extra
    → Member t (scrub_list e extra)
unfolding scrub_list
Member-scrub_list t e extra w m =
    Member-append t (own_secrets e) (all_filled extra) (Member-all_filled t extra w m)

pub scrub_bytes-IsHidden :
    (t : Text) (hide : List Text) (v : Text)
    → (is_empty t ≡ false → Member t hide)
    → IsHidden t (scrub_bytes v hide)
scrub_bytes-IsHidden [] hide v m p w n f = cc
scrub_bytes-IsHidden (c ∷ s) hide v m p w n f = scrub_bytes-removes p w v hide c s (m n) f

scrub_map-IsHidden :
    (t : Text) (hide : List Text) (vs : List Text)
    → (is_empty t ≡ false → Member t hide)
    → All (IsHidden t) (map (λ v. scrub_bytes v hide) vs)
scrub_map-IsHidden t hide [] m = tt
scrub_map-IsHidden t hide (v ∷ vs) m =
    (scrub_bytes-IsHidden t hide v m, scrub_map-IsHidden t hide vs m)

pub scrub_header-HeaderHides :
    (lib : Libraries) (env : Environment) (t : Text) (hide : List Text) (h : Header)
    → (is_empty t ≡ false → Member t hide)
    → HeaderHides t (scrub_header lib env hide h)
unfolding scrub_header
scrub_header-HeaderHides lib env t hide [] m = tt
scrub_header-HeaderHides lib env t hide ((key, vs) ∷ rest) m =
    (scrub_map-IsHidden t hide vs m, scrub_header-HeaderHides lib env t hide rest m)
