-- ===== src/Material.antt =====
-- internal/material/material.go: the sealed payload of an item and what is injected of it. The
-- payload's JSON form, the TOTP library, the OAuth library and the canonical form of a header's key
-- are parameters.
pub mod Pack
pub mod RoundTrip
use password_manager.Prelude.{
  ℕ, not, ◌&&◌, Option, none, some, List, [], ◌∷◌, ◌++◌, Result, ok, err, other, map, nat_beq,
  if◌then◌else◌,
}
use password_manager.Prelude.Text.{Text, bytes, is_empty, text_keys}
use password_manager.Bytes.{has_prefix, trim_space, lower, upper}
use password_manager.GoMap.{get, put}
use password_manager.Protocol.{Header}

pub record Envelope : Type 0 where
  pub v : ℕ
  pub token : Text
  pub login : Text
  pub totp : Text
  pub refresh : Text
  pub token_url : Text
  pub client_id : Text
  pub client_sec : Text
  pub file_name : Text
  pub mime : Text
  pub file_b64 : Text
  pub passkey_pem : Text
  pub cred_id : Text
  pub rp_id : Text
  pub user_handle : Text
  pub number : Text
  pub exp_month : Text
  pub exp_year : Text
  pub cvv : Text
  pub given_name : Text
  pub family_name : Text
  pub address : Text
  pub city : Text
  pub region : Text
  pub postal : Text
  pub country : Text
  pub phone : Text
  pub email : Text

abbrev pub version : ℕ
version = 1

abbrev pub empty_envelope : Envelope
empty_envelope = record {
  v = 0;
  token = [];
  login = [];
  totp = [];
  refresh = [];
  token_url = [];
  client_id = [];
  client_sec = [];
  file_name = [];
  mime = [];
  file_b64 = [];
  passkey_pem = [];
  cred_id = [];
  rp_id = [];
  user_handle = [];
  number = [];
  exp_month = [];
  exp_year = [];
  cvv = [];
  given_name = [];
  family_name = [];
  address = [];
  city = [];
  region = [];
  postal = [];
  country = [];
  phone = [];
  email = [];
}

-- What other libraries give: `json.Unmarshal` into an Envelope, `totp.GenerateCode`, with `none` for
-- an error, and `http.CanonicalHeaderKey`.
pub record Codecs : Type 0 where
  pub unmarshal : Text → Option Envelope
  pub generate_code : Text → ℕ → Option Text
  pub canonical_key : Text → Text

-- strings.ReplaceAll(s, " ", "")
unfoldable pub without_blanks : Text → Text
without_blanks [] = []
without_blanks (c ∷ s) = let rest = without_blanks s in if nat_beq c 32 then rest else c ∷ rest

-- The header value for a token. The lower case of a rune that is not ASCII is never in "bearer ".
unfoldable pub authorization_value : Text → Text
authorization_value raw =
    let token = trim_space raw in
    if is_empty token
    then []
    else if has_prefix (map lower token) (bytes "bearer ")
    then token
    else if has_prefix token (bytes "lin_api_")
    then token
    else bytes "Bearer " ++ token

unfoldable pub filled : Text → List Text
filled s = if is_empty s then [] else s ∷ []

unfoldable pub all_filled : List Text → List Text
all_filled [] = []
all_filled (s ∷ rest) = filled s ++ all_filled rest

-- The loops of ScrubList over the envelope's own fields.
unfoldable pub own_secrets : Envelope → List Text
own_secrets env =
    all_filled
      (env.token ∷ env.login ∷ env.totp ∷ env.refresh ∷ env.client_sec ∷ env.passkey_pem ∷ [])
    ++ all_filled (
        env.number ∷ env.exp_month ∷ env.exp_year ∷ env.cvv ∷ env.given_name ∷ env.family_name
        ∷ env.address ∷ env.city ∷ env.region ∷ env.postal ∷ env.country ∷ env.phone ∷ env.email
        ∷ [])

-- The secrets to cut from a response.
unfoldable pub scrub_list : Envelope → List Text → List Text
scrub_list env extra = own_secrets env ++ all_filled extra

abbrev pub header_totp : Text
header_totp = bytes "X-TOTP"

module _ (lib : Codecs) where
  open lib use {unmarshal, generate_code, canonical_key}

  -- A payload that is no envelope of this version is a bare token.
  unfoldable pub unpack : Text → Envelope
  unpack raw = elim (unmarshal raw) [
    | none ↦ record empty_envelope { token = raw }
    | some env ↦ if nat_beq env.v version then env else record empty_envelope { token = raw }
  ]

  unfoldable pub mint : Text → ℕ → Result Text
  mint raw now =
      let seed = without_blanks (map upper (trim_space raw)) in
      if is_empty seed
      then ok []
      else elim (generate_code seed now) [ none ↦ err (other (bytes "totp")) | some code ↦ ok code ]

  -- h.Get(key): the first value, or the empty string.
  unfoldable pub header_get : Header → Text → Text
  header_get h key = elim (get (canonical_key key) h) [
    | none ↦ []
    | some [] ↦ []
    | some (v ∷ vs) ↦ v
  ]

  unfoldable pub header_set : Text → Text → Header → Header
  header_set key v h = put (canonical_key key) (v ∷ []) h

  unfoldable pub header_add : Text → Text → Header → Header
  header_add key v h = elim (get (canonical_key key) h) [
    | none ↦ put (canonical_key key) (v ∷ []) h
    | some vs ↦ put (canonical_key key) (vs ++ v ∷ []) h
  ]

  -- The token's own header, unless the caller set one or the token is refreshed elsewhere.
  unfoldable pub apply_token : Header → Envelope → Header
  apply_token h env =
      if not (is_empty env.token)
        && is_empty (header_get h (bytes "Authorization"))
        && is_empty env.refresh
      then header_set (bytes "Authorization") (authorization_value env.token) h
      else h

  -- The header and the code, or the error of the mint.
  unfoldable pub apply_material : Header → Envelope → ℕ → Result (Header × Text)
  apply_material h env now =
      let h' = apply_token h env in
      if is_empty env.totp then ok (h', []) else elim (mint env.totp now) [
        | err e ↦ err e
        | ok code ↦ ok (header_set header_totp code h', code)
      ]
