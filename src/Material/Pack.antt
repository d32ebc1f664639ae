-- ===== src/Material/Pack.antt =====
-- internal/material/material.go: the payloads that are sealed. `json.Marshal` of an envelope and the
-- decoder of encoding/base64 are parameters.
use password_manager.Prelude.{
  ℕ, ◌&&◌, ◌||◌, Option, none, some, Result, ok, err, other, ltb, length, map, if◌then◌else◌,
}
use password_manager.Prelude.Text.{Text, bytes, is_empty}
use password_manager.Bytes.{trim_space, upper}
use password_manager.Scrub.Base64.{std_encode}
use password_manager.Material.{Envelope, Codecs, version, empty_envelope, unpack}

abbrev pub max_file : ℕ
max_file = 8388608

unfoldable pub file_bytes : (Text → Option Text) → Envelope → Result Text
file_bytes decode env =
    if is_empty env.file_b64
    then err (other (bytes "material: not a file"))
    else elim (decode env.file_b64) [
      | none ↦ err (other (bytes "illegal base64 data"))
      | some body ↦ ok body
    ]

abbrev pub login_envelope : Codecs → Text → Text → Envelope
login_envelope lib raw login = record (unpack lib raw) { v = version; login = login }

abbrev pub file_envelope : Text → Text → Text → Envelope
file_envelope name mime body = record empty_envelope {
  v = version;
  file_name = name;
  mime = mime;
  file_b64 = std_encode body;
}

abbrev pub token_envelope : Text → Text → Envelope
token_envelope token seed = record empty_envelope {
  v = version;
  token = trim_space token;
  totp = map upper (trim_space seed);
}

module _ (marshal : Envelope → Result Text) where
  unfoldable pub pack_file : Text → Text → Text → Result Text
  pack_file name mime body =
      if ltb max_file (length body)
      then err (other (bytes "material: file too large"))
      else marshal (file_envelope name mime body)

  unfoldable pub pack : Text → Text → Result Text
  pack token seed = marshal (token_envelope token seed)

  -- An empty login leaves the payload as it is.
  unfoldable pub with_login : Codecs → Text → Text → Result Text
  with_login lib raw login =
      let name = trim_space login in
      if is_empty name then ok raw else marshal (login_envelope lib raw name)

  unfoldable pub pack_oauth : Text → Text → Text → Text → Result Text
  pack_oauth refresh token_url client_id client_secret = marshal (record empty_envelope {
    v = version;
    refresh = trim_space refresh;
    token_url = trim_space token_url;
    client_id = trim_space client_id;
    client_sec = trim_space client_secret;
  })

  unfoldable pub pack_card : Text → Text → Text → Text → Text → Result Text
  pack_card number exp_month exp_year cvv name =
      let digits = trim_space number in
      if is_empty digits
      then err (other (bytes "material: empty card"))
      else marshal (record empty_envelope {
        v = version;
        number = digits;
        exp_month = trim_space exp_month;
        exp_year = trim_space exp_year;
        cvv = trim_space cvv;
        given_name = trim_space name;
      })

  abbrev pub pack_person : Envelope → Result Text
  pack_person env =
      if is_empty env.given_name
        && is_empty env.family_name
        && is_empty env.address
        && is_empty env.phone
        && is_empty env.email
      then err (other (bytes "material: empty identity"))
      else marshal env

  unfoldable pub pack_identity :
      Text → Text → Text → Text → Text → Text → Text → Text → Text → Result Text
  pack_identity given family address city region postal country phone email =
      pack_person (record empty_envelope {
        v = version;
        given_name = trim_space given;
        family_name = trim_space family;
        address = trim_space address;
        city = trim_space city;
        region = trim_space region;
        postal = trim_space postal;
        country = trim_space country;
        phone = trim_space phone;
        email = trim_space email;
      })

  unfoldable pub pack_passkey : Text → Text → Text → Text → Result Text
  pack_passkey pem cred_id rp_id user_handle =
      if is_empty (trim_space pem) || is_empty cred_id || is_empty rp_id
      then err (other (bytes "material: empty passkey"))
      else marshal (record empty_envelope {
        v = version;
        passkey_pem = pem;
        cred_id = cred_id;
        rp_id = rp_id;
        user_handle = user_handle;
      })
