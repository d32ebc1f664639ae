-- ===== src/Scrub/Base64.antt =====
-- The encoders of Go's encoding/base64 that internal/scrub/scrub.go calls.
use password_manager.Prelude.{
  ℕ, ◌+◌, ◌-◌, ◌*◌, ◌/◌, ◌%◌, Bool, true, false, [], ◌∷◌, ltb, nat_beq, if◌then◌else◌,
}
use password_manager.Prelude.Text.{Text}

-- The digit of a value below 64; the URL alphabet differs in the last two.
unfoldable pub digit : Bool → ℕ → ℕ
digit for_url n =
    if ltb n 26
    then n + 65
    else if ltb n 52
    then n + 71
    else if ltb n 62
    then n - 4
    else if nat_beq n 62
    then (if for_url then b'-' else b'+')
    else if for_url
    then b'_'
    else b'/'

-- Three bytes make four digits; `padded` fills up the last group by `=`.
unfoldable pub encode : Bool → Bool → Text → Text
encode for_url padded [] = []
encode for_url padded (a ∷ []) =
    digit for_url (a / 4) ∷ digit for_url (a % 4 * 16) ∷ (if padded then b'=' ∷ b'=' ∷ [] else [])
encode for_url padded (a ∷ b ∷ []) =
    digit for_url (a / 4)
    ∷ digit for_url (a % 4 * 16 + b / 16)
    ∷ digit for_url (b % 16 * 4)
    ∷ (if padded then b'=' ∷ [] else [])
encode for_url padded (a ∷ b ∷ c ∷ rest) =
    digit for_url (a / 4)
    ∷ digit for_url (a % 4 * 16 + b / 16)
    ∷ digit for_url (b % 16 * 4 + c / 64)
    ∷ digit for_url (c % 64)
    ∷ encode for_url padded rest

-- base64.StdEncoding, RawStdEncoding, URLEncoding and RawURLEncoding.
abbrev pub std_encode : Text → Text
std_encode = encode false true

abbrev pub raw_std_encode : Text → Text
raw_std_encode = encode false false

abbrev pub url_encode : Text → Text
url_encode = encode true true

abbrev pub raw_url_encode : Text → Text
raw_url_encode = encode true false
