-- ===== src/Scrub.antt =====
-- internal/scrub/scrub.go: known secrets are cut from the bytes that an agent may see.
pub mod Base64
pub mod Hides
use password_manager.Prelude.{Bool, true, false, List, [], ◌∷◌, if◌then◌else◌}
use password_manager.Prelude.Text.{Text, bytes, is_empty}
use password_manager.Bytes.{replace_all, contains}
use Base64.{std_encode, raw_std_encode, url_encode, raw_url_encode}

abbrev pub redacted : Text
redacted = bytes "[redacted]"

-- The body of the loop: the secret itself, then its four standard base64 forms.
unfoldable pub scrub_one : Text → Text → Text
scrub_one out s =
    if is_empty s
    then out
    else (let a = replace_all out s redacted in
        let b = replace_all a (std_encode s) redacted in
        let c = replace_all b (raw_std_encode s) redacted in
        let d = replace_all c (url_encode s) redacted in replace_all d (raw_url_encode s) redacted)

unfoldable pub scrub_bytes : Text → List Text → Text
scrub_bytes out [] = out
scrub_bytes out (s ∷ secrets) = scrub_bytes (scrub_one out s) secrets

unfoldable pub contains_secret : Text → Text → Bool
contains_secret haystack secret =
    if is_empty secret then false else if is_empty haystack then false else contains haystack secret
