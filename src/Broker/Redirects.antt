-- ===== src/Broker/Redirects.antt =====
-- The redirect policy of the client that internal/broker/broker.go builds: what is injected does not
-- follow a redirect to another host than the one before.
use password_manager.Prelude.{
  ◌<◌, ◌≡◌, refl, sym, ◌∙◌, true, false, List, [], ◌∷◌, length, leb, Result, ok, err, other, arith,
  if◌then◌else◌,
}
use password_manager.Prelude.Text.{Text, bytes, text_beq, text_beq_refl, text_keys}
use password_manager.GoMap.{delete, get-delete}
use password_manager.Protocol.{Header}
use password_manager.Material.{Codecs, header_get, header_totp}

-- via[len(via)-1], of which the first is apart.
unfoldable pub last_host : Text → List Text → Text
last_host host [] = host
last_host host (next ∷ via) = last_host next via

abbrev pub header_del : Codecs → Text → Header → Header
header_del lib key h = delete (lib.canonical_key key) h

-- CheckRedirect, on the host names of the requests made so far, the oldest first.
unfoldable pub check_redirect : Codecs → List Text → Text → Header → Result Header
check_redirect lib [] host h = ok h
check_redirect lib (first ∷ via) host h =
    let sealed =
      (if text_beq host (last_host first via)
        then h
        else header_del lib header_totp (header_del lib (bytes "Authorization") h)) in
    if leb 10 (length (first ∷ via))
    then err (other (bytes "stopped after 10 redirects"))
    else ok sealed

module _ (lib : Codecs) where
  header_get-header_del :
      (h : Header) (key other_key : Text)
      → header_get lib (header_del lib key h) other_key ≡ (
          if text_beq (lib.canonical_key key) (lib.canonical_key other_key)
          then []
          else header_get lib h other_key)
  unfolding header_get
  header_get-header_del h key other_key =
      ground (arith, get-delete (lib.canonical_key key) (lib.canonical_key other_key) h)

  abbrev stripped : Header → Header
  stripped h = header_del lib header_totp (header_del lib (bytes "Authorization") h)

  followed :
      (first : Text) (via : List Text) (host : Text) (h sent : Header)
      → check_redirect lib (first ∷ via) host h ≡ ok sent
      → (leb 10 (length (first ∷ via)) ≡ false)
        × (text_beq host (last_host first via) ≡ true → h ≡ sent)
        × (text_beq host (last_host first via) ≡ false → stripped h ≡ sent)
  unfolding check_redirect
  followed first via host h sent e = ground arith

  stripped-authorization : (h : Header) → header_get lib (stripped h) (bytes "Authorization") ≡ []
  stripped-authorization h =
      let outer =
        header_get-header_del (header_del lib (bytes "Authorization") h) header_totp
          (bytes "Authorization") in
      let inner = header_get-header_del h (bytes "Authorization") (bytes "Authorization") in
      let same = text_beq_refl (lib.canonical_key (bytes "Authorization")) in ground arith

  stripped-totp : (h : Header) → header_get lib (stripped h) header_totp ≡ []
  stripped-totp h =
      let outer =
        header_get-header_del (header_del lib (bytes "Authorization") h) header_totp header_totp in
      let same = text_beq_refl (lib.canonical_key header_totp) in ground arith

  stripped-other :
      (h : Header) (key : Text)
      → text_beq (lib.canonical_key (bytes "Authorization")) (lib.canonical_key key) ≡ false
      → text_beq (lib.canonical_key header_totp) (lib.canonical_key key) ≡ false
      → header_get lib (stripped h) key ≡ header_get lib h key
  stripped-other h key p q =
      header_get-header_del (header_del lib (bytes "Authorization") h) header_totp key
      ∙ (rw q (header_get-header_del h (bytes "Authorization") key ∙ rw p refl))

  -- A redirect that is followed to another host than the one before carries neither the injected
  -- authorization nor the one-time code, every other header goes as it was, a redirect to the same
  -- host changes none, and no more than nine requests went before.
  pub check_redirect_sealed :
      (first : Text) (via : List Text) (host : Text) (h sent : Header)
      → check_redirect lib (first ∷ via) host h ≡ ok sent
      → (length (first ∷ via) < 10)
        × (text_beq host (last_host first via) ≡ true → sent ≡ h)
        × (text_beq host (last_host first via) ≡ false
            → (header_get lib sent (bytes "Authorization") ≡ [])
              × (header_get lib sent header_totp ≡ [])
              × ((key : Text)
                  → text_beq (lib.canonical_key (bytes "Authorization")) (lib.canonical_key key)
                    ≡ false
                  → text_beq (lib.canonical_key header_totp) (lib.canonical_key key) ≡ false
                  → header_get lib sent key ≡ header_get lib h key))
  check_redirect_sealed first via host h sent e =
      let (few, kept, cut) = followed first via host h sent e in
      (
        ground (arith, few),
        λ p. sym (kept p),
        λ p.
            let it = cut p in
            (
              rw (← it) (stripped-authorization h),
              rw (← it) (stripped-totp h),
              λ key q r. rw (← it) (stripped-other h key q r),
            ),
      )
