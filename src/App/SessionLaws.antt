-- ===== src/App/SessionLaws.antt =====
-- Sessions of internal/app/session.go: what a created one is, and that its token signs in.
use password_manager.Prelude.{
  ℕ, ◌+◌, ◌/◌, ◌%◌, ◌≤◌, ◌<◌, ◌≡◌, refl, true, false, none, [], ◌∷◌, ◌++◌, length, All, All-append,
  Result, ok, arith, Bool-cases, inl, inr,
}
use mathlib.Core.Path.{sym, subst, ap, ◌∙◌}
use password_manager.Prelude.Text.{Text, text_keys}
use password_manager.Prelude.Int64.{modulus, int_lt, time_add}
use password_manager.Bytes.{trim_space, has_prefix}
use password_manager.Bytes.Plain.{Plain, trim_space-Plain}
use password_manager.Id.{is_hex}
use password_manager.Id.Names.{length-hex_encode}
use password_manager.GoMap.{get-put_self}
use password_manager.Protocol.{Principal, Session}
use password_manager.Store.{Memory, hex_encode, hex_digit, session_hash_key}
use password_manager.Store.Agents.{get_agent}
use password_manager.Store.Sessions.{put_session, session_by_hash, is_exhausted}
use password_manager.Store.Steps.{step}
use password_manager.App.{App, Toolbox, owns_vault}
use password_manager.App.Sessions.{
  create_session, session_of, session_prefix, is_session_token, is_hex_text, new_session_token,
  default_ttl, session_ttl_max,
}
use password_manager.App.SignIn.{principal_from_session, live_session}
use password_manager.App.Vault.{next, ◌>>=◌, pure, guard, given, reads, calls}

text_inj : (s t : Text) → ok s ≡ ok t → s ≡ t
text_inj s t e = cc

-- A lease is longer than no time and at most an hour.
default_ttl_bounds :
    (asked : ℕ)
    → asked < modulus
    → int_lt session_ttl_max (default_ttl asked) ≡ false
    → (0 < default_ttl asked) × (default_ttl asked ≤ session_ttl_max)
unfolding int_lt
default_ttl_bounds asked small h = elim (Bool-cases (int_lt 0 asked)) [
  | inl positive ↦ ground arith
  | inr other ↦ ground arith
]

-- What a session is made of.
abbrev pub IsFresh : App → Text → ℕ → ℕ → Session → Type 0
IsFresh a agent_id max_uses now s =
    (s.org_id ≡ a.org_id)
    × (s.agent_id ≡ agent_id)
    × (s.created_at ≡ now)
    × (now < s.expires_at)
    × (s.expires_at ≤ now + session_ttl_max)
    × (s.ttl ≤ s.max_ttl)
    × (s.max_uses ≡ max_uses)
    × (s.uses ≡ 0)
    × (s.revoked_at ≡ none)

session_of-IsFresh :
    (a : App) (id agent_id : Text) (ttl max_uses now : ℕ)
    → 0 < ttl
    → ttl ≤ session_ttl_max
    → IsFresh a agent_id max_uses now (session_of a id agent_id ttl max_uses now)
unfolding time_add
session_of-IsFresh a id agent_id ttl max_uses now pos most =
    (refl, refl, refl, ground arith, ground arith, omega (arith, most), refl, refl, refl)

-- The session that CreateSession returns, and the store that it leaves.
created :
    (a : App) (box : Toolbox) (actor : Principal) (agent_id : Text) (asked max_uses : ℕ)
    (secret name : Result Text) (now : ℕ) (m : Memory) (p : Principal) (s : Session) (token : Text)
    → get_agent agent_id m ≡ ok p
    → (create_session a box actor agent_id asked max_uses secret name now m).0 ≡ ok (s, token)
    → (owns_vault a actor ≡ ok true)
      × (p.revoked_at ≡ none)
      × (int_lt session_ttl_max (default_ttl asked) ≡ false)
      × (int_lt max_uses 0 ≡ false)
      × (new_session_token secret ≡ ok token)
      × (s ≡ session_of a s.id p.id (default_ttl asked) max_uses now)
      × ((create_session a box actor agent_id asked max_uses secret name now m).1
          ≡ put_session s (box.sha256 token) m)
unfolding create_session ◌>>=◌ next pure guard given reads calls step
created a box actor agent_id asked max_uses secret name now m p s token found done = ground arith

-- The token is four letters and sixty-four digits.
hex_digit-Plain : (n : ℕ) → n < 16 → Plain (hex_digit n) × (is_hex (hex_digit n) ≡ true)
unfolding hex_digit
hex_digit-Plain n h = ground arith

hex_encode-Plain : (b : Text) → All (λ c. c < 256) b → All Plain (hex_encode b)
unfolding hex_encode
hex_encode-Plain [] h = tt
hex_encode-Plain (c ∷ b) h = (
  (hex_digit-Plain (c / 16) (omega (arith, h.0))).0,
  ((hex_digit-Plain (c % 16) (omega arith)).0, hex_encode-Plain b h.1),
)

is_hex_text-hex_encode : (b : Text) → All (λ c. c < 256) b → is_hex_text (hex_encode b) ≡ true
unfolding is_hex_text hex_encode
is_hex_text-hex_encode [] h = refl
is_hex_text-hex_encode (c ∷ b) h =
    rw ((hex_digit-Plain (c / 16) (omega (arith, h.0))).1)
      (rw ((hex_digit-Plain (c % 16) (omega arith)).1) (is_hex_text-hex_encode b h.1))

abbrev token_of : Text → Text
token_of b = session_prefix ++ hex_encode b

token_of-Plain : (b : Text) → All (λ c. c < 256) b → All Plain (token_of b)
token_of-Plain b h =
    All-append Plain session_prefix (hex_encode b) (ground arith) (hex_encode-Plain b h)

-- The token that is made of 32 random bytes is read as a token, and has nothing to trim.
token_of_read :
    (b : Text) → length b ≡ 32 → All (λ c. c < 256) b → is_session_token (token_of b) ≡ true
unfolding is_session_token has_prefix
token_of_read b n h =
    rw (trim_space-Plain (token_of b) (token_of-Plain b h))
      (rw (is_hex_text-hex_encode b h) (ground (arith, length-hex_encode b)))

token_read :
    (b token : Text)
    → length b ≡ 32
    → All (λ c. c < 256) b
    → new_session_token (ok b) ≡ ok token
    → (trim_space token ≡ token) × (is_session_token token ≡ true)
unfolding new_session_token
token_read b token n h made =
    subst (λ t. (trim_space t ≡ t) × (is_session_token t ≡ true)) (text_inj (token_of b) token made)
      (trim_space-Plain (token_of b) (token_of-Plain b h), token_of_read b n h)

session_by_hash-put_session :
    (s : Session) (hash : Text) (m : Memory) → session_by_hash hash (put_session s hash m) ≡ ok s
unfolding session_by_hash put_session
session_by_hash-put_session s hash m =
    rw (get-put_self (session_hash_key hash) s m.sessions, session_by_hash) refl

live_session_fresh :
    (s : Session) (now : ℕ)
    → s.revoked_at ≡ none
    → s.uses ≡ 0
    → now < s.expires_at
    → live_session s now ≡ ok s
unfolding live_session is_exhausted
live_session_fresh s now live unused early = ground arith

get_agent-put_session :
    (id : Text) (s : Session) (hash : Text) (m : Memory)
    → get_agent id (put_session s hash m) ≡ get_agent id m
unfolding get_agent put_session
get_agent-put_session id s hash m = refl

-- A token whose session is live signs in as the session's agent.
signs_in :
    (box : Toolbox) (token : Text) (now : ℕ) (m : Memory) (s : Session) (p : Principal)
    → trim_space token ≡ token
    → is_session_token token ≡ true
    → session_by_hash (box.sha256 token) m ≡ ok s
    → live_session s now ≡ ok s
    → get_agent s.agent_id m ≡ ok p
    → p.revoked_at ≡ none
    → principal_from_session box token now m ≡ ok p
unfolding principal_from_session
signs_in box token now m s p same read found live owner active =
    rw same (rw read (rw found (rw live (rw owner (ground arith)))))

module _ (a : App) (box : Toolbox) (actor : Principal) (agent_id : Text) (asked max_uses : ℕ)
    (b : Text) (name : Result Text) (now : ℕ) (m : Memory) (p : Principal) (s : Session)
    (token : Text) where
  -- A session that is created is the agent's own, unused, and lives longer than no time and at most an
  -- hour; only the vault's owner creates one, and only for an agent that is not revoked.
  pub create_session_bounds :
      asked < modulus
      → get_agent agent_id m ≡ ok p
      → (create_session a box actor agent_id asked max_uses (ok b) name now m).0 ≡ ok (s, token)
      → (owns_vault a actor ≡ ok true) × (p.revoked_at ≡ none) × IsFresh a p.id max_uses now s
  create_session_bounds small found done =
      let (owns, live, short, uses, made, is, store) =
        created a box actor agent_id asked max_uses (ok b) name now m p s token found done in
      let (pos, most) = default_ttl_bounds asked small short in
      (
        owns,
        live,
        subst (IsFresh a p.id max_uses now) (sym is)
            (session_of-IsFresh a s.id p.id (default_ttl asked) max_uses now pos most),
      )

  -- Its token, of 32 random bytes, signs in as that agent until the session expires, where the store
  -- keeps agents under their ids.
  pub principal_from_session-create_session :
      (later : ℕ)
      → asked < modulus
      → length b ≡ 32
      → All (λ c. c < 256) b
      → get_agent agent_id m ≡ ok p
      → p.id ≡ agent_id
      → (create_session a box actor agent_id asked max_uses (ok b) name now m).0 ≡ ok (s, token)
      → later < s.expires_at
      → principal_from_session box token later
          (create_session a box actor agent_id asked max_uses (ok b) name now m).1
        ≡ ok p
  principal_from_session-create_session later small n h found keyed done early =
      let (owns, live, short, uses, made, is, store) =
        created a box actor agent_id asked max_uses (ok b) name now m p s token found done in
      let fresh = (create_session_bounds small found done).2 in
      let (same, read) = token_read b token n h made in
      subst (λ w. principal_from_session box token later w ≡ ok p) (sym store)
        (signs_in box token later _ s p same read
          (session_by_hash-put_session s (box.sha256 token) m)
          (live_session_fresh s later (fresh.8) (fresh.7) early)
          (get_agent-put_session s.agent_id s (box.sha256 token) m
            ∙ ap (λ id. get_agent id m) (fresh.1 ∙ keyed)
            ∙ found)
          live)
