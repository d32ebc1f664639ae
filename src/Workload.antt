-- ===== src/Workload.antt =====
-- internal/workload/workload.go: the agent that an external identity token is bound to. The base64
-- decoder, the JSON library and the OIDC verifier are parameters; the cache of providers, which the
-- verifier is reached by, is left out.
pub mod Bound
use password_manager.Prelude.{
  ℕ, Bool, true, false, not, ◌&&◌, ◌||◌, Option, none, some, List, [], ◌∷◌, Result, ok, err, Error,
  wrap, other, nat_beq, if◌then◌else◌,
}
use password_manager.Prelude.Text.{Text, bytes, text_beq, is_empty}
use password_manager.Bytes.{trim_space}
use password_manager.Protocol.{Principal, Workload}
use password_manager.Store.{Memory}
use password_manager.Store.Agents.{get_agent, get_workload, workloads_for_issuer}

pub record Oidc : Type 0 where
  -- base64.RawURLEncoding.DecodeString, and the issuer of json.Unmarshal
  pub decode : Text → Option Text
  pub issuer_claim : Text → Option Text
  -- the verified subject claim of a token, for an issuer and an audience
  pub verify : Text → Text → Text → Result Text

-- strings.Split(raw, "."): the part up to the first dot.
unfoldable pub first_part : Text → Text
first_part [] = []
first_part (c ∷ s) = let rest = first_part s in if nat_beq c b'.' then [] else c ∷ rest

-- parts[1], if there are two.
unfoldable pub second_part : Text → Option Text
unfolding first_part
second_part [] = none
second_part (c ∷ s) =
    let rest = second_part s in if nat_beq c b'.' then some (first_part s) else rest

abbrev pub malformed : Error
malformed = other (bytes "workload: malformed token")

abbrev pub missing_issuer : Error
missing_issuer = other (bytes "workload: missing issuer")

abbrev pub claimed : Option Text → Result Text
claimed none = err missing_issuer
claimed (some iss) = if is_empty iss then err missing_issuer else ok iss

abbrev pub decoded : Oidc → Option Text → Result Text
decoded lib none = err malformed
decoded lib (some payload) = claimed (lib.issuer_claim payload)

unfoldable pub unverified_issuer : Oidc → Text → Result Text
unverified_issuer lib raw = elim (second_part raw) [
  | none ↦ err malformed
  | some part ↦ decoded lib (lib.decode part)
]

abbrev pub filled_subject : Result Text → Result Text
filled_subject (err e) = err e
filled_subject (ok sub) =
    if is_empty sub then err (other (bytes "workload: empty subject")) else ok sub

unfoldable pub subject : Oidc → Text → Text → Text → Result Text
subject lib issuer audience raw = filled_subject (lib.verify issuer audience raw)

unfoldable pub has_audience : Text → List Text → Bool
has_audience a [] = false
has_audience a (b ∷ seen) = text_beq a b || has_audience a seen

abbrev pub matches : Option Workload → Text → Option Workload
matches none audience = none
matches (some hit) audience = if text_beq hit.audience audience then some hit else none

abbrev pub unbound : Option Error → Error
unbound none = other (bytes "workload: subject not bound")
unbound (some e) = wrap (bytes "workload") e

-- The loop over the workloads of the issuer, one turn for each audience. `last` is the latest failure of
-- the verifier, which does not end the loop.
module _ (lib : Oidc) (iss raw : Text) where
  unfoldable pub bound_agent : List Workload → List Text → Option Error → Memory → Result Principal
  unfolding has_audience subject
  bound_agent [] seen last m = err (unbound last)
  bound_agent (w ∷ bound) seen last m =
      let skipped = bound_agent bound seen last m in
      let next = bound_agent bound (w.audience ∷ seen) last m in
      if has_audience w.audience seen then skipped else elim (subject lib iss w.audience raw) [
        | err e ↦ bound_agent bound (w.audience ∷ seen) (some e) m
        | ok sub ↦ elim (matches (get_workload iss sub m) w.audience) [
          | none ↦ next
          | some hit ↦ get_agent hit.agent_id m
        ]
      ]

abbrev pub no_workloads : List Workload → Bool
no_workloads [] = true
no_workloads (w ∷ ws) = false

unfoldable pub agent_of : Oidc → Text → Text → Memory → Result Principal
agent_of lib iss raw m =
    if no_workloads (workloads_for_issuer iss m)
    then err (other (bytes "workload: issuer not trusted"))
    else bound_agent lib iss raw (workloads_for_issuer iss m) [] none m

-- Checker.Agent
unfoldable pub workload_agent : Oidc → Text → Memory → Result Principal
workload_agent lib raw_token m =
    let raw = trim_space raw_token in
    elim (unverified_issuer lib raw) [ err e ↦ err e | ok iss ↦ agent_of lib iss raw m ]
