-- ===== src/Workload/Bound.antt =====
-- Whom internal/workload/workload.go lets in.
use password_manager.Prelude.{
  ◌≡◌, Option, none, some, List, [], ◌∷◌, ok, Error, arith, Bool-cases, Option-cases, Result-cases,
  inl, inr,
}
use password_manager.Prelude.Text.{Text, text_beq, text_beq_iff}
use password_manager.Bytes.{trim_space}
use password_manager.Protocol.{Principal, Workload}
use password_manager.Store.{Memory}
use password_manager.Store.Agents.{get_agent, get_workload, workloads_for_issuer}
use password_manager.Workload.{
  Oidc, subject, has_audience, matches, bound_agent, agent_of, workload_agent, unverified_issuer,
}

-- The token was verified for the issuer and the audience of a workload, and the verified subject is
-- bound, with that audience, to this agent of the store.
pub record IsBound (lib : Oidc) (iss raw : Text) (m : Memory) (p : Principal) : Type 0 where
  pub audience : Text
  pub verified_subject : Text
  pub workload : Workload
  pub verified : lib.verify iss audience raw ≡ ok verified_subject
  pub registered : get_workload iss verified_subject m ≡ some workload
  pub same_audience : workload.audience ≡ audience
  pub agent : get_agent workload.agent_id m ≡ ok p

matches_sound :
    (o : Option Workload) (audience : Text) (hit : Workload)
    → matches o audience ≡ some hit
    → (o ≡ some hit) × (hit.audience ≡ audience)
matches_sound none audience hit h = cc
matches_sound (some w) audience hit h = elim (Bool-cases (text_beq w.audience audience)) [
  | inl same ↦
      let it : some w ≡ some hit = ground (arith, h) in
      (it, ground (arith, it, text_beq_iff w.audience audience))
  | inr differs ↦ ground (arith, h)
]

subject_verified :
    (lib : Oidc) (iss audience raw sub : Text)
    → subject lib iss audience raw ≡ ok sub
    → lib.verify iss audience raw ≡ ok sub
unfolding subject
subject_verified lib iss audience raw sub h = ground arith

module _ (lib : Oidc) (iss raw : Text) (m : Memory) where
  bound_agent-IsBound :
      (bound : List Workload) (seen : List Text) (last : Option Error) (p : Principal)
      → bound_agent lib iss raw bound seen last m ≡ ok p
      → IsBound lib iss raw m p
  unfolding bound_agent
  bound_agent-IsBound [] seen last p h = cc
  bound_agent-IsBound (w ∷ bound) seen last p h = elim (Bool-cases (has_audience w.audience seen)) [
    | inl known ↦ bound_agent-IsBound bound seen last p (ground (arith, h))
    | inr fresh ↦ elim (Result-cases (subject lib iss w.audience raw)) [
      | inr (e, failed) ↦
          bound_agent-IsBound bound (w.audience ∷ seen) (some e) p (ground (arith, h, failed))
      | inl (sub, verified) ↦ elim (Option-cases (matches (get_workload iss sub m) w.audience)) [
        | inl unbound ↦
            bound_agent-IsBound bound (w.audience ∷ seen) last p
              (ground (arith, h, verified, unbound))
        | inr (hit, bound_here) ↦
            let (registered, same) =
              matches_sound (get_workload iss sub m) w.audience hit bound_here in
            record {
              audience = w.audience;
              verified_subject = sub;
              workload = hit;
              verified = subject_verified lib iss w.audience raw sub verified;
              registered = registered;
              same_audience = same;
              agent = ground (arith, h, verified, bound_here);
            }
      ]
    ]
  ]

-- Whom the workload checker lets in is an agent of the store to which the token's verified subject is
-- bound: the token was verified by the issuer's own verifier for the audience of that binding.
pub workload_agent-IsBound :
    (lib : Oidc) (raw_token iss : Text) (m : Memory) (p : Principal)
    → unverified_issuer lib (trim_space raw_token) ≡ ok iss
    → workload_agent lib raw_token m ≡ ok p
    → IsBound lib iss (trim_space raw_token) m p
unfolding workload_agent agent_of
workload_agent-IsBound lib raw_token iss m p named h =
    let b =
      bound_agent-IsBound lib iss (trim_space raw_token) m (workloads_for_issuer iss m) [] none p in
    b (ground (arith, named, h))
