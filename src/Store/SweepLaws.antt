-- ===== src/Store/SweepLaws.antt =====
-- The sweep of internal/store/memory.go changes no answer that a caller can rely on.
use password_manager.Prelude.{
  ℕ, ◌≤◌, ◌≡◌, refl, ◌∙◌, ap, sym, true, false, Option, none, some, arith, is_some, is_ok,
  Option-cases, Bool-cases, inl, inr,
}
use password_manager.Prelude.Text.{Text, text_keys}
use password_manager.GoMap.{get, passing, get-keep}
use password_manager.Grant.{UrlLibrary, evaluate, has_expired}
use password_manager.Grant.Evaluation.{evaluate_no_grant, evaluate_expired}
use password_manager.Protocol.{ActionKind, Grant, Approval, Session, AuditEvent}
use password_manager.Store.{Memory, UseAuth, grant_key, session_hash_key}
use password_manager.Store.Grants.{use_auth, live_at, approval_of}
use password_manager.Store.Sessions.{session_error, use_auth_session, consume_session}
use password_manager.Store.Sweep.{sweep, keeps_session, keeps_grant, keeps_approval}
use password_manager.Store.WellFormed.{IsWellFormed}

-- A session that a sweep drops could not be used.
session_swept :
    (s : Session) (cut now : ℕ)
    → cut ≤ now
    → keeps_session cut s ≡ false
    → is_some (session_error s now) ≡ true
unfolding keeps_session session_error
session_swept s cut now h k = ground arith

module _ (cut now : ℕ) (m : Memory) (h : cut ≤ now) (w : IsWellFormed m) where
  grant_swept : (g : Grant) → keeps_grant cut g ≡ false → has_expired g.expires_at now ≡ true
  unfolding keeps_grant
  grant_swept g goes = ground arith

  abbrev swept : Memory
  swept = (sweep cut m).1

  approval_swept :
      (o : Option Approval) → live_at now (passing (keeps_approval cut) o) ≡ live_at now o
  unfolding keeps_approval
  approval_swept none = refl
  approval_swept (some a) = ground arith

  approval_of-swept : (o : Option Grant) → approval_of o now swept ≡ approval_of o now m
  unfolding sweep
  approval_of-swept none = refl
  approval_of-swept (some g) =
      ap (live_at now) (get-keep (keeps_approval cut) g.id m.approvals w.approvals_once)
      ∙ approval_swept (get g.id m.approvals)

  -- A sweep whose cutoff is not in the future changes no decision: the evaluation of what the store
  -- hands out for a Use call gives the same answer of allow, deny or need_approval before and after.
  pub sweep-evaluate :
      (lib : UrlLibrary) (agent item : Text) (action : ActionKind) (url : Text)
      → let decide = λ (auth : UseAuth).
        (evaluate lib (record {
          principal = auth.agent;
          item = auth.item;
          grant = auth.grant;
          action = action;
          target_url = url;
          approval = auth.approval;
          now = now;
        })).decision in
        decide (use_auth agent item now swept) ≡ decide (use_auth agent item now m)
  unfolding use_auth sweep
  sweep-evaluate lib agent item action url =
      let key = grant_key agent item in
      let kept : get key swept.grants ≡ passing (keeps_grant cut) (get key m.grants) =
        get-keep (keeps_grant cut) key m.grants w.grants_once in
      elim (Option-cases (get key m.grants)) [
        | inl missing ↦
            evaluate_no_grant lib _ (kept ∙ ap (passing (keeps_grant cut)) missing)
            ∙ sym (evaluate_no_grant lib _ missing)
        | inr (g, found) ↦ elim (Bool-cases (keeps_grant cut g)) [
          | inl stays ↦
              let same : get key swept.grants ≡ some g = ground (arith, kept, found, stays) in
              rw (same, found) (rw (approval_of-swept (some g)) refl)
          | inr goes ↦
              evaluate_no_grant lib _ (ground (arith, kept, found, goes))
              ∙ sym (evaluate_expired lib _ g found (grant_swept g goes))
        ]
      ]

  -- Nor does it change which sessions may be used.
  pub sweep-use_auth_session :
      (hash item : Text)
      → is_ok (use_auth_session hash item now swept) ≡ is_ok (use_auth_session hash item now m)
  unfolding use_auth_session sweep
  sweep-use_auth_session hash item =
      let key = session_hash_key hash in
      let kept = get-keep (keeps_session cut) key m.sessions w.sessions_once in
      elim (Option-cases (get key m.sessions)) [
        | inl missing ↦ ground (arith, kept, missing)
        | inr (s, found) ↦ ground (arith, kept, found, session_swept s cut now h)
      ]

  -- Nor which sessions may be consumed.
  pub sweep-consume_session :
      (hash : Text) (e : Option AuditEvent)
      → is_ok (consume_session hash now e swept).0 ≡ is_ok (consume_session hash now e m).0
  unfolding consume_session sweep
  sweep-consume_session hash e =
      let key = session_hash_key hash in
      let kept = get-keep (keeps_session cut) key m.sessions w.sessions_once in
      elim (Option-cases (get key m.sessions)) [
        | inl missing ↦ ground (arith, kept, missing)
        | inr (s, found) ↦ ground (arith, kept, found, session_swept s cut now h)
      ]
