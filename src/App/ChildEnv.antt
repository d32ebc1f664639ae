-- ===== src/App/ChildEnv.antt =====
-- ChildEnv and EnvName of internal/broker/env.go: the variables that a child process is given, with
-- the store in memory behind the broker.
use password_manager.Prelude.{
  ℕ, not, ◌||◌, Option, some, List, [], ◌∷◌, ◌++◌, map, nat_beq, Result, ok, err, Error, other,
  if◌then◌else◌,
}
use password_manager.Prelude.Text.{Text, bytes, text_beq, is_empty}
use password_manager.Protocol.{
  Principal, Item, Grant, Approval, AuditEvent, UseResult, Decision, Reason, env, injects,
}
use password_manager.Grant.{evaluate, is_agent}
use password_manager.Material.{Envelope, unpack, mint}
use password_manager.Store.Agents.{get_agent}
use password_manager.Store.Items.{get_item, get_secret}
use password_manager.Store.Grants.{list_grants, live_approval}
use password_manager.Broker.{is_allow}
use password_manager.Broker.OnMemory.{Outside, append_row}
use password_manager.App.{Toolbox}
use password_manager.App.Vault.{Vault, ◌>>=◌, ◌>>◌, pure, guard, reads}

-- strings.ReplaceAll(s, "-", "_")
unfoldable pub underscored : Text → Text
underscored = map (λ c. if nat_beq c b'-' then b'_' else c)

unfoldable pub env_name : Toolbox → Text → Text
env_name box name = box.to_upper (underscored name)

abbrev pub refresh_failed : Error
refresh_failed = other (bytes "material: oauth refresh failed")

abbrev pub filled_token : Result Text → Result Text
filled_token (err e) = err e
filled_token (ok token) = if is_empty token then err refresh_failed else ok token

-- The envelope's own token, or a fresh one for an envelope that has a refresh token.
unfoldable pub token_value : Outside → Envelope → Result Text
token_value out e =
    if is_empty e.refresh
    then ok e.token
    else if is_empty e.token_url || is_empty e.client_id
    then err refresh_failed
    else filled_token (out.refresh e)

abbrev pub env_event : Principal → Item → UseResult → ℕ → AuditEvent
env_event p item dec now = record {
  time = now;
  org_id = p.org_id;
  agent_id = p.id;
  item_id = item.id;
  action = env;
  decision = dec.decision;
  reason = dec.reason;
  approval_id = dec.approval_id;
}

abbrev pub denied_event : AuditEvent → Reason → AuditEvent
denied_event e reason = record e { decision = Decision.deny; reason = reason }

-- `_ = b.Store.AppendAudit(event)`: the error is dropped.
unfoldable pub try_append : Outside → AuditEvent → Vault (Unit {0})
try_append out e m = (ok tt, (append_row out e m).1)

module _ (box : Toolbox) (out : Outside) (p : Principal) (now : ℕ) where
  -- The variable of a minted code; none where it fails or is empty.
  abbrev pub code_pair : Text → Result Text → List Text
  code_pair name (err e) = []
  code_pair name (ok code) = if is_empty code then [] else (name ++ bytes "_TOTP=" ++ code) ∷ []

  abbrev pub totp_pair : Text → Envelope → List Text
  totp_pair name e = if is_empty e.totp then [] else code_pair name (mint box.codecs e.totp now)

  -- What an allowed grant adds, and its row.
  unfoldable pub pairs_of : Item → AuditEvent → Envelope → Result Text → Vault (List Text)
  unfolding try_append
  pairs_of item event e (err failure) =
      try_append out (denied_event event Reason.oauth_failed) >> pure []
  pairs_of item event e (ok value) =
      if is_empty value
      then try_append out (denied_event event Reason.empty_secret) >> pure []
      else try_append out event
        >> pure
            ((env_name box item.name ++ bytes "=" ++ value) ∷ totp_pair (env_name box item.name) e)

  unfoldable pub judged_pairs : Item → UseResult → Vault (List Text)
  unfolding pairs_of try_append token_value
  judged_pairs item dec =
      if not (is_allow dec.decision)
      then try_append out (env_event p item dec now) >> pure []
      else reads (get_secret item.id) >>= λ secret.
          pairs_of item (env_event p item dec now) (unpack box.codecs secret)
            (token_value out (unpack box.codecs secret))

  abbrev pub judge : Item → Grant → Option Approval → UseResult
  judge item g approval = evaluate box.urls (record {
    principal = p;
    item = item;
    grant = some g;
    action = env;
    target_url = [];
    approval = approval;
    now = now;
  })

  -- One turn of the loop.
  unfoldable pub grant_pairs : Grant → Vault (List Text)
  unfolding judged_pairs
  grant_pairs g =
      if not (text_beq g.agent_id p.id)
      then pure []
      else reads (get_item g.item_id) >>= λ item.
          if not (injects item.kind) || item.archived
          then pure []
          else reads (λ m. ok (live_approval g.id now m)) >>= λ approval.
              judged_pairs item (judge item g approval)

  unfoldable pub all_pairs : List Grant → Vault (List Text)
  unfolding grant_pairs
  all_pairs [] = pure []
  all_pairs (g ∷ grants) =
      grant_pairs g >>= λ pairs. all_pairs grants >>= λ rest. pure (pairs ++ rest)

  unfoldable pub child_env : Vault (List Text)
  unfolding all_pairs
  child_env =
      guard (is_agent p.kind) (other (bytes "broker: human cannot run"))
      >> (reads (λ m. ok (list_grants m)) >>= all_pairs)

-- App.ChildEnv
unfoldable pub agent_env : Toolbox → Outside → Text → ℕ → Vault (List Text)
agent_env box out agent_id now = reads (get_agent agent_id) >>= λ p. child_env box out p now
