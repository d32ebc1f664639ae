-- ===== src/App/Refinement.antt =====
-- internal/app/app.go and session.go over internal/store/memory.go: whatever the facade serves, the
-- store changes through its own calls.
use password_manager.Prelude.{ℕ, Option, List, [], ◌∷◌, Result, ok, err}
use password_manager.Prelude.Text.{Text}
use password_manager.Protocol.{Principal, Item, Grant, GrantLevel, AuditEvent, UseResult}
use password_manager.Material.{Envelope}
use password_manager.Store.{Memory, new_memory}
use password_manager.Store.Reaches.{Reaches, same, Reaches-trans, Reaches-IsWellFormed}
use password_manager.Store.WellFormed.{IsWellFormed}
use password_manager.Store.WellFormed.Runs.{new_memory-IsWellFormed}
use password_manager.Broker.OnMemory.{Outside}
use password_manager.App.{App, Toolbox}
use password_manager.App.Runs.{
  Runs, Runs-bind, Runs-archive_call, Runs-delete_call, Runs-given, Runs-pure, run_rules,
}
use password_manager.App.Agents.{add_agent, revoke_own_agent, bind_workload}
use password_manager.App.Items.{
  ItemOpts, Row, put_item_opts, put_item_for, import_rows, import_items, update_item, attach_totp,
}
use password_manager.App.Grants.{grant_until, broker_approve, approve, approve_oidc}
use password_manager.App.Sessions.{create_session, revoke_own_session, renew_own_session}
use password_manager.App.ChildEnv.{
  try_append, agent_env, child_env, all_pairs, grant_pairs, judged_pairs, pairs_of,
}
use password_manager.Broker.Moves.{append_row-Reaches, use_call-Moves, use_session-Moves}
use password_manager.App.Uses.{
  use_fetch, use_fetch_session, libraries_of, caller_of, fetch_request, from_store,
}
use password_manager.App.Service.{
  Request, adds_agent, revokes_agent, binds_workload, puts_item, puts_item_for, imports, updates,
  archives, deletes, attaches_totp, grants_until, approves, approves_oidc, creates_session,
  revokes_session, renews_session, runs_child, uses, uses_session, serve, serve_all,
}

module _ (a : App) (box : Toolbox) where
  add_agent-Runs : (name : Text) → Runs (add_agent a name)
  unfolding add_agent
  add_agent-Runs name = search run_rules depth 30

  revoke_own_agent-Runs : (p : Principal) (id : Text) (now : ℕ) → Runs (revoke_own_agent a p id now)
  unfolding revoke_own_agent
  revoke_own_agent-Runs p id now = search run_rules depth 30

  put_item_opts-Runs :
      (o : ItemOpts) (random : Result Text) (now : ℕ) → Runs (put_item_opts a box o random now)
  unfolding put_item_opts
  put_item_opts-Runs o random now = search run_rules depth 30

  put_item_for-Runs :
      (p : Principal) (o : ItemOpts) (random : Result Text) (now : ℕ)
      → Runs (put_item_for a box p o random now)
  unfolding put_item_for
  put_item_for-Runs p o random now = search (run_rules, put_item_opts-Runs) depth 30

  import_rows-Runs :
      (rows : List (Result Text × Result Text × Row)) (now : ℕ) → Runs (import_rows a box rows now)
  unfolding import_rows
  import_rows-Runs [] now = search run_rules depth 30
  import_rows-Runs ((random, unused, r) ∷ rows) now = Runs-bind _ _ (Runs-given _) λ id.
      Runs-bind _ _ (put_item_opts-Runs _ unused now)
        λ i. Runs-bind _ _ (import_rows-Runs rows now) λ names. Runs-pure _

  import_items-Runs :
      (p : Principal) (rows : List (Result Text × Result Text × Row)) (now : ℕ)
      → Runs (import_items a box p rows now)
  unfolding import_items
  import_items-Runs p rows now = search (run_rules, import_rows-Runs) depth 30

  update_item-Runs :
      (name : Text) (uris : Option (List Text)) (added : List Text) (tags : Option (List Text))
      (login : Text) (now : ℕ)
      → Runs (update_item a box name uris added tags login now)
  unfolding update_item
  update_item-Runs name uris added tags login now = search run_rules depth 30

  attach_totp-Runs :
      (p : Principal) (id seed : Text) (now : ℕ) → Runs (attach_totp a box p id seed now)
  unfolding attach_totp
  attach_totp-Runs p id seed now = search run_rules depth 30

  grant_until-Runs :
      (grantee item : Text) (level : GrantLevel) (expires : Option ℕ)
      → Runs (grant_until a grantee item level expires)
  unfolding grant_until
  grant_until-Runs grantee item level expires = search run_rules depth 30

  approve-Runs : (grant : Text) (ttl : ℕ) (id : Text) (now : ℕ) → Runs (approve a grant ttl id now)
  unfolding approve broker_approve
  approve-Runs grant ttl id now = search run_rules depth 30

  approve_oidc-Runs :
      (grant token : Text) (ttl : ℕ) (id : Text) (now : ℕ)
      → Runs (approve_oidc a grant token ttl id now)
  unfolding approve_oidc broker_approve
  approve_oidc-Runs grant token ttl id now = search run_rules depth 30

  module _ (actor : Principal) where
    create_session-Runs :
        (id : Text) (ttl max_uses : ℕ) (secret name : Result Text) (now : ℕ)
        → Runs (create_session a box actor id ttl max_uses secret name now)
    unfolding create_session
    create_session-Runs id ttl max_uses secret name now = search run_rules depth 30

    revoke_own_session-Runs : (id : Text) (now : ℕ) → Runs (revoke_own_session a box actor id now)
    unfolding revoke_own_session
    revoke_own_session-Runs id now = search run_rules depth 30

    renew_own_session-Runs : (id : Text) (now : ℕ) → Runs (renew_own_session a box actor id now)
    unfolding renew_own_session
    renew_own_session-Runs id now = search run_rules depth 30

bind_workload-Runs :
    (id issuer subject audience : Text) → Runs (bind_workload id issuer subject audience)
unfolding bind_workload
bind_workload-Runs id issuer subject audience = search run_rules depth 30

try_append-Runs : (out : Outside) (e : AuditEvent) → Runs (try_append out e)
unfolding try_append
try_append-Runs out e = record { reaches = λ m. append_row-Reaches out e m }

module _ (box : Toolbox) (out : Outside) (p : Principal) (now : ℕ) where
  pairs_of-Runs :
      (item : Item) (event : AuditEvent) (e : Envelope) (value : Result Text)
      → Runs (pairs_of box out p now item event e value)
  unfolding pairs_of
  pairs_of-Runs item event e (ok value) = search (run_rules, try_append-Runs) depth 30
  pairs_of-Runs item event e (err failure) = search (run_rules, try_append-Runs) depth 30

  judged_pairs-Runs : (item : Item) (dec : UseResult) → Runs (judged_pairs box out p now item dec)
  unfolding judged_pairs
  judged_pairs-Runs item dec = search (run_rules, try_append-Runs, pairs_of-Runs) depth 30

  grant_pairs-Runs : (g : Grant) → Runs (grant_pairs box out p now g)
  unfolding grant_pairs
  grant_pairs-Runs g = search (run_rules, judged_pairs-Runs) depth 30

  all_pairs-Runs : (grants : List Grant) → Runs (all_pairs box out p now grants)
  unfolding all_pairs
  all_pairs-Runs [] = search run_rules depth 30
  all_pairs-Runs (g ∷ grants) =
      Runs-bind _ _ (grant_pairs-Runs g)
        λ pairs. Runs-bind _ _ (all_pairs-Runs grants) λ rest. Runs-pure _

agent_env-Runs :
    (box : Toolbox) (out : Outside) (id : Text) (now : ℕ) → Runs (agent_env box out id now)
unfolding agent_env child_env
agent_env-Runs box out id now = search (run_rules, all_pairs-Runs) depth 30

module _ (a : App) (box : Toolbox) (out : Outside) where
  -- Whatever request the facade serves, and whether it succeeds or fails, the store that it leaves is
  -- one that a sequence of the store's own calls leads to: no operation writes past them.
  pub serve-Reaches : (r : Request) (now : ℕ) (m : Memory) → Reaches m (serve a box out r now m)
  unfolding serve
  serve-Reaches (adds_agent name) now m = (add_agent-Runs a box name).reaches m
  serve-Reaches (revokes_agent p id) now m = (revoke_own_agent-Runs a box p id now).reaches m
  serve-Reaches (binds_workload id i s w) now m = (bind_workload-Runs id i s w).reaches m
  serve-Reaches (puts_item o random) now m = (put_item_opts-Runs a box o random now).reaches m
  serve-Reaches (puts_item_for p o random) now m =
      (put_item_for-Runs a box p o random now).reaches m
  serve-Reaches (imports p rows) now m = (import_items-Runs a box p rows now).reaches m
  serve-Reaches (updates name uris added tags login) now m =
      (update_item-Runs a box name uris added tags login now).reaches m
  serve-Reaches (archives name) now m = (Runs-archive_call name).reaches m
  serve-Reaches (deletes name) now m = (Runs-delete_call name).reaches m
  serve-Reaches (attaches_totp p id seed) now m = (attach_totp-Runs a box p id seed now).reaches m
  serve-Reaches (grants_until grantee item level expires) now m =
      (grant_until-Runs a box grantee item level expires).reaches m
  serve-Reaches (approves grant ttl id) now m = (approve-Runs a box grant ttl id now).reaches m
  serve-Reaches (approves_oidc grant token ttl id) now m =
      (approve_oidc-Runs a box grant token ttl id now).reaches m
  serve-Reaches (creates_session p id ttl times secret name) now m =
      (create_session-Runs a box p id ttl times secret name now).reaches m
  serve-Reaches (revokes_session p id) now m = (revoke_own_session-Runs a box p id now).reaches m
  serve-Reaches (renews_session p id) now m = (renew_own_session-Runs a box p id now).reaches m
  serve-Reaches (runs_child id) now m = (agent_env-Runs box out id now).reaches m
  serve-Reaches (uses full agent_id item f) now m =
      unfold use_fetch in
      (use_call-Moves (libraries_of box) out full (caller_of agent_id) (fetch_request item f)
          now).reaches
        (from_store out m)
  serve-Reaches (uses_session full token item f) now m =
      unfold use_fetch_session in
      (use_session-Moves (libraries_of box) out full (box.sha256 token) (fetch_request item f)
          now).reaches
        (from_store out m)

  pub serve_all-Reaches :
      (rs : List (Request × ℕ)) (m : Memory) → Reaches m (serve_all a box out rs m)
  unfolding serve_all
  serve_all-Reaches [] m = same
  serve_all-Reaches ((r, now) ∷ rs) m =
      Reaches-trans (serve-Reaches r now m) (serve_all-Reaches rs (serve a box out r now m))

  -- In every state that the facade leaves of a new store, whatever requests it served and whether
  -- they succeeded, each map has a key once, each item stands under its own id, and an id has an item
  -- exactly when it has a secret.
  pub serve_all-IsWellFormed :
      (rs : List (Request × ℕ)) → IsWellFormed (serve_all a box out rs new_memory)
  serve_all-IsWellFormed rs =
      Reaches-IsWellFormed (serve_all-Reaches rs new_memory) new_memory-IsWellFormed
