-- ===== src/App/Service.antt =====
-- The operations of internal/app/app.go and session.go that may change the store, as requests that
-- the facade serves one after the other.
use password_manager.Prelude.{ℕ, Bool, Option, List, [], ◌∷◌, Result}
use password_manager.Prelude.Text.{Text}
use password_manager.Protocol.{Principal, GrantLevel, Fetch}
use password_manager.Store.{Memory}
use password_manager.Broker.OnMemory.{Outside}
use password_manager.App.{App, Toolbox}
use password_manager.App.Agents.{add_agent, revoke_own_agent, bind_workload}
use password_manager.App.Items.{
  ItemOpts, Row, put_item_opts, put_item_for, import_items, update_item, archive_named,
  delete_named, attach_totp,
}
use password_manager.App.Grants.{grant_until, approve, approve_oidc}
use password_manager.App.Sessions.{create_session, revoke_own_session, renew_own_session}
use password_manager.App.ChildEnv.{agent_env}
use password_manager.App.Uses.{use_fetch, use_fetch_session}

pub data Request : Type 0 where
  adds_agent : Text → Request
  revokes_agent : Principal → Text → Request
  binds_workload : Text → Text → Text → Text → Request
  puts_item : ItemOpts → Result Text → Request
  puts_item_for : Principal → ItemOpts → Result Text → Request
  imports : Principal → List (Result Text × Result Text × Row) → Request
  updates : Text → Option (List Text) → List Text → Option (List Text) → Text → Request
  archives : Text → Request
  deletes : Text → Request
  attaches_totp : Principal → Text → Text → Request
  grants_until : Text → Text → GrantLevel → Option ℕ → Request
  approves : Text → ℕ → Text → Request
  approves_oidc : Text → Text → ℕ → Text → Request
  creates_session : Principal → Text → ℕ → ℕ → Result Text → Result Text → Request
  revokes_session : Principal → Text → Request
  renews_session : Principal → Text → Request
  runs_child : Text → Request
  uses : Bool → Text → Text → Fetch → Request
  uses_session : Bool → Text → Text → Fetch → Request

module _ (a : App) (box : Toolbox) (out : Outside) where
  -- The store after a request at a time.
  unfoldable pub serve : Request → ℕ → Memory → Memory
  serve (adds_agent name) now m = (add_agent a name m).1
  serve (revokes_agent actor id) now m = (revoke_own_agent a actor id now m).1
  serve (binds_workload id issuer subject audience) now m =
      (bind_workload id issuer subject audience m).1
  serve (puts_item o random) now m = (put_item_opts a box o random now m).1
  serve (puts_item_for p o random) now m = (put_item_for a box p o random now m).1
  serve (imports p rows) now m = (import_items a box p rows now m).1
  serve (updates name uris added tags login) now m =
      (update_item a box name uris added tags login now m).1
  serve (archives name) now m = (archive_named name m).1
  serve (deletes name) now m = (delete_named name m).1
  serve (attaches_totp p id seed) now m = (attach_totp a box p id seed now m).1
  serve (grants_until grantee item level expires) now m =
      (grant_until a grantee item level expires m).1
  serve (approves grant ttl id) now m = (approve a grant ttl id now m).1
  serve (approves_oidc grant token ttl id) now m = (approve_oidc a grant token ttl id now m).1
  serve (creates_session actor id ttl max_uses secret name) now m =
      (create_session a box actor id ttl max_uses secret name now m).1
  serve (revokes_session actor id) now m = (revoke_own_session a box actor id now m).1
  serve (renews_session actor id) now m = (renew_own_session a box actor id now m).1
  serve (runs_child id) now m = (agent_env box out id now m).1
  serve (uses full agent_id item f) now m = (use_fetch box out full agent_id item f now m).1.state
  serve (uses_session full token item f) now m =
      (use_fetch_session box out full token item f now m).1.state

  unfoldable pub serve_all : List (Request × ℕ) → Memory → Memory
  serve_all [] m = m
  serve_all ((r, now) ∷ rest) m = serve_all rest (serve r now m)
