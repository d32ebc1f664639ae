-- ===== src/App/Strangers.antt =====
-- What internal/app/app.go and session.go let someone do who does not own the vault.
use password_manager.Prelude.{
  ℕ, ◌≡◌, ◌≢◌, inl, inr, refl, Bool, true, false, Option, none, some, List, Result, ok, err, Error,
  arith, Bool-cases, sym, ◌∙◌, ap,
}
use mathlib.Core.Path.{subst}
use password_manager.Prelude.Text.{Text, text_beq_iff, text_keys}
use password_manager.Protocol.{Principal, Item, OwnerKind, user, no_owner, org, other_owner}
use password_manager.Store.{Memory}
use password_manager.Broker.OnMemory.{Outside}
use password_manager.App.{
  App, Toolbox, owns_vault, may_write_item, owned_by, or_org_item, is_user, is_human,
}
use password_manager.App.Vault.{Vault, ◌>>=◌, guard, given}
use password_manager.App.Agents.{revoke_own_agent}
use password_manager.App.Items.{
  ItemOpts, Row, put_item_opts, put_item_for, opts_of, import_items, attach_totp, item_of, owner_of,
}
use password_manager.App.Sessions.{create_session, revoke_own_session, renew_own_session}
use password_manager.App.Service.{
  Request, revokes_agent, puts_item_for, imports, attaches_totp, creates_session, revokes_session,
  renews_session, adds_agent, binds_workload, puts_item, updates, archives, deletes, grants_until,
  approves, approves_oidc, runs_child, uses, uses_session, serve,
}
use password_manager.App.Spares.{
  IsSpared, Spares, Spares-guard, Spares-given, Spares-reads, Spares-put, Spares-put_then,
}

-- Who asks for it, where the call is told.
abbrev pub asked_by : Request → Option Principal
asked_by (revokes_agent p id) = some p
asked_by (puts_item_for p o random) = some p
asked_by (imports p rows) = some p
asked_by (attaches_totp p id seed) = some p
asked_by (creates_session p id ttl max_uses secret name) = some p
asked_by (revokes_session p id) = some p
asked_by (renews_session p id) = some p
asked_by _ = none

module _ (a : App) (box : Toolbox) (p : Principal) (stranger : owns_vault a p ≢ ok true) where
  -- What asks for the vault's owner does nothing.
  owner_only :
      {A : Type 0} (e : Error) (v : Vault A)
      → Spares p (given (owns_vault a p) >>= λ owns. guard owns e >>= λ u. v)
  owner_only e v =
      Spares-given p _ _
        λ owns told. Spares-guard p owns e v λ owner. absurd (stranger (told ∙ ap ok owner))

  put_item_opts-Spares :
      (o : ItemOpts) (random : Result Text) (now : ℕ)
      → Spares p
          (put_item_opts a box (record o { owner = record { kind = user; id = p.id } }) random now)
  unfolding put_item_opts item_of owner_of
  put_item_opts-Spares o random now = Spares-guard p _ _ _ λ named. Spares-given p _ _ λ id found.
      Spares-guard p _ _ _ λ full.
        Spares-given p _ _
          λ blob packed. Spares-given p _ _ λ sealed joined. Spares-put_then p _ sealed now _ refl

  opts_of-Spares :
      (o : ItemOpts) (random : Result Text) (now : ℕ) (owns : Bool)
      → owns_vault a p ≡ ok owns
      → Spares p (put_item_opts a box (opts_of a box p owns o) random now)
  opts_of-Spares o random now true told = absurd (stranger told)
  opts_of-Spares o random now false told = put_item_opts-Spares o random now

  put_item_for-Spares :
      (o : ItemOpts) (random : Result Text) (now : ℕ) → Spares p (put_item_for a box p o random now)
  unfolding put_item_for
  put_item_for-Spares o random now =
      Spares-guard p _ _ _
        λ human. Spares-given p _ _ λ owns told. opts_of-Spares o random now owns told

  user_kind : (k : OwnerKind) → is_user k ≡ true → k ≡ user
  user_kind user h = refl
  user_kind no_owner h = cc
  user_kind org h = cc
  user_kind (other_owner k) h = cc

  own_item : (i : Item) → owned_by p i ≡ true → i.owner ≡ record { kind = user; id = p.id }
  own_item i mine =
      rw (user_kind i.owner.kind (ground (arith, mine)))
        (rw ((text_beq_iff i.owner.id p.id).0 (ground (arith, mine))) refl)

  org_item_owner : (i : Item) (r : Result Bool) → or_org_item i r ≡ ok true → r ≡ ok true
  org_item_owner i (err e) h = cc
  org_item_owner i (ok true) h = refl
  org_item_owner i (ok false) h = cc

  person_own :
      (i : Item)
      → is_human p.kind ≡ true
      → may_write_item a p i ≡ ok true
      → i.owner ≡ record { kind = user; id = p.id }
  unfolding may_write_item
  person_own i person may = elim (Bool-cases (owned_by p i)) [
    | inl mine ↦ own_item i mine
    | inr foreign ↦
        absurd (stranger (org_item_owner i (owns_vault a p) (ground (arith, person, foreign, may))))
  ]

  may_write_own :
      (i : Item) → may_write_item a p i ≡ ok true → i.owner ≡ record { kind = user; id = p.id }
  unfolding may_write_item
  may_write_own i may = elim (Bool-cases (is_human p.kind)) [
    | inl person ↦ person_own i person may
    | inr other ↦ ground (arith, other, may)
  ]

  attach_totp-Spares : (id seed : Text) (now : ℕ) → Spares p (attach_totp a box p id seed now)
  unfolding attach_totp
  attach_totp-Spares id seed now = Spares-guard p _ _ _ λ human. Spares-guard p _ _ _ λ seeded.
      Spares-reads p _ _ λ i. Spares-given p _ _ λ may told. Spares-guard p may _ _ λ yes_may.
        Spares-guard p _ _ _ λ bare. Spares-guard p _ _ _ λ kind. Spares-reads p _ _ λ secret.
          Spares-given p _ _ λ blob packed.
            Spares-given p _ _
              λ sealed joined. Spares-put p _ sealed now (may_write_own i (told ∙ ap ok yes_may))

  revoke_own_agent-Spares : (id : Text) (now : ℕ) → Spares p (revoke_own_agent a p id now)
  unfolding revoke_own_agent
  revoke_own_agent-Spares id now = owner_only _ _

  import_items-Spares :
      (rows : List (Result Text × Result Text × Row)) (now : ℕ)
      → Spares p (import_items a box p rows now)
  unfolding import_items
  import_items-Spares rows now = Spares-guard p _ _ _ λ human. owner_only _ _

  create_session-Spares :
      (id : Text) (ttl max_uses : ℕ) (secret name : Result Text) (now : ℕ)
      → Spares p (create_session a box p id ttl max_uses secret name now)
  unfolding create_session
  create_session-Spares id ttl max_uses secret name now = owner_only _ _

  revoke_own_session-Spares : (id : Text) (now : ℕ) → Spares p (revoke_own_session a box p id now)
  unfolding revoke_own_session
  revoke_own_session-Spares id now = owner_only _ _

  renew_own_session-Spares : (id : Text) (now : ℕ) → Spares p (renew_own_session a box p id now)
  unfolding renew_own_session
  renew_own_session-Spares id now = owner_only _ _

module _ (a : App) (box : Toolbox) (out : Outside) (p : Principal)
    (stranger : owns_vault a p ≢ ok true) where
  asked_inj : (q : Principal) → some q ≡ some p → q ≡ p
  asked_inj q h = cc

  -- A request of a person whom the code does not find to own the vault leaves the agents, the people,
  -- the sessions, the grants, the approvals, the workloads and the audit log as they are, and under each
  -- id the item and its secret, unless the item that is there afterwards is that person's own.
  pub serve-IsSpared :
      (r : Request) (now : ℕ) (m : Memory)
      → asked_by r ≡ some p
      → IsSpared p m (serve a box out r now m)
  unfolding serve
  serve-IsSpared (revokes_agent q id) now m asked =
      subst (λ x. IsSpared p m (revoke_own_agent a x id now m).1) (sym (asked_inj q asked))
        ((revoke_own_agent-Spares a box p stranger id now).spared m)
  serve-IsSpared (puts_item_for q o random) now m asked =
      subst (λ x. IsSpared p m (put_item_for a box x o random now m).1) (sym (asked_inj q asked))
        ((put_item_for-Spares a box p stranger o random now).spared m)
  serve-IsSpared (imports q rows) now m asked =
      subst (λ x. IsSpared p m (import_items a box x rows now m).1) (sym (asked_inj q asked))
        ((import_items-Spares a box p stranger rows now).spared m)
  serve-IsSpared (attaches_totp q id seed) now m asked =
      subst (λ x. IsSpared p m (attach_totp a box x id seed now m).1) (sym (asked_inj q asked))
        ((attach_totp-Spares a box p stranger id seed now).spared m)
  serve-IsSpared (creates_session q id ttl times secret name) now m asked =
      subst (λ x. IsSpared p m (create_session a box x id ttl times secret name now m).1)
        (sym (asked_inj q asked))
        ((create_session-Spares a box p stranger id ttl times secret name now).spared m)
  serve-IsSpared (revokes_session q id) now m asked =
      subst (λ x. IsSpared p m (revoke_own_session a box x id now m).1) (sym (asked_inj q asked))
        ((revoke_own_session-Spares a box p stranger id now).spared m)
  serve-IsSpared (renews_session q id) now m asked =
      subst (λ x. IsSpared p m (renew_own_session a box x id now m).1) (sym (asked_inj q asked))
        ((renew_own_session-Spares a box p stranger id now).spared m)
  serve-IsSpared (adds_agent name) now m asked = cc
  serve-IsSpared (binds_workload id issuer subject audience) now m asked = cc
  serve-IsSpared (puts_item o random) now m asked = cc
  serve-IsSpared (updates name uris added tags login) now m asked = cc
  serve-IsSpared (archives name) now m asked = cc
  serve-IsSpared (deletes name) now m asked = cc
  serve-IsSpared (grants_until grantee item level expires) now m asked = cc
  serve-IsSpared (approves grant ttl id) now m asked = cc
  serve-IsSpared (approves_oidc grant token ttl id) now m asked = cc
  serve-IsSpared (runs_child id) now m asked = cc
  serve-IsSpared (uses full agent_id item f) now m asked = cc
  serve-IsSpared (uses_session full token item f) now m asked = cc
