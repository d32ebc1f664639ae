-- ===== src/App/Audits.antt =====
-- What an action of internal/app hands out stands behind rows that it gave to AppendAudit: one rule
-- for each way to build an action.
use password_manager.Prelude.{
  ℕ, ◌+◌, ◌*◌, ◌≤◌, ◌≡◌, ◌∙◌, refl, sym, ap, is_ok, Bool, true, false, List, [], ◌∷◌, ◌++◌, length,
  All, All-append, Result, ok, err, Error, arith, if◌then◌else◌,
}
use mathlib.Core.Path.{subst}
use password_manager.Prelude.Text.{Text}
use password_manager.Protocol.{AuditEvent, env}
use password_manager.Store.{Memory}
use password_manager.Store.Agents.{append_audit}
use password_manager.Broker.{is_allow}
use password_manager.Broker.OnMemory.{Outside, append_row}
use password_manager.App.Query.{Query}
use password_manager.App.Vault.{Vault, next, ◌>>=◌, pure, guard, reads}
use password_manager.App.ChildEnv.{try_append}

-- The rows that allow.
abbrev pub allowed : List AuditEvent → ℕ
allowed [] = 0
allowed (e ∷ rows) = if is_allow e.decision then 1 + allowed rows else allowed rows

-- A row of a child's environment for that agent.
abbrev pub IsEnvRow : Text → AuditEvent → Type 0
IsEnvRow id e = (e.agent_id ≡ id) × (e.action ≡ env)

-- The store once these rows were given to AppendAudit one after the other: a row is in the log where
-- its write succeeded, and a write that fails changes nothing.
unfoldable pub log_all : Outside → List AuditEvent → Memory → Memory
log_all out [] m = m
log_all out (e ∷ rows) m = log_all out rows (if is_ok (out.append e m) then append_audit e m else m)

-- From `m` to `m'` rows of that agent were given to AppendAudit and nothing else changed; there are at
-- most two variables, the secret and its one-time code, for each of those rows that allows.
pub record IsAudited (out : Outside) (id : Text) (m : Memory) (pairs : List Text) (m' : Memory)
    : Type 0 where
  pub rows : List AuditEvent
  pub written : m' ≡ log_all out rows m
  pub own : All (IsEnvRow id) rows
  pub counted : length pairs ≤ 2 * allowed rows

length-append : {A : Type 0} (xs ys : List A) → length (xs ++ ys) ≡ length xs + length ys
length-append [] ys = omega arith
length-append (x ∷ xs) ys = omega (arith, length-append xs ys)

allowed-append : (xs ys : List AuditEvent) → allowed (xs ++ ys) ≡ allowed xs + allowed ys
allowed-append [] ys = omega arith
allowed-append (e ∷ xs) ys = ground (arith, allowed-append xs ys)

log_all-append :
    (out : Outside) (xs ys : List AuditEvent) (m : Memory)
    → log_all out (xs ++ ys) m ≡ log_all out ys (log_all out xs m)
unfolding log_all
log_all-append out [] ys m = refl
log_all-append out (e ∷ xs) ys m = log_all-append out xs ys _

module _ (out : Outside) (id : Text) where
  IsAudited-none : (m : Memory) → IsAudited out id m [] m
  unfolding log_all
  IsAudited-none m = record { rows = []; written = refl; own = tt; counted = omega arith }

  IsAudited-append :
      (a b c : Memory) (xs ys : List Text)
      → IsAudited out id a xs b
      → IsAudited out id b ys c
      → IsAudited out id a (xs ++ ys) c
  IsAudited-append a b c xs ys h k = record {
    rows = h.rows ++ k.rows;
    written =
        k.written ∙ ap (log_all out k.rows) h.written ∙ sym (log_all-append out h.rows k.rows a);
    own = All-append (IsEnvRow id) h.rows k.rows h.own k.own;
    counted =
        omega (arith, h.counted, k.counted, length-append xs ys, allowed-append h.rows k.rows);
  }

  append_row-log_all :
      (e : AuditEvent) (m : Memory) → (append_row out e m).1 ≡ log_all out (e ∷ []) m
  unfolding log_all
  append_row-log_all e m = ground arith

  IsAudited-row :
      (m : Memory) (e : AuditEvent) (pairs : List Text)
      → IsEnvRow id e
      → length pairs ≤ 2 * allowed (e ∷ [])
      → IsAudited out id m pairs (append_row out e m).1
  unfolding append_audit log_all
  IsAudited-row m e pairs own few = record {
    rows = e ∷ [];
    written = append_row-log_all e m;
    own = (own, tt);
    counted = few;
  }

  -- A success of the action hands out variables behind rows.
  pub record Audits (v : Vault (List Text)) : Type 0 where
    pub traced :
        (m : Memory) (pairs : List Text) → (v m).0 ≡ ok pairs → IsAudited out id m pairs (v m).1

ok_inj : (x y : List Text) → ok x ≡ ok y → x ≡ y
ok_inj x y e = cc

module _ {out : Outside} {id : Text} where
  pub Audits-none : Audits out id (pure [])
  unfolding pure
  Audits-none = record {
    traced = λ m pairs e.
        subst (λ p. IsAudited out id m p m) (ok_inj [] pairs e) (IsAudited-none out id m);
  }

  pub Audits-row :
      (e : AuditEvent) (pairs : List Text)
      → IsEnvRow id e
      → length pairs ≤ 2 * allowed (e ∷ [])
      → Audits out id (try_append out e >>= λ u. pure pairs)
  unfolding ◌>>=◌ next try_append pure
  Audits-row e pairs own few = record {
    traced = λ m y q.
        subst (λ p. IsAudited out id m p (append_row out e m).1) (ok_inj pairs y q)
          (IsAudited-row out id m e pairs own few);
  }

  pub Audits-if :
      (test : Bool) (x y : Vault (List Text))
      → Audits out id x
      → Audits out id y
      → Audits out id (if test then x else y)
  Audits-if true x y hx hy = hx
  Audits-if false x y hx hy = hy

  next-Audits :
      {A : Type 0} (r : Result A) (f : A → Vault (List Text))
      → ((x : A) → Audits out id (f x))
      → Audits out id (next r f)
  unfolding next
  next-Audits (ok x) f h = h x
  next-Audits (err e) f h = record { traced = λ m pairs q. cc }

  pub Audits-reads :
      {A : Type 0} (q : Query A) (f : A → Vault (List Text))
      → ((x : A) → Audits out id (f x))
      → Audits out id (reads q >>= f)
  unfolding ◌>>=◌ reads
  Audits-reads q f h = record { traced = λ m. (next-Audits (q m) f h).traced m }

  pub Audits-guard :
      (test : Bool) (e : Error) (v : Vault (List Text))
      → Audits out id v
      → Audits out id (guard test e >>= λ u. v)
  unfolding ◌>>=◌ next guard
  Audits-guard true e v h = record { traced = h.traced }
  Audits-guard false e v h = record { traced = λ m pairs q. cc }

  then_append :
      (xs : List Text) (w : Vault (List Text)) (a b : Memory) (pairs : List Text)
      → IsAudited out id a xs b
      → Audits out id w
      → (r : Result (List Text)) (c : Memory)
      → ((ys : List Text) → r ≡ ok ys → IsAudited out id b ys c)
      → (next r (λ ys. pure (xs ++ ys)) c).0 ≡ ok pairs
      → IsAudited out id a pairs (next r (λ ys. pure (xs ++ ys)) c).1
  unfolding next pure
  then_append xs w a b pairs h k (ok ys) c q e =
      subst (λ z. IsAudited out id a z c) (ok_inj (xs ++ ys) pairs e)
        (IsAudited-append out id a b c xs ys h (q ys refl))
  then_append xs w a b pairs h k (err x) c q e = cc

  both_traced :
      (w : Vault (List Text)) (a : Memory) (r : Result (List Text)) (b : Memory) (pairs : List Text)
      → Audits out id w
      → ((xs : List Text) → r ≡ ok xs → IsAudited out id a xs b)
      → (next r (λ xs. w >>= λ ys. pure (xs ++ ys)) b).0 ≡ ok pairs
      → IsAudited out id a pairs (next r (λ xs. w >>= λ ys. pure (xs ++ ys)) b).1
  unfolding ◌>>=◌ next
  both_traced w a (ok xs) b pairs k h e =
      then_append xs w a b pairs (h xs refl) k (w b).0 (w b).1 (k.traced b) e
  both_traced w a (err x) b pairs k h e = cc

  pub Audits-append :
      (v w : Vault (List Text))
      → Audits out id v
      → Audits out id w
      → Audits out id (v >>= λ xs. w >>= λ ys. pure (xs ++ ys))
  unfolding ◌>>=◌
  Audits-append v w h k = record {
    traced = λ m pairs. both_traced w m (v m).0 (v m).1 pairs k (h.traced m);
  }
