-- ===== src/App/Spares.antt =====
-- Actions of internal/app that write nothing but items of one person: one rule for each way to build
-- an action.
use password_manager.Prelude.{
  ℕ, ◌≡◌, ◌⊎◌, inl, inr, refl, Bool, true, false, Option, none, some, Result, ok, err, Error, arith,
}
use password_manager.Prelude.Text.{Text, text_beq, text_keys}
use password_manager.GoMap.{get, put, get-put}
use password_manager.Protocol.{Principal, Item, user}
use password_manager.Store.{Memory, Secret}
use password_manager.Store.Items.{put_item, save_version}
use password_manager.Store.Steps.{step, item_put}
use password_manager.App.Query.{Query}
use password_manager.App.Vault.{Vault, next, ◌>>=◌, pure, guard, given, reads, calls}

-- Under that id the store has what it had, or an item that is this person's now.
abbrev pub IsOwnOrKept : Principal → Memory → Memory → Text → Type 0
IsOwnOrKept p m m' k =
    ((get k m'.items ≡ get k m.items) × (get k m'.secrets ≡ get k m.secrets))
    ⊎ ((i : Item) × (get k m'.items ≡ some i) × (i.owner ≡ record { kind = user; id = p.id }))

-- Nothing but items of that person was written.
pub record IsSpared (p : Principal) (m m' : Memory) : Type 0 where
  pub agents : m'.agents ≡ m.agents
  pub humans : m'.humans ≡ m.humans
  pub sessions : m'.sessions ≡ m.sessions
  pub grants : m'.grants ≡ m.grants
  pub approvals : m'.approvals ≡ m.approvals
  pub workloads : m'.workloads ≡ m.workloads
  pub audit : m'.audit ≡ m.audit
  pub items : (k : Text) → IsOwnOrKept p m m' k

module _ (p : Principal) where
  IsSpared-same : (m : Memory) → IsSpared p m m
  IsSpared-same m = record {
    agents = refl;
    humans = refl;
    sessions = refl;
    grants = refl;
    approvals = refl;
    workloads = refl;
    audit = refl;
    items = λ k. inl (refl, refl);
  }

  own_or_kept :
      (i : Item) (secret : Secret) (m : Memory) (k : Text) (same : Bool)
      → i.owner ≡ record { kind = user; id = p.id }
      → text_beq i.id k ≡ same
      → IsOwnOrKept p m
          (record m { items = put i.id i m.items; secrets = put i.id secret m.secrets })
          k
  own_or_kept i secret m k true own here =
      inr (i, ground (arith, get-put i.id k i m.items, here), own)
  own_or_kept i secret m k false own here = inl (
    ground (arith, get-put i.id k i m.items, here),
    ground (arith, get-put i.id k secret m.secrets, here),
  )

  saved-IsSpared :
      (i : Item) (secret : Secret) (now : ℕ) (m : Memory) (old : Option Secret)
      → i.owner ≡ record { kind = user; id = p.id }
      → let m' = save_version i.id now old m in
        IsSpared p m
          (record m' { items = put i.id i m'.items; secrets = put i.id secret m'.secrets })
  unfolding save_version
  saved-IsSpared i secret now m none own = record {
    agents = refl;
    humans = refl;
    sessions = refl;
    grants = refl;
    approvals = refl;
    workloads = refl;
    audit = refl;
    items = λ k. own_or_kept i secret m k (text_beq i.id k) own refl;
  }
  saved-IsSpared i secret now m (some old) own = record {
    agents = refl;
    humans = refl;
    sessions = refl;
    grants = refl;
    approvals = refl;
    workloads = refl;
    audit = refl;
    items = λ k. own_or_kept i secret m k (text_beq i.id k) own refl;
  }

  -- An action that writes nothing but items of that person, whether it succeeds or fails.
  pub record Spares {A : Type 0} (v : Vault A) : Type 0 where
    pub spared : (m : Memory) → IsSpared p m (v m).1

  Spares-pure : {A : Type 0} (x : A) → Spares (pure x)
  unfolding pure
  Spares-pure x = record { spared = IsSpared-same }

  pub Spares-guard :
      {A : Type 0} (test : Bool) (e : Error) (v : Vault A)
      → (test ≡ true → Spares v)
      → Spares (guard test e >>= λ u. v)
  unfolding guard ◌>>=◌ next
  Spares-guard true e v h = record { spared = (h refl).spared }
  Spares-guard false e v h = record { spared = IsSpared-same }

  pub Spares-given :
      {A B : Type 0} (r : Result A) (f : A → Vault B)
      → ((x : A) → r ≡ ok x → Spares (f x))
      → Spares (given r >>= f)
  unfolding given ◌>>=◌ next
  Spares-given (ok x) f h = record { spared = (h x refl).spared }
  Spares-given (err e) f h = record { spared = IsSpared-same }

  Spares-next :
      {A B : Type 0} (r : Result A) (f : A → Vault B) (m : Memory)
      → ((x : A) → Spares (f x))
      → IsSpared p m (next r f m).1
  unfolding next
  Spares-next (ok x) f m h = (h x).spared m
  Spares-next (err e) f m h = IsSpared-same m

  pub Spares-reads :
      {A B : Type 0} (q : Query A) (f : A → Vault B)
      → ((x : A) → Spares (f x))
      → Spares (reads q >>= f)
  unfolding reads ◌>>=◌
  Spares-reads q f h = record { spared = λ m. Spares-next (q m) f m h }

  pub Spares-put :
      (i : Item) (secret : Secret) (now : ℕ)
      → i.owner ≡ record { kind = user; id = p.id }
      → Spares (calls (item_put i secret now))
  unfolding calls step put_item
  Spares-put i secret now own = record {
    spared = λ m. saved-IsSpared i secret now m (get i.id m.secrets) own;
  }

  pub Spares-put_then :
      {A : Type 0} (i : Item) (secret : Secret) (now : ℕ) (x : A)
      → i.owner ≡ record { kind = user; id = p.id }
      → Spares (calls (item_put i secret now) >>= λ u. pure x)
  unfolding calls step put_item ◌>>=◌ next pure
  Spares-put_then i secret now x own = record {
    spared = λ m. saved-IsSpared i secret now m (get i.id m.secrets) own;
  }
