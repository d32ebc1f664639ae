-- ===== src/Audit/Consistency.antt =====
-- internal/audit/audit.go: the channel is closed only when no sender is left, and the buffer and the
-- batch keep within their sizes.
use password_manager.Prelude.{
  ℕ, zero, suc, ◌≤◌, ◌≡◌, ◌≢◌, refl, ap, ◌∙◌, Bool, true, false, ◌&&◌, Option, none, some, List, [],
  ◌∷◌, ◌++◌, length, length-append, ltb, arith, if◌then◌else◌,
}
use password_manager.Protocol.{AuditEvent}
use password_manager.Audit.{
  Phase, waiting, collecting, draining, finished, flushing, Closer, serving, marked, stopping, shut,
  Config, Async, batched, queued, is_shut, no_events, pick, with_room, receive, take_from,
  send_from, hand_from, leave_from,
}
use password_manager.Audit.Order.{After, After-if}

-- What is known where the worker stands.
abbrev pub AtPhase : Phase → Async → Type 0
AtPhase waiting s = s.batch ≡ []
AtPhase (flushing true) s = (s.closer ≡ shut) × (s.queue ≡ [])
AtPhase finished s = (s.closer ≡ shut) × (s.queue ≡ []) × (s.batch ≡ [])
AtPhase _ s = Unit

pub record IsConsistent (c : Config) (s : Async) : Type 0 where
  -- Nothing is sent on a closed channel.
  pub sealed : s.closer ≡ shut → s.senders ≡ []
  pub phase : AtPhase s.worker s
  pub full : length s.batch ≤ c.batch_size
  pub buffered : length s.queue ≤ c.cap

pub no_events_empty : (q : List AuditEvent) → no_events q ≡ true → q ≡ []
no_events_empty [] p = refl
no_events_empty (e ∷ q) p = cc

pub is_shut_sound : (k : Closer) → is_shut k ≡ true → k ≡ shut
is_shut_sound shut p = refl
is_shut_sound serving p = cc
is_shut_sound marked p = cc
is_shut_sound stopping p = cc

pub both : (a b : Bool) → (a && b) ≡ true → (a ≡ true) × (b ≡ true)
both true true p = (refl, refl)
both true false p = cc
both false b p = cc

-- What a pick leaves is one less.
abbrev pub Picked : List AuditEvent → Option (AuditEvent × List AuditEvent) → Type 0
Picked l none = Unit
Picked l (some (e, others)) = length l ≡ suc (length others)

pick_later :
    (e : AuditEvent) (l : List AuditEvent) (o : Option (AuditEvent × List AuditEvent))
    → Picked l o
    → Picked (e ∷ l) (elim o as (λ _. Option (AuditEvent × List AuditEvent)) [
      | none ↦ none
      | some (x, others) ↦ some (x, e ∷ others)
    ])
pick_later e l none h = tt
pick_later e l (some (x, others)) h = ap suc h

pub pick-Picked : (i : ℕ) (l : List AuditEvent) → Picked l (pick i l)
unfolding pick
pick-Picked zero [] = tt
pick-Picked (suc i) [] = tt
pick-Picked zero (e ∷ l) = refl
pick-Picked (suc i) (e ∷ l) = pick_later e l (pick i l) (pick-Picked i l)

not_empty : (l others : List AuditEvent) → length l ≡ suc (length others) → l ≢ []
not_empty [] others h p = absurd (omega (arith, h))
not_empty (e ∷ l) others h p = cc

pub AtPhase-open :
    (w : Phase) (s t : Async) → s.closer ≢ shut → t.batch ≡ s.batch → AtPhase w s → AtPhase w t
AtPhase-open waiting s t open_still same h = same ∙ h
AtPhase-open (flushing true) s t open_still same h = absurd (open_still h.0)
AtPhase-open finished s t open_still same h = absurd (open_still h.0)
AtPhase-open (flushing false) s t open_still same h = tt
AtPhase-open collecting s t open_still same h = tt
AtPhase-open draining s t open_still same h = tt

module _ (c : Config) (pos : 1 ≤ c.batch_size) where
  with_room-IsConsistent :
      (e : AuditEvent) (s : Async)
      → (s.closer ≡ shut → s.senders ≡ [])
      → AtPhase s.worker (batched e s)
      → length s.queue ≤ c.cap
      → After (IsConsistent c) (with_room c e s)
  unfolding with_room
  with_room-IsConsistent e s sealed phase buffered =
      After-if (IsConsistent c) (ltb (length s.batch) c.batch_size) (some (batched e s)) λ p.
        record {
          sealed = sealed;
          phase = phase;
          full = ground (arith, length-append s.batch (e ∷ []));
          buffered = buffered;
        }

  first_of_batch :
      (b : List AuditEvent) (e : AuditEvent) → b ≡ [] → length (b ++ e ∷ []) ≤ c.batch_size
  first_of_batch b e p = rw p pos

  taken_phase : (timed : Bool) (s : Async) → AtPhase (if timed then collecting else draining) s
  taken_phase true s = tt
  taken_phase false s = tt

  receive-IsConsistent :
      (e : AuditEvent) (s : Async) (w : Phase)
      → s.worker ≡ w
      → (s.closer ≡ shut → s.senders ≡ [])
      → AtPhase w s
      → length s.queue ≤ c.cap
      → After (IsConsistent c) (receive c e s w)
  unfolding receive
  receive-IsConsistent e s waiting p sealed phase buffered = record {
    sealed = sealed;
    phase = taken_phase c.timed _;
    full = first_of_batch s.batch e phase;
    buffered = buffered;
  }
  receive-IsConsistent e s collecting p sealed phase buffered =
      with_room-IsConsistent e s sealed (rw p tt) buffered
  receive-IsConsistent e s draining p sealed phase buffered =
      with_room-IsConsistent e s sealed (rw p tt) buffered
  receive-IsConsistent e s (flushing last) p sealed phase buffered = tt
  receive-IsConsistent e s finished p sealed phase buffered = tt

  module _ (s : Async) (h : IsConsistent c s) where
    take_phase :
        (w : Phase) (q : List AuditEvent) (e : AuditEvent)
        → s.queue ≡ e ∷ q
        → AtPhase w s
        → AtPhase w (record s { queue = q })
    take_phase waiting q e p k = k
    take_phase collecting q e p k = tt
    take_phase draining q e p k = tt
    take_phase (flushing false) q e p k = tt
    take_phase (flushing true) q e p k = cc
    take_phase finished q e p k = cc

    pub take_from-IsConsistent :
        (q : List AuditEvent) → s.queue ≡ q → After (IsConsistent c) (take_from c s q)
    unfolding take_from
    take_from-IsConsistent [] p = tt
    take_from-IsConsistent (e ∷ rest) p =
        let size : length s.queue ≡ suc (length rest) = ap length p in
        receive-IsConsistent e (record s { queue = rest }) s.worker refl h.sealed
          (take_phase s.worker rest e p h.phase) (omega (arith, size, h.buffered))

    open_still :
        (others : List AuditEvent) → length s.senders ≡ suc (length others) → s.closer ≢ shut
    open_still others n p = not_empty s.senders others n (h.sealed p)

    pub send_from-IsConsistent :
        (o : Option (AuditEvent × List AuditEvent))
        → Picked s.senders o
        → After (IsConsistent c) (send_from c s o)
    unfolding send_from
    send_from-IsConsistent none n = tt
    send_from-IsConsistent (some (e, others)) n =
        After-if (IsConsistent c) (ltb (length s.queue) c.cap) (some (queued e others s)) λ p.
          record {
            sealed = λ q. absurd (open_still others n q);
            phase = AtPhase-open s.worker s _ (open_still others n) refl h.phase;
            full = h.full;
            buffered = ground (arith, length-append s.queue (e ∷ []));
          }

    pub hand_from-IsConsistent :
        (o : Option (AuditEvent × List AuditEvent))
        → Picked s.senders o
        → After (IsConsistent c) (hand_from c s o)
    unfolding hand_from
    hand_from-IsConsistent none n = tt
    hand_from-IsConsistent (some (e, others)) n =
        After-if (IsConsistent c) (no_events s.queue) (receive c e _ s.worker) λ p.
          receive-IsConsistent e _ s.worker refl (λ q. absurd (open_still others n q))
            (AtPhase-open s.worker s _ (open_still others n) refl h.phase) h.buffered

    pub leave_from-IsConsistent :
        (o : Option (AuditEvent × List AuditEvent))
        → Picked s.senders o
        → After (IsConsistent c) (leave_from s o)
    unfolding leave_from
    leave_from-IsConsistent none n = tt
    leave_from-IsConsistent (some (e, others)) n = record {
      sealed = λ q. absurd (open_still others n q);
      phase = AtPhase-open s.worker s _ (open_still others n) refl h.phase;
      full = h.full;
      buffered = h.buffered;
    }
