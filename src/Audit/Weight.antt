-- ===== src/Audit/Weight.antt =====
-- internal/audit/audit.go: every move of the auditor but a new call of Append leaves less to do.
use mathlib.Core.Path.{subst}
use password_manager.Prelude.{
  ℕ, suc, ◌+◌, ◌*◌, ◌≤◌, ◌<◌, ◌≡◌, refl, ap, Bool, true, false, not, ◌&&◌, ◌||◌, Option, none, some,
  List, [], ◌∷◌, length, length-append, Error, ltb, arith, if◌then◌else◌,
}
use password_manager.Protocol.{AuditEvent}
use password_manager.Audit.{
  Phase, waiting, collecting, draining, finished, flushing, Closer, serving, marked, stopping, shut,
  Config, Async, Move, arrive, send, hand_over, stopped, canceled_at, take_next, tick, go_on, flush,
  mark, stop, shut_down, batched, queued, is_closed, is_stopped, is_shut, no_events, pick,
  with_room, receive, take_from, send_from, hand_from, leave_from, advance, timer, store_batch,
  flush_in, mark_from, stop_from, shut_from, step,
}
use password_manager.Audit.Order.{After, After-if, After-else}
use password_manager.Audit.Consistency.{Picked, pick-Picked}

abbrev pub phase_weight : Phase → ℕ
phase_weight finished = 0
phase_weight (flushing true) = 1
phase_weight waiting = 2
phase_weight (flushing false) = 3
phase_weight draining = 4
phase_weight collecting = 5

abbrev pub closer_weight : Closer → ℕ
closer_weight serving = 3
closer_weight marked = 2
closer_weight stopping = 1
closer_weight shut = 0

-- What is left to do.
abbrev pub weight : Async → ℕ
weight s =
    closer_weight s.closer
    + 7 * length s.senders
    + 6 * length s.queue
    + length s.batch
    + phase_weight s.worker

abbrev Lighter : ℕ → Async → Type 0
Lighter n t = weight t < n

with_room-Lighter :
    (c : Config) (e : AuditEvent) (s : Async) (n : ℕ)
    → weight s + 1 < n
    → After (Lighter n) (with_room c e s)
unfolding with_room
with_room-Lighter c e s n h =
    After-if (Lighter n) (ltb (length s.batch) c.batch_size) (some (batched e s))
      (λ p. omega (arith, h, length-append s.batch (e ∷ [])))

taken_weight : (timed : Bool) → phase_weight (if timed then collecting else draining) ≤ 5
taken_weight true = omega arith
taken_weight false = omega arith

receive-Lighter :
    (c : Config) (e : AuditEvent) (s : Async) (n : ℕ) (w : Phase)
    → s.worker ≡ w
    → weight s + 4 < n
    → After (Lighter n) (receive c e s w)
unfolding receive
receive-Lighter c e s n waiting p h =
    omega (arith, h, length-append s.batch (e ∷ []), taken_weight c.timed, ap phase_weight p)
receive-Lighter c e s n collecting p h = with_room-Lighter c e s n (omega (arith, h))
receive-Lighter c e s n draining p h = with_room-Lighter c e s n (omega (arith, h))
receive-Lighter c e s n (flushing last) p h = tt
receive-Lighter c e s n finished p h = tt

module _ (c : Config) (s : Async) where
  take_from-Lighter :
      (q : List AuditEvent) → s.queue ≡ q → After (Lighter (weight s)) (take_from c s q)
  unfolding take_from
  take_from-Lighter [] p = tt
  take_from-Lighter (e ∷ rest) p =
      let size : length s.queue ≡ suc (length rest) = ap length p in
      receive-Lighter c e (record s { queue = rest }) (weight s) s.worker refl (omega (arith, size))

  send_from-Lighter :
      (o : Option (AuditEvent × List AuditEvent))
      → Picked s.senders o
      → After (Lighter (weight s)) (send_from c s o)
  unfolding send_from
  send_from-Lighter none n = tt
  send_from-Lighter (some (e, others)) n =
      After-if (Lighter (weight s)) (ltb (length s.queue) c.cap) (some (queued e others s))
        (λ p. omega (arith, n, length-append s.queue (e ∷ [])))

  hand_from-Lighter :
      (o : Option (AuditEvent × List AuditEvent))
      → Picked s.senders o
      → After (Lighter (weight s)) (hand_from c s o)
  unfolding hand_from
  hand_from-Lighter none n = tt
  hand_from-Lighter (some (e, others)) n =
      After-if (Lighter (weight s)) (no_events s.queue) (receive c e _ s.worker)
        λ p. receive-Lighter c e _ (weight s) s.worker refl (omega (arith, n))

  leave_from-Lighter :
      (o : Option (AuditEvent × List AuditEvent))
      → Picked s.senders o
      → After (Lighter (weight s)) (leave_from s o)
  unfolding leave_from
  leave_from-Lighter none n = tt
  leave_from-Lighter (some (e, others)) n = omega (arith, n)

  -- A phase that weighs less.
  phase_down :
      (w : Phase)
      → phase_weight w < phase_weight s.worker
      → Lighter (weight s) (record s { worker = w })
  phase_down w h = omega (arith, h)

  advance-Lighter : (w : Phase) → s.worker ≡ w → After (Lighter (weight s)) (advance c s w)
  unfolding advance
  advance-Lighter waiting p =
      After-if (Lighter (weight s)) (is_shut s.closer && no_events s.queue)
        (some (record s { worker = flushing true })) (λ q. omega (arith, ap phase_weight p))
  advance-Lighter collecting p =
      After-else (Lighter (weight s)) (not (ltb (length s.batch) c.batch_size))
        (some (record s { worker = flushing false }))
        (if is_shut s.closer && no_events s.queue
          then some (record s { worker = flushing true })
          else none)
        (λ q. omega (arith, ap phase_weight p))
        (λ q.
          After-if (Lighter (weight s)) (is_shut s.closer && no_events s.queue)
            (some (record s { worker = flushing true })) (λ r. omega (arith, ap phase_weight p)))
  advance-Lighter draining p =
      After-if (Lighter (weight s)) (not (ltb (length s.batch) c.batch_size) || no_events s.queue)
        (some (record s { worker = flushing false })) (λ q. omega (arith, ap phase_weight p))
  advance-Lighter (flushing last) p = tt
  advance-Lighter finished p = tt

  timer-Lighter : (w : Phase) → s.worker ≡ w → After (Lighter (weight s)) (timer s w)
  unfolding timer
  timer-Lighter collecting p = omega (arith, ap phase_weight p)
  timer-Lighter waiting p = tt
  timer-Lighter draining p = tt
  timer-Lighter finished p = tt
  timer-Lighter (flushing last) p = tt

  stored_weight :
      (answer : Option Error) (b : List AuditEvent) (w : Phase)
      → s.batch ≡ b
      → phase_weight w < phase_weight s.worker
      → Lighter (weight s) (record (store_batch answer s b) { worker = w })
  unfolding store_batch
  stored_weight answer [] w p h = omega (arith, h)
  stored_weight none (e ∷ rest) w p h = omega (arith, h)
  stored_weight (some x) (e ∷ rest) w p h = omega (arith, h)

  flushed_weight :
      (last : Bool)
      → phase_weight (if last then finished else waiting) < phase_weight (flushing last)
  flushed_weight true = omega arith
  flushed_weight false = omega arith

  flush_in-Lighter :
      (answer : Option Error) (w : Phase)
      → s.worker ≡ w
      → After (Lighter (weight s)) (flush_in answer s w)
  unfolding flush_in
  flush_in-Lighter answer (flushing last) p =
      stored_weight answer s.batch (if last then finished else waiting) refl
        (rw p (flushed_weight last))
  flush_in-Lighter answer waiting p = tt
  flush_in-Lighter answer collecting p = tt
  flush_in-Lighter answer draining p = tt
  flush_in-Lighter answer finished p = tt

  mark_from-Lighter : (k : Closer) → s.closer ≡ k → After (Lighter (weight s)) (mark_from s k)
  unfolding mark_from
  mark_from-Lighter serving p = omega (arith, ap closer_weight p)
  mark_from-Lighter marked p = tt
  mark_from-Lighter stopping p = tt
  mark_from-Lighter shut p = tt

  stop_from-Lighter : (k : Closer) → s.closer ≡ k → After (Lighter (weight s)) (stop_from s k)
  unfolding stop_from
  stop_from-Lighter serving p = tt
  stop_from-Lighter marked p = omega (arith, ap closer_weight p)
  stop_from-Lighter stopping p = tt
  stop_from-Lighter shut p = tt

  shut_from-Lighter : (k : Closer) → s.closer ≡ k → After (Lighter (weight s)) (shut_from s k)
  unfolding shut_from
  shut_from-Lighter serving p = tt
  shut_from-Lighter marked p = tt
  shut_from-Lighter stopping p =
      After-if (Lighter (weight s)) (no_events s.senders) (some (record s { closer = shut }))
        (λ q. omega (arith, ap closer_weight p))
  shut_from-Lighter shut p = tt

-- A move of the auditor's own: no new call of Append.
abbrev pub IsOwn : Move → Type 0
IsOwn (arrive e) = ⊥
IsOwn _ = Unit

step-Lighter :
    (c : Config) (s : Async) (m : Move) → IsOwn m → After (Lighter (weight s)) (step c m s)
unfolding step
step-Lighter c s (arrive e) own = absurd own
step-Lighter c s (send i) own = send_from-Lighter c s (pick i s.senders) (pick-Picked i s.senders)
step-Lighter c s (hand_over i) own =
    hand_from-Lighter c s (pick i s.senders) (pick-Picked i s.senders)
step-Lighter c s (stopped i) own =
    After-if (Lighter (weight s)) (is_stopped s.closer) (leave_from s (pick i s.senders))
      (λ p. leave_from-Lighter c s (pick i s.senders) (pick-Picked i s.senders))
step-Lighter c s (canceled_at i) own =
    leave_from-Lighter c s (pick i s.senders) (pick-Picked i s.senders)
step-Lighter c s take_next own = take_from-Lighter c s s.queue refl
step-Lighter c s tick own = timer-Lighter c s s.worker refl
step-Lighter c s go_on own = advance-Lighter c s s.worker refl
step-Lighter c s (flush answer) own = flush_in-Lighter c s answer s.worker refl
step-Lighter c s mark own = mark_from-Lighter c s s.closer refl
step-Lighter c s stop own = stop_from-Lighter c s s.closer refl
step-Lighter c s shut_down own = shut_from-Lighter c s s.closer refl

After-some : (P : Async → Type 0) (o : Option Async) (t : Async) → After P o → o ≡ some t → P t
After-some P o t h p = subst (After P) p h

arrive_closed :
    (c : Config) (e : AuditEvent) (s t : Async)
    → is_closed s.closer ≡ true
    → step c (arrive e) s ≡ some t
    → t ≡ s
unfolding step
arrive_closed c e s t closed p = ground arith

-- Each move that is made, other than a new call of Append, makes the weight smaller, whatever the
-- schedule; and a call of Append after Close has begun changes nothing. So only finitely many moves
-- follow the begin of Close.
pub step-weight :
    (c : Config) (m : Move) (s t : Async)
    → step c m s ≡ some t
    → (IsOwn m → weight t < weight s)
      × ((e : AuditEvent) → m ≡ arrive e → is_closed s.closer ≡ true → t ≡ s)
step-weight c m s t p = (
  (λ own. After-some (Lighter (weight s)) (step c m s) t (step-Lighter c s m own) p),
  λ e q closed. arrive_closed c e s t closed (rw (← q) p),
)
