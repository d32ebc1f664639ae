-- ===== src/Audit/Order.antt =====
-- internal/audit/audit.go: nothing that Append acknowledged is lost, doubled or reordered.
use mathlib.Core.List.{append_assoc}
use password_manager.Prelude.{
  ◌≡◌, ◌≢◌, refl, ap, ◌∙◌, Bool, true, false, not, ◌&&◌, ◌||◌, Option, none, some, List, [], ◌∷◌,
  ◌++◌, length, Error, ltb, if◌then◌else◌,
}
use password_manager.Protocol.{AuditEvent}
use password_manager.Audit.{
  Phase, waiting, collecting, draining, finished, flushing, Closer, serving, marked, stopping, shut,
  Config, Async, Move, arrive, send, hand_over, stopped, canceled_at, take_next, tick, go_on, flush,
  mark, stop, shut_down, is_closed, is_stopped, is_shut, no_events, pick, batched, queued,
  with_room, receive, take_from, send_from, hand_from, leave_from, advance, timer, first_failure,
  store_batch, flush_in, mark_from, stop_from, shut_from, step, run_moves,
}

-- The acknowledged events are those that were handed to the store, then the batch, then the buffer.
pub record IsOrdered (s : Async) : Type 0 where
  pub order : s.accepted ≡ s.flushed ++ (s.batch ++ s.queue)
  pub clean : s.failure ≡ none → s.written ≡ s.flushed

-- A condition on the state that a move leads to, if it can be made.
abbrev pub After : (Async → Type 0) → Option Async → Type 0
After P none = Unit
After P (some s) = P s

pub After-if :
    (P : Async → Type 0) (b : Bool) (o : Option Async)
    → (b ≡ true → After P o)
    → After P (if b then o else none)
After-if P true o h = h refl
After-if P false o h = tt

pub After-else :
    (P : Async → Type 0) (b : Bool) (o o' : Option Async)
    → (b ≡ true → After P o)
    → (b ≡ false → After P o')
    → After P (if b then o else o')
After-else P true o o' h k = h refl
After-else P false o o' h k = k refl

-- The worker, with an event in its hand.
record IsHanded (e : AuditEvent) (s : Async) : Type 0 where
  order : s.accepted ≡ s.flushed ++ (s.batch ++ e ∷ s.queue)
  clean : s.failure ≡ none → s.written ≡ s.flushed

regroup : (f b q : List AuditEvent) (e : AuditEvent) → f ++ (b ++ e ∷ q) ≡ f ++ ((b ++ e ∷ []) ++ q)
regroup f b q e = simp append_assoc

with_room-IsOrdered :
    (c : Config) (e : AuditEvent) (s : Async) → IsHanded e s → After IsOrdered (with_room c e s)
unfolding with_room
with_room-IsOrdered c e s h =
    After-if IsOrdered (ltb (length s.batch) c.batch_size) (some (batched e s))
      λ p. record { order = h.order ∙ regroup s.flushed s.batch s.queue e; clean = h.clean }

receive-IsOrdered :
    (c : Config) (e : AuditEvent) (s : Async) (w : Phase)
    → IsHanded e s
    → After IsOrdered (receive c e s w)
unfolding receive
receive-IsOrdered c e s waiting h = record {
  order = h.order ∙ regroup s.flushed s.batch s.queue e;
  clean = h.clean;
}
receive-IsOrdered c e s collecting h = with_room-IsOrdered c e s h
receive-IsOrdered c e s draining h = with_room-IsOrdered c e s h
receive-IsOrdered c e s (flushing last) h = tt
receive-IsOrdered c e s finished h = tt

take_from-IsOrdered :
    (c : Config) (s : Async) (q : List AuditEvent)
    → s.queue ≡ q
    → IsOrdered s
    → After IsOrdered (take_from c s q)
unfolding take_from
take_from-IsOrdered c s [] p h = tt
take_from-IsOrdered c s (e ∷ rest) p h =
    receive-IsOrdered c e _ s.worker (record { order = rw (← p) h.order; clean = h.clean })

snoc_order :
    (a f b q : List AuditEvent) (e : AuditEvent)
    → a ≡ f ++ (b ++ q)
    → a ++ e ∷ [] ≡ f ++ (b ++ (q ++ e ∷ []))
snoc_order a f b q e h = rw h (simp append_assoc)

send_from-IsOrdered :
    (c : Config) (s : Async) (o : Option (AuditEvent × List AuditEvent))
    → IsOrdered s
    → After IsOrdered (send_from c s o)
unfolding send_from
send_from-IsOrdered c s none h = tt
send_from-IsOrdered c s (some (e, others)) h =
    After-if IsOrdered (ltb (length s.queue) c.cap) (some (queued e others s)) λ p. record {
      order = snoc_order s.accepted s.flushed s.batch s.queue e h.order;
      clean = h.clean;
    }

no_events_empty : (q : List AuditEvent) → no_events q ≡ true → q ≡ []
no_events_empty [] p = refl
no_events_empty (e ∷ q) p = cc

hand_from-IsOrdered :
    (c : Config) (s : Async) (o : Option (AuditEvent × List AuditEvent))
    → IsOrdered s
    → After IsOrdered (hand_from c s o)
unfolding hand_from
hand_from-IsOrdered c s none h = tt
hand_from-IsOrdered c s (some (e, others)) h = After-if IsOrdered _ _ λ p.
    let none_left = no_events_empty s.queue p in
    receive-IsOrdered c e _ s.worker (record {
      order =
          rw none_left (snoc_order s.accepted s.flushed s.batch [] e (rw (← none_left) h.order));
      clean = h.clean;
    })

flush_order : (a f b b' q : List AuditEvent) → b ≡ b' → a ≡ f ++ (b ++ q) → a ≡ (f ++ b') ++ q
flush_order a f b b' q p h = h ∙ rw p (simp append_assoc)

first_failure-ne-none : (o : Option Error) (x : Error) → first_failure o x ≢ none
first_failure-ne-none none x q = cc
first_failure-ne-none (some y) x q = cc

store_batch-IsOrdered :
    (answer : Option Error) (s : Async) (b : List AuditEvent)
    → s.batch ≡ b
    → IsOrdered s
    → IsOrdered (store_batch answer s b)
unfolding store_batch
store_batch-IsOrdered answer s [] p h = h
store_batch-IsOrdered none s (e ∷ rest) p h = record {
  order = flush_order s.accepted s.flushed s.batch (e ∷ rest) s.queue p h.order;
  clean = λ q. ap (λ l. l ++ e ∷ rest) (h.clean q);
}
store_batch-IsOrdered (some x) s (e ∷ rest) p h = record {
  order = flush_order s.accepted s.flushed s.batch (e ∷ rest) s.queue p h.order;
  clean = λ q. absurd (first_failure-ne-none s.failure x q);
}

flush_in-IsOrdered :
    (answer : Option Error) (s : Async) (w : Phase)
    → IsOrdered s
    → After IsOrdered (flush_in answer s w)
unfolding flush_in
flush_in-IsOrdered answer s (flushing last) h =
    let t = store_batch-IsOrdered answer s s.batch refl h in
    record { order = t.order; clean = t.clean }
flush_in-IsOrdered answer s waiting h = tt
flush_in-IsOrdered answer s collecting h = tt
flush_in-IsOrdered answer s draining h = tt
flush_in-IsOrdered answer s finished h = tt

-- Moves of the worker's phase, the senders and the closer leave the events where they are.
module _ (c : Config) (s : Async) (h : IsOrdered s) where
  moved :
      (k : Closer) (l : List AuditEvent) (w : Phase)
      → IsOrdered (record s { closer = k; senders = l; worker = w })
  moved k l w = record { order = h.order; clean = h.clean }

  advance-IsOrdered : (w : Phase) → After IsOrdered (advance c s w)
  unfolding advance
  advance-IsOrdered waiting =
      After-if IsOrdered (is_shut s.closer && no_events s.queue)
        (some (record s { worker = flushing true })) (λ p. moved s.closer s.senders (flushing true))
  advance-IsOrdered collecting =
      After-else IsOrdered (not (ltb (length s.batch) c.batch_size))
        (some (record s { worker = flushing false }))
        (if is_shut s.closer && no_events s.queue
          then some (record s { worker = flushing true })
          else none)
        (λ p. moved s.closer s.senders (flushing false))
        (λ p.
          After-if IsOrdered (is_shut s.closer && no_events s.queue)
            (some (record s { worker = flushing true }))
            (λ q. moved s.closer s.senders (flushing true)))
  advance-IsOrdered draining =
      After-if IsOrdered (not (ltb (length s.batch) c.batch_size) || no_events s.queue)
        (some (record s { worker = flushing false }))
        (λ p. moved s.closer s.senders (flushing false))
  advance-IsOrdered (flushing last) = tt
  advance-IsOrdered finished = tt

  timer-IsOrdered : (w : Phase) → After IsOrdered (timer s w)
  unfolding timer
  timer-IsOrdered collecting = moved s.closer s.senders draining
  timer-IsOrdered waiting = tt
  timer-IsOrdered draining = tt
  timer-IsOrdered finished = tt
  timer-IsOrdered (flushing last) = tt

  leave_from-IsOrdered :
      (o : Option (AuditEvent × List AuditEvent)) → After IsOrdered (leave_from s o)
  unfolding leave_from
  leave_from-IsOrdered none = tt
  leave_from-IsOrdered (some (e, others)) = moved s.closer others s.worker

  mark_from-IsOrdered : (k : Closer) → After IsOrdered (mark_from s k)
  unfolding mark_from
  mark_from-IsOrdered serving = moved marked s.senders s.worker
  mark_from-IsOrdered marked = tt
  mark_from-IsOrdered stopping = tt
  mark_from-IsOrdered shut = tt

  stop_from-IsOrdered : (k : Closer) → After IsOrdered (stop_from s k)
  unfolding stop_from
  stop_from-IsOrdered serving = tt
  stop_from-IsOrdered marked = moved stopping s.senders s.worker
  stop_from-IsOrdered stopping = tt
  stop_from-IsOrdered shut = tt

  shut_from-IsOrdered : (k : Closer) → After IsOrdered (shut_from s k)
  unfolding shut_from
  shut_from-IsOrdered serving = tt
  shut_from-IsOrdered marked = tt
  shut_from-IsOrdered stopping =
      After-if IsOrdered (no_events s.senders) (some (record s { closer = shut }))
        (λ p. moved shut s.senders s.worker)
  shut_from-IsOrdered shut = tt

  step-IsOrdered : (m : Move) → After IsOrdered (step c m s)
  unfolding step
  step-IsOrdered (arrive e) =
      After-else IsOrdered (is_closed s.closer) (some s) (some _) (λ p. h)
        (λ p. moved s.closer _ s.worker)
  step-IsOrdered (send i) = send_from-IsOrdered c s (pick i s.senders) h
  step-IsOrdered (hand_over i) = hand_from-IsOrdered c s (pick i s.senders) h
  step-IsOrdered (stopped i) =
      After-if IsOrdered (is_stopped s.closer) (leave_from s (pick i s.senders))
        (λ p. leave_from-IsOrdered (pick i s.senders))
  step-IsOrdered (canceled_at i) = leave_from-IsOrdered (pick i s.senders)
  step-IsOrdered take_next = take_from-IsOrdered c s s.queue refl h
  step-IsOrdered tick = timer-IsOrdered s.worker
  step-IsOrdered go_on = advance-IsOrdered s.worker
  step-IsOrdered (flush answer) = flush_in-IsOrdered answer s s.worker h
  step-IsOrdered mark = mark_from-IsOrdered s.closer
  step-IsOrdered stop = stop_from-IsOrdered s.closer
  step-IsOrdered shut_down = shut_from-IsOrdered s.closer

pub After-or_stay :
    (P : Async → Type 0) (s : Async) (o : Option Async)
    → P s
    → After P o
    → P (elim o as (λ _. Async) [ none ↦ s | some t ↦ t ])
After-or_stay P s none h k = h
After-or_stay P s (some t) h k = k

-- A schedule keeps the order: where, at first, the events whose Append returned nil are, in the order
-- of acceptance and each as often, those that were handed to the store, then the worker's batch, then
-- the buffer, and what was handed over is written while no store call has failed, both are so in the
-- state that any list of moves leads to.
pub run_moves-IsOrdered :
    (c : Config) (moves : List Move) (s : Async) → IsOrdered s → IsOrdered (run_moves c moves s)
unfolding run_moves
run_moves-IsOrdered c [] s h = h
run_moves-IsOrdered c (m ∷ rest) s h =
    run_moves-IsOrdered c rest _ (After-or_stay IsOrdered s (step c m s) h (step-IsOrdered c s h m))
