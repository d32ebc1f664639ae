-- ===== src/Audit/Bounds.antt =====
-- internal/audit/audit.go: what stays true of the channel, the batch and the worker in every schedule.
use mathlib.Core.Path.{subst}
use password_manager.Prelude.{
  ℕ, ◌≤◌, ◌≡◌, ◌≢◌, refl, sym, ◌∙◌, Bool, true, false, not, ◌&&◌, ◌||◌, Option, none, some, List,
  [], ◌∷◌, ◌++◌, length, Error, ltb, arith, if◌then◌else◌,
}
use password_manager.Protocol.{AuditEvent}
use password_manager.Audit.{
  Phase, waiting, collecting, draining, finished, flushing, Closer, serving, marked, stopping, shut,
  Config, config, Async, new_async, Move, arrive, send, hand_over, stopped, canceled_at, take_next,
  tick, go_on, flush, mark, stop, shut_down, is_closed, is_stopped, is_shut, no_events, pick,
  leave_from, advance, timer, store_batch, flush_in, mark_from, stop_from, shut_from, step,
  run_moves,
}
use password_manager.Audit.Order.{After, After-if, After-else, After-or_stay}
use password_manager.Audit.Consistency.{
  AtPhase, IsConsistent, AtPhase-open, pick-Picked, is_shut_sound, both, no_events_empty,
  take_from-IsConsistent, send_from-IsConsistent, hand_from-IsConsistent, leave_from-IsConsistent,
}

still_serving : (k : Closer) → is_closed k ≡ false → k ≢ shut
still_serving serving p q = cc
still_serving marked p q = cc
still_serving stopping p q = cc
still_serving shut p q = cc

module _ (c : Config) (pos : 1 ≤ c.batch_size) (s : Async) (h : IsConsistent c s) where
  -- A new phase of the worker.
  entered :
      (w : Phase) → AtPhase w (record s { worker = w }) → IsConsistent c (record s { worker = w })
  entered w k = record { sealed = h.sealed; phase = k; full = h.full; buffered = h.buffered }

  last_phase : (is_shut s.closer && no_events s.queue) ≡ true → (s.closer ≡ shut) × (s.queue ≡ [])
  last_phase p =
      let (a, b) = both (is_shut s.closer) (no_events s.queue) p in
      (is_shut_sound s.closer a, no_events_empty s.queue b)

  advance-IsConsistent : (w : Phase) → After (IsConsistent c) (advance c s w)
  unfolding advance
  advance-IsConsistent waiting =
      After-if (IsConsistent c) (is_shut s.closer && no_events s.queue)
        (some (record s { worker = flushing true })) (λ p. entered (flushing true) (last_phase p))
  advance-IsConsistent collecting =
      After-else (IsConsistent c) (not (ltb (length s.batch) c.batch_size))
        (some (record s { worker = flushing false }))
        (if is_shut s.closer && no_events s.queue
          then some (record s { worker = flushing true })
          else none)
        (λ p. entered (flushing false) tt)
        (λ p.
          After-if (IsConsistent c) (is_shut s.closer && no_events s.queue)
            (some (record s { worker = flushing true }))
            (λ q. entered (flushing true) (last_phase q)))
  advance-IsConsistent draining =
      After-if (IsConsistent c) (not (ltb (length s.batch) c.batch_size) || no_events s.queue)
        (some (record s { worker = flushing false })) (λ p. entered (flushing false) tt)
  advance-IsConsistent (flushing last) = tt
  advance-IsConsistent finished = tt

  timer-IsConsistent : (w : Phase) → After (IsConsistent c) (timer s w)
  unfolding timer
  timer-IsConsistent collecting = entered draining tt
  timer-IsConsistent waiting = tt
  timer-IsConsistent draining = tt
  timer-IsConsistent finished = tt
  timer-IsConsistent (flushing last) = tt

  -- A flush leaves the batch empty and the rest of the auditor's own state as it is.
  stored :
      (answer : Option Error) (b : List AuditEvent)
      → s.batch ≡ b
      → let t = store_batch answer s b in
        (t.batch ≡ []) × (t.queue ≡ s.queue) × (t.closer ≡ s.closer) × (t.senders ≡ s.senders)
  unfolding store_batch
  stored answer [] p = (p, refl, refl, refl)
  stored none (e ∷ rest) p = (refl, refl, refl, refl)
  stored (some x) (e ∷ rest) p = (refl, refl, refl, refl)

  flushed_phase :
      (last : Bool) (t : Async)
      → (t.batch ≡ []) × (t.queue ≡ s.queue) × (t.closer ≡ s.closer) × (t.senders ≡ s.senders)
      → AtPhase (flushing last) s
      → AtPhase (if last then finished else waiting) t
  flushed_phase true t k a = (k.2 ∙ a.0, k.1 ∙ a.1, k.0)
  flushed_phase false t k a = k.0

  flush_in-IsConsistent :
      (answer : Option Error) (w : Phase)
      → s.worker ≡ w
      → After (IsConsistent c) (flush_in answer s w)
  unfolding flush_in
  flush_in-IsConsistent answer (flushing last) p =
      let k = stored answer s.batch refl in
      record {
        sealed = λ q. k.3 ∙ h.sealed (sym k.2 ∙ q);
        phase = flushed_phase last _ k (subst (λ w. AtPhase w s) p h.phase);
        full = rw k.0 (omega arith);
        buffered = rw k.1 h.buffered;
      }
  flush_in-IsConsistent answer waiting p = tt
  flush_in-IsConsistent answer collecting p = tt
  flush_in-IsConsistent answer draining p = tt
  flush_in-IsConsistent answer finished p = tt

  closing_phase :
      (k : Closer) (w : Phase) → s.closer ≢ shut → AtPhase w s → AtPhase w (record s { closer = k })
  closing_phase k w n a = AtPhase-open w s _ n refl a

  -- Close goes one step on.
  closing :
      (k : Closer)
      → s.closer ≢ shut
      → (k ≡ shut → s.senders ≡ [])
      → IsConsistent c (record s { closer = k })
  closing k n sealed = record {
    sealed = sealed;
    phase = AtPhase-open s.worker s _ n refl h.phase;
    full = h.full;
    buffered = h.buffered;
  }

  mark_from-IsConsistent : (k : Closer) → s.closer ≡ k → After (IsConsistent c) (mark_from s k)
  unfolding mark_from
  mark_from-IsConsistent serving p = closing marked (λ q. cc) (λ q. cc)
  mark_from-IsConsistent marked p = tt
  mark_from-IsConsistent stopping p = tt
  mark_from-IsConsistent shut p = tt

  stop_from-IsConsistent : (k : Closer) → s.closer ≡ k → After (IsConsistent c) (stop_from s k)
  unfolding stop_from
  stop_from-IsConsistent serving p = tt
  stop_from-IsConsistent marked p = closing stopping (λ q. cc) (λ q. cc)
  stop_from-IsConsistent stopping p = tt
  stop_from-IsConsistent shut p = tt

  shut_from-IsConsistent : (k : Closer) → s.closer ≡ k → After (IsConsistent c) (shut_from s k)
  unfolding shut_from
  shut_from-IsConsistent serving p = tt
  shut_from-IsConsistent marked p = tt
  shut_from-IsConsistent stopping p =
      After-if (IsConsistent c) (no_events s.senders) (some (record s { closer = shut }))
        (λ q. closing shut (λ r. cc) (λ r. no_events_empty s.senders q))
  shut_from-IsConsistent shut p = tt

  arrived :
      (e : AuditEvent)
      → is_closed s.closer ≡ false
      → IsConsistent c (record s { senders = s.senders ++ e ∷ [] })
  arrived e p = record {
    sealed = λ q. absurd (still_serving s.closer p q);
    phase = AtPhase-open s.worker s _ (still_serving s.closer p) refl h.phase;
    full = h.full;
    buffered = h.buffered;
  }

  pub step-IsConsistent : (m : Move) → After (IsConsistent c) (step c m s)
  unfolding step
  step-IsConsistent (arrive e) =
      After-else (IsConsistent c) (is_closed s.closer) (some s)
        (some (record s { senders = s.senders ++ e ∷ [] })) (λ p. h) (arrived e)
  step-IsConsistent (send i) =
      send_from-IsConsistent c pos s h (pick i s.senders) (pick-Picked i s.senders)
  step-IsConsistent (hand_over i) =
      hand_from-IsConsistent c pos s h (pick i s.senders) (pick-Picked i s.senders)
  step-IsConsistent (stopped i) =
      After-if (IsConsistent c) (is_stopped s.closer) (leave_from s (pick i s.senders))
        (λ p. leave_from-IsConsistent c pos s h (pick i s.senders) (pick-Picked i s.senders))
  step-IsConsistent (canceled_at i) =
      leave_from-IsConsistent c pos s h (pick i s.senders) (pick-Picked i s.senders)
  step-IsConsistent take_next = take_from-IsConsistent c pos s h s.queue refl
  step-IsConsistent tick = timer-IsConsistent s.worker
  step-IsConsistent go_on = advance-IsConsistent s.worker
  step-IsConsistent (flush answer) = flush_in-IsConsistent answer s.worker refl
  step-IsConsistent mark = mark_from-IsConsistent s.closer refl
  step-IsConsistent stop = stop_from-IsConsistent s.closer refl
  step-IsConsistent shut_down = shut_from-IsConsistent s.closer refl

module _ (c : Config) (pos : 1 ≤ c.batch_size) where
  pub run_moves-IsConsistent :
      (moves : List Move) (s : Async) → IsConsistent c s → IsConsistent c (run_moves c moves s)
  unfolding run_moves
  run_moves-IsConsistent [] s h = h
  run_moves-IsConsistent (m ∷ rest) s h =
      run_moves-IsConsistent rest _
        (After-or_stay (IsConsistent c) s (step c m s) h (step-IsConsistent c pos s h m))

pub new_async-IsConsistent : (c : Config) → IsConsistent c new_async
new_async-IsConsistent c = record {
  sealed = λ p. refl;
  phase = refl;
  full = omega arith;
  buffered = omega arith;
}

pub config_batch :
    (cap : ℕ) (timed : Bool)
    → (1 ≤ (config cap timed).batch_size) × ((config cap timed).batch_size ≤ 256)
unfolding config
config_batch cap timed = ground arith

-- Whatever the order of the moves of a new auditor: no sender is left once the channel is closed, so
-- that nothing is sent on a closed channel; the buffer holds at most `cap` events, and a batch that
-- goes to the store at most 256 and at most the batch size.
pub run_config_bounds :
    (cap : ℕ) (timed : Bool) (moves : List Move)
    → let s = run_moves (config cap timed) moves (new_async) in
      (s.closer ≡ shut → s.senders ≡ []) × (length s.queue ≤ cap) × (length s.batch ≤ 256)
unfolding config
run_config_bounds cap timed moves =
    let c = config cap timed in
    let size = config_batch cap timed in
    let h = run_moves-IsConsistent c size.0 moves (new_async) (new_async-IsConsistent c) in
    (h.sealed, h.buffered, omega (arith, h.full, size.1))
