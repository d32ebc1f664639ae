-- ===== src/Audit/Closing.antt =====
-- Close of internal/audit/audit.go: once it has begun, the auditor can always go on, every move brings
-- it nearer to its end, and at its end all that was acknowledged was handed to the store.
use mathlib.Core.List.{append-nil}
use mathlib.Core.Path.{subst}
use password_manager.Prelude.{
  ℕ, ◌≡◌, ◌≢◌, refl, sym, ◌∙◌, Bool, true, false, none, some, List, [], ◌∷◌, ◌++◌, length, ltb,
  arith, Bool-cases, inl, inr, if◌then◌else◌,
}
use password_manager.Protocol.{AuditEvent}
use password_manager.Audit.{
  Phase, waiting, collecting, draining, finished, flushing, Closer, serving, marked, stopping, shut,
  Config, config, Async, new_async, Move, stopped, take_next, tick, go_on, flush, stop, shut_down,
  batched, is_closed, pick, with_room, receive, take_from, leave_from, advance, timer, store_batch,
  flush_in, stop_from, shut_from, step, run_moves,
}
use password_manager.Audit.Order.{IsOrdered, run_moves-IsOrdered}
use password_manager.Audit.Consistency.{AtPhase, IsConsistent}
use password_manager.Audit.Weight.{IsOwn}
use password_manager.Audit.Bounds.{run_moves-IsConsistent, new_async-IsConsistent, config_batch}

ends : (f b q : List AuditEvent) → b ≡ [] → q ≡ [] → f ++ (b ++ q) ≡ f
ends f b q p r = rw p (rw r (append-nil f))

drained :
    (c : Config) (s : Async)
    → IsOrdered s
    → IsConsistent c s
    → s.worker ≡ finished
    → (s.closer ≡ shut) × (s.flushed ≡ s.accepted) × (s.failure ≡ none → s.written ≡ s.accepted)
drained c s o h done =
    let at_end : AtPhase finished s = subst (λ w. AtPhase w s) done h.phase in
    let all : s.flushed ≡ s.accepted =
      sym (o.order ∙ ends s.flushed s.batch s.queue at_end.2 at_end.1) in
    (at_end.0, all, λ q. o.clean q ∙ all)

-- In every schedule of a new auditor, when the worker has returned, Close has closed the channel, and
-- the events that were handed to the store are exactly those whose Append returned nil, in that order;
-- if no store call failed, which is what Close then reports, they are all written.
pub close_drains :
    (cap : ℕ) (timed : Bool) (moves : List Move)
    → let s = run_moves (config cap timed) moves (new_async) in
      s.worker ≡ finished
      → (s.closer ≡ shut) × (s.flushed ≡ s.accepted) × (s.failure ≡ none → s.written ≡ s.accepted)
close_drains cap timed moves done =
    let c = config cap timed in
    let s = run_moves c moves (new_async) in
    drained c s
      (run_moves-IsOrdered c moves (new_async) (record { order = refl; clean = λ p. refl }))
      (run_moves-IsConsistent c (config_batch cap timed).0 moves (new_async)
        (new_async-IsConsistent c))
      done

abbrev pub CanMove : Config → Async → Type 0
CanMove c s = (m : Move) × (t : Async) × IsOwn m × (step c m s ≡ some t)

receive_room :
    (c : Config) (e : AuditEvent) (s : Async) (w : Phase)
    → w ≡ draining
    → ltb (length s.batch) c.batch_size ≡ true
    → receive c e s w ≡ some (batched e s)
unfolding receive with_room
receive_room c e s w p room = rw p (rw room refl)

module _ (c : Config) (s : Async) where
  -- Close waits for the senders, each of which sees the stop channel.
  stopping_moves : (l : List AuditEvent) → s.senders ≡ l → s.closer ≡ stopping → CanMove c s
  unfolding step shut_from leave_from pick
  stopping_moves [] p k = (shut_down, record s { closer = shut }, tt, rw k (rw p refl))
  stopping_moves (e ∷ rest) p k =
      (stopped 0, record s { senders = rest }, tt, rw (k, step) (rw (p, pick) refl))

  draining_moves : (q : List AuditEvent) → s.queue ≡ q → s.worker ≡ draining → CanMove c s
  unfolding step advance take_from receive with_room
  draining_moves [] p w =
      (go_on, record s { worker = flushing false }, tt, rw (w, step) (rw p (ground arith)))
  draining_moves (e ∷ rest) p w = elim (Bool-cases (ltb (length s.batch) c.batch_size)) [
    | inl room ↦ (
      take_next,
      batched e (record s { queue = rest }),
      tt,
      rw p (receive_room c e (record s { queue = rest }) s.worker w room),
    )
    | inr packed ↦ (go_on, record s { worker = flushing false }, tt, rw (w, step) (rw packed refl))
  ]

  waiting_moves :
      (q : List AuditEvent) → s.queue ≡ q → s.worker ≡ waiting → s.closer ≡ shut → CanMove c s
  unfolding step advance take_from receive
  waiting_moves [] p w k =
      (go_on, record s { worker = flushing true }, tt, rw (w, step) (rw p (rw k refl)))
  waiting_moves (e ∷ rest) p w k = (
    take_next,
    record (batched e (record s { queue = rest })) {
      worker = if c.timed then collecting else draining;
    },
    tt,
    rw p (rw (w, receive) refl),
  )

  -- With the channel closed the worker goes on.
  shut_moves : (w : Phase) → s.worker ≡ w → w ≢ finished → s.closer ≡ shut → CanMove c s
  unfolding step timer flush_in
  shut_moves waiting p n k = waiting_moves s.queue refl p k
  shut_moves draining p n k = draining_moves s.queue refl p
  shut_moves collecting p n k = (tick, record s { worker = draining }, tt, rw (p, step) refl)
  shut_moves (flushing last) p n k = (
    flush none,
    record (store_batch none s s.batch) { worker = if last then finished else waiting },
    tt,
    rw (p, step) refl,
  )
  shut_moves finished p n k = absurd (n refl)

  closing_moves :
      (k : Closer) → s.closer ≡ k → is_closed k ≡ true → s.worker ≢ finished → CanMove c s
  unfolding step stop_from
  closing_moves serving p closed n = cc
  closing_moves marked p closed n = (stop, record s { closer = stopping }, tt, rw (p, step) refl)
  closing_moves stopping p closed n = stopping_moves s.senders refl p
  closing_moves shut p closed n = shut_moves s.worker refl n p

-- Once Close has begun, and as long as the worker has not returned, some move of the auditor's own can
-- be made: Close never waits for ever.
pub close_goes_on :
    (c : Config) (s : Async) → is_closed s.closer ≡ true → s.worker ≢ finished → CanMove c s
close_goes_on c s closed n = closing_moves c s s.closer refl closed n
