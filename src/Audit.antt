-- ===== src/Audit.antt =====
-- internal/audit/audit.go: the buffered auditor, as the steps of its goroutines: the callers of Append,
-- the worker of loop, and Close. A move is one step of one of them; a schedule is a list of moves.
pub mod Order
pub mod Consistency
pub mod Bounds
pub mod Weight
pub mod Closing
use password_manager.Prelude.{
  ℕ, zero, suc, Bool, true, false, not, ◌&&◌, ◌||◌, Option, none, some, List, [], ◌∷◌, ◌++◌, length,
  Error, closed, canceled, deadline_exceeded, wrap, ltb, if◌then◌else◌,
}
use password_manager.Protocol.{AuditEvent}

-- Where the worker stands; `flushing true` is the flush before the return.
pub data Phase : Type 0 where
  waiting collecting draining finished : Phase
  flushing : Bool → Phase

-- How far Close has come: the flag under the mutex, the stop channel, the event channel.
pub data Closer : Type 0 where
  serving marked stopping shut : Closer

pub record Config : Type 0 where
  pub cap : ℕ
  pub batch_size : ℕ
  -- flushInterval > 0
  pub timed : Bool

-- NewAsyncWithInterval
unfoldable pub config : ℕ → Bool → Config
config cap timed =
    let least = (if ltb cap 1 then 1 else cap) in
    record { cap = cap; batch_size = if ltb 256 least then 256 else least; timed = timed }

-- `senders` are the calls of Append between the lock and the end of their select. The last three
-- fields record what happened: the events whose Append returned nil, the events handed to the store
-- by flush, and those of a call that the store did not fail, each in order.
pub record Async : Type 0 where
  pub closer : Closer
  pub senders : List AuditEvent
  pub queue : List AuditEvent
  pub worker : Phase
  pub batch : List AuditEvent
  pub failure : Option Error
  pub accepted : List AuditEvent
  pub flushed : List AuditEvent
  pub written : List AuditEvent

abbrev pub new_async : Async
new_async = record {
  closer = serving;
  senders = [];
  queue = [];
  worker = waiting;
  batch = [];
  failure = none;
  accepted = [];
  flushed = [];
  written = [];
}

pub data Move : Type 0 where
  -- Append takes the lock
  arrive : AuditEvent → Move
  -- the select of the i-th sender: a place in the buffer, the worker itself, the stop channel, its context
  send hand_over stopped canceled_at : ℕ → Move
  -- the worker: a receive from the buffer, its timer, its own next step, a flush with the store's answer
  take_next tick go_on : Move
  flush : Option Error → Move
  -- Close
  mark stop shut_down : Move

abbrev pub is_closed : Closer → Bool
is_closed serving = false
is_closed _ = true

abbrev pub is_stopped : Closer → Bool
is_stopped stopping = true
is_stopped shut = true
is_stopped _ = false

abbrev pub is_shut : Closer → Bool
is_shut shut = true
is_shut _ = false

abbrev pub no_events : List AuditEvent → Bool
no_events [] = true
no_events (e ∷ rest) = false

-- The i-th element and the others.
unfoldable pub pick : ℕ → List AuditEvent → Option (AuditEvent × List AuditEvent)
pick i [] = none
pick zero (e ∷ rest) = some (e, rest)
pick (suc i) (e ∷ rest) = elim (pick i rest) [
  | none ↦ none
  | some (x, others) ↦ some (x, e ∷ others)
]

abbrev pub batched : AuditEvent → Async → Async
batched e s = record s { batch = s.batch ++ e ∷ [] }

abbrev pub queued : AuditEvent → List AuditEvent → Async → Async
queued e others s = record s {
  senders = others;
  queue = s.queue ++ e ∷ [];
  accepted = s.accepted ++ e ∷ [];
}

unfoldable pub with_room : Config → AuditEvent → Async → Option Async
with_room c e s = if ltb (length s.batch) c.batch_size then some (batched e s) else none

-- The worker has received an event.
unfoldable pub receive : Config → AuditEvent → Async → Phase → Option Async
receive c e s waiting =
    some (record (batched e s) { worker = if c.timed then collecting else draining })
receive c e s collecting = with_room c e s
receive c e s draining = with_room c e s
receive c e s (flushing last) = none
receive c e s finished = none

unfoldable pub take_from : Config → Async → List AuditEvent → Option Async
take_from c s [] = none
take_from c s (e ∷ rest) = receive c e (record s { queue = rest }) s.worker

unfoldable pub send_from : Config → Async → Option (AuditEvent × List AuditEvent) → Option Async
send_from c s none = none
send_from c s (some (e, others)) =
    if ltb (length s.queue) c.cap then some (queued e others s) else none

-- A sender meets the worker at its receive, with nothing in the buffer.
unfoldable pub hand_from : Config → Async → Option (AuditEvent × List AuditEvent) → Option Async
hand_from c s none = none
hand_from c s (some (e, others)) =
    if no_events s.queue
    then receive c e (record s { senders = others; accepted = s.accepted ++ e ∷ [] }) s.worker
    else none

unfoldable pub leave_from : Async → Option (AuditEvent × List AuditEvent) → Option Async
leave_from s none = none
leave_from s (some (e, others)) = some (record s { senders = others })

-- What the worker does by itself: it sees the channel closed and empty, or its batch full, or, while
-- it drains, nothing more to take.
unfoldable pub advance : Config → Async → Phase → Option Async
advance c s waiting =
    if is_shut s.closer && no_events s.queue
    then some (record s { worker = flushing true })
    else none
advance c s collecting =
    if not (ltb (length s.batch) c.batch_size)
    then some (record s { worker = flushing false })
    else if is_shut s.closer && no_events s.queue
    then some (record s { worker = flushing true })
    else none
advance c s draining =
    if not (ltb (length s.batch) c.batch_size) || no_events s.queue
    then some (record s { worker = flushing false })
    else none
advance c s (flushing last) = none
advance c s finished = none

unfoldable pub timer : Async → Phase → Option Async
timer s collecting = some (record s { worker = draining })
timer s _ = none

abbrev pub first_failure : Option Error → Error → Option Error
first_failure none e = some e
first_failure (some e') e = some e'

-- flush: nothing for an empty batch, else one call of AppendAudits.
unfoldable pub store_batch : Option Error → Async → List AuditEvent → Async
store_batch answer s [] = s
store_batch none s (e ∷ rest) = record s {
  batch = [];
  flushed = s.flushed ++ e ∷ rest;
  written = s.written ++ e ∷ rest;
}
store_batch (some x) s (e ∷ rest) = record s {
  batch = [];
  flushed = s.flushed ++ e ∷ rest;
  failure = first_failure s.failure x;
}

unfoldable pub flush_in : Option Error → Async → Phase → Option Async
flush_in answer s (flushing last) =
    some (record (store_batch answer s s.batch) { worker = if last then finished else waiting })
flush_in answer s _ = none

-- Close, in its three steps; the event channel is closed once no sender is left.
unfoldable pub mark_from : Async → Closer → Option Async
mark_from s serving = some (record s { closer = marked })
mark_from s _ = none

unfoldable pub stop_from : Async → Closer → Option Async
stop_from s marked = some (record s { closer = stopping })
stop_from s _ = none

unfoldable pub shut_from : Async → Closer → Option Async
shut_from s stopping = if no_events s.senders then some (record s { closer = shut }) else none
shut_from s _ = none

-- One move, if it can be made. An Append that finds the flag set returns ErrClosed and changes nothing.
unfoldable pub step : Config → Move → Async → Option Async
step c (arrive e) s =
    if is_closed s.closer then some s else some (record s { senders = s.senders ++ e ∷ [] })
step c (send i) s = send_from c s (pick i s.senders)
step c (hand_over i) s = hand_from c s (pick i s.senders)
step c (stopped i) s = if is_stopped s.closer then leave_from s (pick i s.senders) else none
step c (canceled_at i) s = leave_from s (pick i s.senders)
step c take_next s = take_from c s s.queue
step c tick s = timer s s.worker
step c go_on s = advance c s s.worker
step c (flush answer) s = flush_in answer s s.worker
step c mark s = mark_from s s.closer
step c stop s = stop_from s s.closer
step c shut_down s = shut_from s s.closer

-- A schedule: moves that cannot be made are passed over.
unfoldable pub run_moves : Config → List Move → Async → Async
run_moves c [] s = s
run_moves c (m ∷ rest) s = run_moves c rest (elim (step c m s) [ none ↦ s | some s' ↦ s' ])

-- IsDropped
unfoldable pub is_dropped : Error → Bool
is_dropped closed = true
is_dropped canceled = true
is_dropped deadline_exceeded = true
is_dropped (wrap text e) = is_dropped e
is_dropped _ = false
