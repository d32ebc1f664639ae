-- ===== src/Tests/AuditTests.antt =====
-- internal/audit/audit.go on concrete schedules.
use password_manager.Prelude.{◌≡◌, ◌<◌, refl, true, false, none, some, List, [], ◌∷◌, ◌++◌}
use password_manager.Protocol.{AuditEvent}
use password_manager.Audit.{
  Async, new_async, config, Move, arrive, send, hand_over, take_next, go_on, flush, mark, stop,
  shut_down, step, run_moves, finished, stopping, shut, pick, send_from, take_from, receive,
  with_room, advance, flush_in, store_batch, mark_from, stop_from, shut_from, hand_from,
}
use password_manager.Audit.Order.{IsOrdered, run_moves-IsOrdered}
use password_manager.Audit.Weight.{weight, IsOwn, step-weight}
use password_manager.Audit.Closing.{close_drains, CanMove, close_goes_on}
use password_manager.Tests.Data.{row}

abbrev later_row : AuditEvent
later_row = record row { time = 21 }

abbrev morning : List Move
morning = arrive row ∷ send 0 ∷ arrive later_row ∷ take_next ∷ hand_over 0 ∷ go_on ∷ flush none ∷ []

-- A call of Append after Close has begun is refused.
abbrev evening : List Move
evening = mark ∷ arrive row ∷ stop ∷ shut_down ∷ go_on ∷ flush none ∷ []

-- Two events, the second handed to the worker itself, then a close.
abbrev day : List Move
day = morning ++ evening

abbrev after_day : Async
after_day = run_moves (config 2 false) day (new_async)

day_ends : after_day.worker ≡ finished
unfolding run_moves step config pick send_from take_from receive with_room advance flush_in
    store_batch mark_from stop_from shut_from hand_from
day_ends = refl

day_writes : after_day.written ≡ row ∷ later_row ∷ []
unfolding run_moves step config pick send_from take_from receive with_room advance flush_in
    store_batch mark_from stop_from shut_from hand_from
day_writes = refl

close_drains_example :
    (after_day.closer ≡ shut)
    × (after_day.flushed ≡ after_day.accepted)
    × (after_day.failure ≡ none → after_day.written ≡ after_day.accepted)
close_drains_example = close_drains 2 false day day_ends

run_moves-IsOrdered_example : IsOrdered after_day
run_moves-IsOrdered_example =
    run_moves-IsOrdered (config 2 false) day (new_async)
      (record { order = refl; clean = λ p. refl })

abbrev one_waits : Async
one_waits = record (new_async) { senders = row ∷ [] }

send_made :
    step (config 2 false) (send 0) one_waits
    ≡ some (record (new_async) { queue = row ∷ []; accepted = row ∷ [] })
unfolding step config send_from pick
send_made = refl

step-weight_example :
    (IsOwn (send 0)
      → weight (record (new_async) { queue = row ∷ []; accepted = row ∷ [] }) < weight one_waits)
    × ((e : AuditEvent)
        → send 0 ≡ arrive e
        → false ≡ true
        → record (new_async) { queue = row ∷ []; accepted = row ∷ [] } ≡ one_waits)
step-weight_example =
    step-weight (config 2 false) (send 0) one_waits
      (record (new_async) { queue = row ∷ []; accepted = row ∷ [] }) send_made

abbrev closing_up : Async
closing_up = record one_waits { closer = stopping }

close_goes_on_example : CanMove (config 2 false) closing_up
close_goes_on_example = close_goes_on (config 2 false) closing_up refl (λ p. cc)
