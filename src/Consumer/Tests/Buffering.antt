-- ===== src/Consumer/Tests/Buffering.antt =====
-- Runs of consumer/batch_buffer.py.
use crypto_streaming_lakehou.Base.{
  ℕ, ◌≡◌, ◌≢◌, refl, true, false, List, [], ◌∷◌, ◌++◌, length, arith, ◌<◌,
}
use crypto_streaming_lakehou.Consumer.Buffer.{
  pending, fired, append, wants_flush, skips_flush, take_batch, return_batch,
}
use crypto_streaming_lakehou.Consumer.Threads.Flushing.{flush_schedule_lem}
use crypto_streaming_lakehou.Consumer.Threads.{
  Flush, entering, inserting, System, Shared, Action, add, call_flush, fire, call_stop, resume,
  advance, resume_at, fire_timer, step, run, start,
}
use crypto_streaming_lakehou.Consumer.Threads.Conservation.{IsConserved, run-IsConserved}
use crypto_streaming_lakehou.Consumer.Threads.Sequential.{
  flush, add_message, flush_schedule, alone, run-flush_schedule, flush_outcome,
  add_message-in_order, add_message_bounds,
}
use crypto_streaming_lakehou.Consumer.Threads.Timers.{
  empty_flush_ends_timer, flush_meets_active, stop_meets_active,
}

starts : IsConserved (start {M = ℕ} 2)
starts = record { one_flush = refl; in_order = refl }

-- Two messages fill a batch; a third comes while the repository works on it, and it raises.
abbrev busy : List (Action ℕ)
busy =
    add 7
    ∷ add 8
    ∷ resume 0 true
    ∷ add 9
    ∷ fire
    ∷ resume 1 true
    ∷ resume 0 false
    ∷ resume 0 true
    ∷ []

run-IsConserved_example : IsConserved (run busy (start 2))
run-IsConserved_example = run-IsConserved busy (start 2) starts

busy_keeps : (run busy (start 2)).object.buffer ≡ 7 ∷ 8 ∷ 9 ∷ []
unfolding run step append wants_flush skips_flush take_batch return_batch resume_at advance
    fire_timer
busy_keeps = refl

abbrev holding : Shared ℕ
holding = record {
  object = record {
    batch_size = 3;
    buffer = 7 ∷ 8 ∷ [];
    is_overloaded = false;
    flushing = false;
    timer = fired;
  };
  stored = 6 ∷ [];
}

run-flush_schedule_instance :
    run (flush_schedule true) (alone holding (6 ∷ 7 ∷ 8 ∷ []))
    ≡ alone (flush true holding) (6 ∷ 7 ∷ 8 ∷ [])
run-flush_schedule_instance = run-flush_schedule true holding (6 ∷ 7 ∷ 8 ∷ [])

flush_schedule_lem_example : run (flush_schedule false) (alone holding (6 ∷ 7 ∷ 8 ∷ [])) ≡ record {
  object = record {
    batch_size = 3;
    buffer = 7 ∷ 8 ∷ [];
    is_overloaded = false;
    flushing = false;
    timer = pending;
  };
  flushes = [];
  stored = 6 ∷ [];
  accepted = 6 ∷ 7 ∷ 8 ∷ [];
}
flush_schedule_lem_example = flush_schedule_lem false holding (6 ∷ 7 ∷ 8 ∷ [])

flush_outcome_instance :
    let s' = flush true holding in
    (s'.object.buffer ≡ [])
    × (s'.stored ≡ 6 ∷ 7 ∷ 8 ∷ [])
    × (s'.object.flushing ≡ false)
    × (s'.object.timer ≡ pending)
unfolding skips_flush
flush_outcome_instance = flush_outcome true holding refl

add_message-in_order_instance :
    let s' = add_message false 9 holding in s'.stored ++ s'.object.buffer ≡ 6 ∷ 7 ∷ 8 ∷ 9 ∷ []
add_message-in_order_instance = add_message-in_order false 9 holding

add_message_bounds_example :
    let s' = add_message true 9 holding in
    (length s'.object.buffer < s'.object.batch_size)
    × (s'.object.flushing ≡ false)
    × (s'.object.is_overloaded ≡ false)
    × (s'.object.batch_size ≡ 3)
add_message_bounds_example = add_message_bounds 9 holding refl (omega arith)

abbrev waits : List (Action ℕ)
waits = add 7 ∷ fire ∷ resume 0 true ∷ add 8 ∷ fire ∷ []

empty_flush_ends_timer_example :
    let s' = run (fire ∷ resume 0 true ∷ waits) (start 3) in
    (s'.stored ≡ []) × (s'.object.buffer ≡ 7 ∷ 8 ∷ [])
empty_flush_ends_timer_example =
    empty_flush_ends_timer true waits (start 3) refl refl refl tt (omega arith)

-- A timer's flush holds 7 and 8, and 9 has been added since.
abbrev flushing : System ℕ
flushing = record {
  object = record {
    batch_size = 3;
    buffer = 9 ∷ [];
    is_overloaded = false;
    flushing = true;
    timer = fired;
  };
  flushes = inserting (7 ∷ 8 ∷ []) ∷ [];
  stored = [];
  accepted = 7 ∷ 8 ∷ 9 ∷ [];
}

flush_meets_active_example : run (call_flush ∷ resume 1 true ∷ []) flushing ≡ flushing
flush_meets_active_example =
    flush_meets_active true flushing (record { one_flush = refl; in_order = refl }) (omega arith)

is_inside : ◌≢◌ {A = Flush ℕ} (inserting (7 ∷ 8 ∷ [])) entering
is_inside h = cc

stop_meets_active_instance :
    let a = resume 0 true in (run (call_stop ∷ a ∷ a ∷ a ∷ a ∷ []) flushing).object.timer ≡ pending
stop_meets_active_instance = stop_meets_active true (inserting (7 ∷ 8 ∷ [])) flushing refl is_inside
