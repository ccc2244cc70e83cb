-- ===== src/Consumer/Threads.antt =====
-- The threads that use one BatchBuffer (consumer/batch_buffer.py): the consumer's thread, which
-- adds messages, and the threads of timers. A schedule says which of them runs next; between two
-- steps of one thread any others may run, exactly where the code does not hold the lock.
pub mod Messages
pub mod Conservation
pub mod Timers
pub mod Sequential
pub mod Flushing
use crypto_streaming_lakehou.Base.{
  ℕ, zero, suc, Bool, true, false, List, [], ◌∷◌, ◌++◌, if◌then◌else◌,
}
use crypto_streaming_lakehou.Consumer.Buffer.{
  Timer, stopped, pending, fired, BatchBuffer, init, append, wants_flush, skips_flush, take_batch,
  return_batch, end_flush, reset_timer, stop,
}

-- Where a thread stands in a call of `flush`.
pub data Flush (M : Type 0) : Type 0 where
  -- before the first critical section
  entering : Flush M
  -- about to call `repository.insert_batch(batch)`
  inserting : List M → Flush M
  -- in the `except` branch
  returning : List M → Flush M
  -- in the `finally` branch, before `_flushing` is cleared
  ending : Flush M
  -- before `_reset_timer`
  rearming : Flush M

-- The object, the calls of `flush` in progress, and two records of what has happened: the messages
-- that the repository has stored and those that `add` has taken, each in order.
pub record System (M : Type 0) : Type 0 where
  pub object : BatchBuffer M
  pub flushes : List (Flush M)
  pub stored : List M
  pub accepted : List M

-- What a thread works on.
pub record Shared (M : Type 0) : Type 0 where
  pub object : BatchBuffer M
  pub stored : List M

-- One step of the schedule. `resume i success`: the i-th call of `flush` in progress goes on to
-- its next critical section, and if it calls the repository, `success` says whether that returns.
pub data Action (M : Type 0) : Type 0 where
  add : M → Action M
  call_flush : Action M
  fire : Action M
  call_stop : Action M
  resume : ℕ → Bool → Action M

module _ {M : Type 0} where
  -- One section of `flush`: the thread's next position, if it has not returned.
  unfoldable pub advance : Bool → Flush M → Shared M → List (Flush M) × Shared M
  unfolding skips_flush take_batch return_batch end_flush reset_timer
  advance success entering s =
      if skips_flush s.object
      then ([], s)
      else (inserting s.object.buffer ∷ [], record s { object = take_batch s.object })
  advance success (inserting batch) s =
      if success
      then (ending ∷ [], record s { stored = s.stored ++ batch })
      else (returning batch ∷ [], s)
  advance success (returning batch) s =
      (ending ∷ [], record s { object = return_batch batch s.object })
  advance success ending s = (rearming ∷ [], record s { object = end_flush s.object })
  advance success rearming s = ([], record s { object = reset_timer s.object })

  -- The i-th thread takes its step.
  unfoldable pub resume_at : ℕ → Bool → List (Flush M) → Shared M → List (Flush M) × Shared M
  unfolding advance
  resume_at i success [] s = ([], s)
  resume_at zero success (f ∷ fs) s = let (next, s') = advance success f s in (next ++ fs, s')
  resume_at (suc i) success (f ∷ fs) s = let (fs', s') = resume_at i success fs s in (f ∷ fs', s')

  -- A timer that waits may fire: its thread calls `flush`.
  unfoldable pub fire_timer : Timer → System M → System M
  fire_timer pending s = record s {
    object = record s.object { timer = fired };
    flushes = s.flushes ++ entering ∷ [];
  }
  fire_timer _ s = s

  unfoldable pub step : Action M → System M → System M
  unfolding append wants_flush fire_timer stop resume_at
  step (add m) s = record s {
    object = append m s.object;
    flushes = if wants_flush m s.object then s.flushes ++ entering ∷ [] else s.flushes;
    accepted = s.accepted ++ m ∷ [];
  }
  step call_flush s = record s { flushes = s.flushes ++ entering ∷ [] }
  step fire s = fire_timer s.object.timer s
  step call_stop s = record s { object = stop s.object }
  step (resume i success) s =
      let (fs, t) =
        resume_at i success s.flushes (record { object = s.object; stored = s.stored }) in
      record s { object = t.object; flushes = fs; stored = t.stored }

  unfoldable pub run : List (Action M) → System M → System M
  run [] s = s
  run (a ∷ rest) s = run rest (step a s)

  abbrev pub start : ℕ → System M
  start size = record { object = init size; flushes = []; stored = []; accepted = [] }
