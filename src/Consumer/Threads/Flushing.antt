-- ===== src/Consumer/Threads/Flushing.antt =====
-- What one thread's call of `flush` (consumer/batch_buffer.py) comes to.
use crypto_streaming_lakehou.Base.{
  ◌≡◌, refl, Bool, true, false, ◌||◌, Bool-cases, inl, inr, List, [], ◌++◌, append-nil, is_empty,
  if◌then◌else◌,
}
use crypto_streaming_lakehou.Consumer.Buffer.{
  pending, skips_flush, take_batch, return_batch, end_flush, reset_timer, start_timer,
}
use crypto_streaming_lakehou.Consumer.Threads.{Shared, run, step, advance, resume_at}
use crypto_streaming_lakehou.Consumer.Threads.Sequential.{flush_schedule, alone}

module _ {M : Type 0} where
  -- With no other call in progress, the sections of one call of `flush`, run one after the other,
  -- end after five steps at most. If `_flushing` is set or the buffer is empty, nothing changes.
  -- Otherwise `_flushing` and `is_overloaded` are cleared and a fresh timer waits; if the repository
  -- returns, the buffer is empty and all that it held is stored behind the rest, in order; if it
  -- raises, the buffer and what is stored are as before.
  pub flush_schedule_lem :
      (success : Bool) (s : Shared M) (taken : List M)
      → let skips = s.object.flushing || is_empty s.object.buffer in
        run (flush_schedule success) (alone s taken) ≡ record {
          object = if skips then s.object else record {
            batch_size = s.object.batch_size;
            buffer = if success then [] else s.object.buffer;
            is_overloaded = false;
            flushing = false;
            timer = pending;
          };
          flushes = [];
          stored =
              if skips then s.stored else if success then s.stored ++ s.object.buffer else s.stored;
          accepted = taken;
        }
  unfolding run step advance resume_at skips_flush take_batch return_batch end_flush reset_timer
      start_timer
  flush_schedule_lem true s taken =
      elim (Bool-cases (s.object.flushing || is_empty s.object.buffer)) [
        | inl skip ↦ rw skip refl
        | inr go ↦ rw go refl
      ]
  flush_schedule_lem false s taken =
      elim (Bool-cases (s.object.flushing || is_empty s.object.buffer)) [
        | inl skip ↦ rw skip refl
        | inr go ↦ rw go (rw (append-nil s.object.buffer) refl)
      ]
