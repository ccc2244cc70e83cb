-- ===== src/Consumer/Buffer.antt =====
-- class BatchBuffer of consumer/batch_buffer.py: the object, and its critical sections.
use crypto_streaming_lakehou.Base.{
  ℕ, ◌*◌, Bool, true, false, ◌||◌, List, [], ◌∷◌, ◌++◌, length, is_empty, ltb, leb,
}

-- What `self._timer` refers to: None, a timer that waits, or one whose callback has been started.
-- Every timer but the latest was cancelled when it was replaced, so no other one can wait.
pub data Timer : Type 0 where
  stopped pending fired : Timer

pub record BatchBuffer (M : Type 0) : Type 0 where
  pub batch_size : ℕ
  pub buffer : List M
  pub is_overloaded : Bool
  pub flushing : Bool
  pub timer : Timer

module _ {M : Type 0} where
  -- __init__, which ends with `_start_timer`
  abbrev pub init : ℕ → BatchBuffer M
  init size = record {
    batch_size = size;
    buffer = [];
    is_overloaded = false;
    flushing = false;
    timer = pending;
  }

  -- `_start_timer`: the attribute refers to a fresh timer that waits.
  unfoldable pub start_timer : BatchBuffer M → BatchBuffer M
  start_timer b = record b { timer = pending }

  -- The body of `add` under the lock. The size that it measured decides on the flush.
  unfoldable pub append : M → BatchBuffer M → BatchBuffer M
  append m b =
      let buffer' = b.buffer ++ m ∷ [] in
      record b { buffer = buffer'; is_overloaded = ltb (2 * b.batch_size) (length buffer') }

  -- `size >= self.batch_size`, on the size measured under the lock
  unfoldable pub wants_flush : M → BatchBuffer M → Bool
  wants_flush m b = leb b.batch_size (length (b.buffer ++ m ∷ []))

  -- The guard of the first critical section of `flush`.
  unfoldable pub skips_flush : BatchBuffer M → Bool
  skips_flush b = b.flushing || is_empty b.buffer

  -- The rest of that section: `batch` is what `buffer` held.
  unfoldable pub take_batch : BatchBuffer M → BatchBuffer M
  take_batch b = record b { buffer = []; is_overloaded = false; flushing = true }

  -- The `except` branch, under the lock
  unfoldable pub return_batch : List M → BatchBuffer M → BatchBuffer M
  return_batch batch b = record b { buffer = batch ++ b.buffer }

  -- The `finally` branch, under the lock
  unfoldable pub end_flush : BatchBuffer M → BatchBuffer M
  end_flush b = record b { flushing = false }

  -- `_reset_timer` cancels the current timer and starts a fresh one.
  unfoldable pub reset_timer : BatchBuffer M → BatchBuffer M
  unfolding start_timer
  reset_timer b = start_timer b

  -- `stop` cancels a timer that waits.
  unfoldable pub stop : BatchBuffer M → BatchBuffer M
  stop b = record b { timer = stopped }
