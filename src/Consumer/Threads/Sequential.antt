-- ===== src/Consumer/Threads/Sequential.antt =====
-- One thread's call of `flush` or `add` (consumer/batch_buffer.py) with no other in between.
use crypto_streaming_lakehou.Base.{
  ◌<◌, ◌≡◌, refl, sym, ◌∙◌, Bool, true, false, Bool-cases, inl, inr, List, [], ◌∷◌, ◌++◌,
  append-nil, append_assoc, arith, length, length-append, if◌then◌else◌,
}
use crypto_streaming_lakehou.Consumer.Buffer.{
  BatchBuffer, pending, append, wants_flush, skips_flush, take_batch, return_batch, end_flush,
  reset_timer,
}
use crypto_streaming_lakehou.Consumer.Threads.{
  System, Shared, Action, call_flush, resume, step, run,
}

module _ {M : Type 0} where
  -- `try … except … finally` around the call of the repository, and `_reset_timer`
  insert_taken : Bool → List M → Shared M → Shared M
  insert_taken true batch s = record {
    object = reset_timer (end_flush s.object);
    stored = s.stored ++ batch;
  }
  insert_taken false batch s = record s {
    object = reset_timer (end_flush (return_batch batch s.object));
  }

  unfoldable pub flush : Bool → Shared M → Shared M
  unfolding insert_taken skips_flush take_batch return_batch end_flush reset_timer
  flush success s =
      if skips_flush s.object
      then s
      else insert_taken success s.object.buffer (record s { object = take_batch s.object })

  -- `add`, and `insert_one`, which is the same
  unfoldable pub add_message : Bool → M → Shared M → Shared M
  unfolding append wants_flush flush
  add_message success m s =
      let s' = record s { object = append m s.object } in
      if wants_flush m s.object then flush success s' else s'

  abbrev pub flush_schedule : Bool → List (Action M)
  flush_schedule success =
      call_flush
      ∷ resume 0 success
      ∷ resume 0 success
      ∷ resume 0 success
      ∷ resume 0 success
      ∷ resume 0 success
      ∷ []

  abbrev pub alone : Shared M → List M → System M
  alone s taken = record { object = s.object; flushes = []; stored = s.stored; accepted = taken }

  -- With no other call in progress, the sections of one call of `flush`, run one after the other,
  -- end after five steps at most, with the object and the stored messages of the sequential
  -- `flush`.
  pub run-flush_schedule :
      (success : Bool) (s : Shared M) (taken : List M)
      → run (flush_schedule success) (alone s taken) ≡ alone (flush success s) taken
  unfolding run step flush
  run-flush_schedule true s taken = elim (Bool-cases (skips_flush s.object)) [
    | inl skip ↦ rw skip refl
    | inr go ↦ rw go refl
  ]
  run-flush_schedule false s taken = ground arith

  flush_skipped :
      (success : Bool) (s : Shared M) → skips_flush s.object ≡ true → flush success s ≡ s
  unfolding flush
  flush_skipped success s h = rw h refl

  -- A call of `flush` that is not skipped ends with `_flushing` cleared and a timer that waits. If
  -- the repository returns, all that was buffered is stored behind the rest and the buffer is
  -- empty; if it raises, the buffer and what is stored are as before the call.
  pub flush_outcome :
      (success : Bool) (s : Shared M)
      → skips_flush s.object ≡ false
      → let s' = flush success s in
        (s'.object.buffer ≡ (if success then [] else s.object.buffer))
        × (s'.stored ≡ (if success then s.stored ++ s.object.buffer else s.stored))
        × (s'.object.flushing ≡ false)
        × (s'.object.timer ≡ pending)
  unfolding flush
  flush_outcome true s h = rw h (refl, refl, refl, refl)
  flush_outcome false s h = rw h (append-nil s.object.buffer, refl, refl, refl)

  pub skips_flush_empty :
      (b : BatchBuffer M) → skips_flush b ≡ true → b.flushing ≡ false → b.buffer ≡ []
  unfolding skips_flush
  skips_flush_empty b h off = ground arith

  skip_if_empty :
      (success : Bool) (s : Shared M)
      → s.object.buffer ≡ []
      → (s.object.buffer ≡ (if success then [] else s.object.buffer))
        × (s.stored ≡ (if success then s.stored ++ s.object.buffer else s.stored))
  skip_if_empty true s e = (e, rw e (sym (append-nil s.stored)))
  skip_if_empty false s e = (refl, refl)

  -- The same for a call that no active flush makes return at once, with an empty buffer too
  pub flush_idle :
      (success : Bool) (s : Shared M)
      → s.object.flushing ≡ false
      → let s' = flush success s in
        (s'.object.buffer ≡ (if success then [] else s.object.buffer))
        × (s'.stored ≡ (if success then s.stored ++ s.object.buffer else s.stored))
  flush_idle success s off = elim (Bool-cases (skips_flush s.object)) [
    | inl skip ↦
        rw (flush_skipped success s skip)
          (skip_if_empty success s (skips_flush_empty s.object skip off))
    | inr go ↦ (let r = flush_outcome success s go in (r.0, r.1))
  ]

  pub flush-in_order :
      (success : Bool) (s : Shared M)
      → let s' = flush success s in s'.stored ++ s'.object.buffer ≡ s.stored ++ s.object.buffer
  unfolding flush
  flush-in_order true s = elim (Bool-cases (skips_flush s.object)) [
    | inl skip ↦ rw skip refl
    | inr go ↦ rw go (append-nil _)
  ]
  flush-in_order false s = elim (Bool-cases (skips_flush s.object)) [
    | inl skip ↦ rw skip refl
    | inr go ↦ rw go (simp append-nil)
  ]

  -- Whatever the repository does, `add` keeps what is stored and what is buffered, in order, and
  -- puts the message behind them.
  pub add_message-in_order :
      (success : Bool) (m : M) (s : Shared M)
      → let s' = add_message success m s in
        s'.stored ++ s'.object.buffer ≡ s.stored ++ s.object.buffer ++ m ∷ []
  unfolding add_message
  add_message-in_order success m s = elim (Bool-cases (wants_flush m s.object)) [
    | inl full ↦ rw full (
        flush-in_order success (record s { object = append m s.object })
        ∙ sym (append_assoc s.stored s.object.buffer (m ∷ [])))
    | inr room ↦ rw room (sym (append_assoc s.stored s.object.buffer (m ∷ [])))
  ]

  -- If the repository returns, no other flush is active and the buffer is shorter than a batch,
  -- `add` leaves it shorter than a batch, with no flush active and `is_overloaded` cleared.
  pub add_message_bounds :
      (m : M) (s : Shared M)
      → s.object.flushing ≡ false
      → length s.object.buffer < s.object.batch_size
      → let s' = add_message true m s in
        (length s'.object.buffer < s'.object.batch_size)
        × (s'.object.flushing ≡ false)
        × (s'.object.is_overloaded ≡ false)
        × (s'.object.batch_size ≡ s.object.batch_size)
  unfolding add_message
  add_message_bounds m s off room = ground (arith, length-append s.object.buffer (m ∷ []))
