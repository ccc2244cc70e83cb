-- ===== src/Consumer/Threads/Timers.antt =====
-- The one-shot timer of consumer/batch_buffer.py, and calls of `flush` and `stop` that meet a flush
-- in progress.
use crypto_streaming_lakehou.Base.{
  ℕ, ◌+◌, ◌<◌, ◌≡◌, ◌≢◌, refl, sym, ap, ◌∙◌, Bool, true, false, List, [], ◌∷◌, ◌++◌, append_assoc,
  append-nil, arith, length, length-append,
}
use crypto_streaming_lakehou.Consumer.Buffer.{Timer, pending}
use crypto_streaming_lakehou.Consumer.Threads.{
  Flush, entering, inserting, returning, ending, rearming, System, Shared, Action, add, call_flush,
  fire, call_stop, resume, resume_at, step, run,
}
use crypto_streaming_lakehou.Consumer.Threads.Messages.{active}
use crypto_streaming_lakehou.Consumer.Threads.Conservation.{IsConserved}

abbrev pub is_waiting : Timer → Bool
is_waiting pending = true
is_waiting _ = false

module _ {M : Type 0} where
  -- The messages that a schedule adds.
  abbrev pub added : List (Action M) → List M
  added [] = []
  added (add m ∷ rest) = m ∷ added rest
  added (_ ∷ rest) = added rest

  -- The schedule holds no explicit call of `flush`; timers may fire, and flushes go on.
  abbrev pub IsQuiet : List (Action M) → Type 0
  IsQuiet [] = Unit
  IsQuiet (call_flush ∷ rest) = ⊥
  IsQuiet (_ ∷ rest) = IsQuiet rest

  -- No flush is in progress, and no timer waits.
  abbrev IsStale : System M → Type 0
  IsStale s = (s.flushes ≡ []) × (is_waiting s.object.timer ≡ false)

  -- From `s` to `s'` the messages `ms` have only been buffered.
  abbrev Buffers : System M → List M → System M → Type 0
  Buffers s ms s' =
      (s'.stored ≡ s.stored)
      × (s'.object.buffer ≡ s.object.buffer ++ ms)
      × (s'.object.batch_size ≡ s.object.batch_size)
      × (s'.flushes ≡ [])
      × (is_waiting s'.object.timer ≡ false)

  abbrev HasRoom : System M → List (Action M) → Type 0
  HasRoom s actions = length s.object.buffer + length (added actions) < s.object.batch_size

  add-Buffers :
      (m : M) (s : System M)
      → IsStale s
      → length s.object.buffer + 1 < s.object.batch_size
      → Buffers s (m ∷ []) (step (add m) s)
  unfolding step
  add-Buffers m s st room = ground (arith, length-append s.object.buffer (m ∷ []))

  fire-Buffers : (s : System M) → IsStale s → Buffers s [] (step fire s)
  unfolding step
  fire-Buffers s st = ground (arith, append-nil s.object.buffer)

  resume-Buffers :
      (i : ℕ) (b : Bool) (s : System M) → IsStale s → Buffers s [] (step (resume i b) s)
  unfolding step
  resume-Buffers i b s st = rw st.0 (refl, sym (append-nil _), refl, refl, st.1)

  stop-Buffers : (s : System M) → IsStale s → Buffers s [] (step call_stop s)
  unfolding step
  stop-Buffers s st = (refl, sym (append-nil _), refl, st.0, refl)

  room_after :
      (ms : List M) (s s' : System M) (n : ℕ)
      → Buffers s ms s'
      → length s.object.buffer + (length ms + n) < s.object.batch_size
      → length s'.object.buffer + n < s'.object.batch_size
  room_after ms s s' n b room = omega (arith, ap length b.1, b.2, length-append s.object.buffer ms)

  Buffers-run :
      (schedule : List (Action M)) (ms : List M) (s s' : System M)
      → Buffers s ms s'
      → (run schedule s').stored ≡ s'.stored
      → (run schedule s').object.buffer ≡ s'.object.buffer ++ added schedule
      → ((run schedule s').stored ≡ s.stored)
        × ((run schedule s').object.buffer ≡ s.object.buffer ++ (ms ++ added schedule))
  Buffers-run schedule ms s s' b p q =
      (p ∙ b.0, q ∙ rw b.1 (append_assoc s.object.buffer ms (added schedule)))

  abbrev Unflushed : List (Action M) → System M → Type 0
  Unflushed schedule s =
      ((run schedule s).stored ≡ s.stored)
      × ((run schedule s).object.buffer ≡ s.object.buffer ++ added schedule)

  run_stale :
      (schedule : List (Action M)) (s : System M)
      → IsQuiet schedule
      → IsStale s
      → HasRoom s schedule
      → Unflushed schedule s
  unfolding run
  run_stale [] s q st room = (refl, sym (append-nil _))
  run_stale (add m ∷ rest) s q st room =
      let s' = step (add m) s in
      let b = add-Buffers m s st (omega arith) in
      let room' = room_after (m ∷ []) s s' (length (added rest)) b (omega arith) in
      let (p, r) = run_stale rest s' q (b.3, b.4) room' in Buffers-run rest (m ∷ []) s s' b p r
  run_stale (call_flush ∷ rest) s q st room = absurd q
  run_stale (fire ∷ rest) s q st room =
      let s' = step fire s in
      let b = fire-Buffers s st in
      let room' = room_after [] s s' (length (added rest)) b (omega arith) in
      let (p, r) = run_stale rest s' q (b.3, b.4) room' in Buffers-run rest [] s s' b p r
  run_stale (call_stop ∷ rest) s q st room =
      let s' = step call_stop s in
      let b = stop-Buffers s st in
      let room' = room_after [] s s' (length (added rest)) b (omega arith) in
      let (p, r) = run_stale rest s' q (b.3, b.4) room' in Buffers-run rest [] s s' b p r
  run_stale (resume i ok ∷ rest) s q st room =
      let s' = step (resume i ok) s in
      let b = resume-Buffers i ok s st in
      let room' = room_after [] s s' (length (added rest)) b (omega arith) in
      let (p, r) = run_stale rest s' q (b.3, b.4) room' in Buffers-run rest [] s s' b p r

  empty_flush-Buffers :
      (success : Bool) (s : System M)
      → s.flushes ≡ []
      → s.object.timer ≡ pending
      → s.object.buffer ≡ []
      → Buffers s [] (step (resume 0 success) (step fire s))
  unfolding step
  empty_flush-Buffers success s nobody waits empty = ground (arith, append-nil s.object.buffer)

  -- A timer that fires while the buffer is empty and no flush is in progress is the last one: its
  -- flush returns before `_reset_timer`. From then on no time that passes causes a flush: in a
  -- schedule without an explicit call of `flush`, whatever timers and threads do, the messages
  -- that `add` takes stay in the buffer as long as they are fewer than `batch_size`.
  pub empty_flush_ends_timer :
      (success : Bool) (schedule : List (Action M)) (s : System M)
      → s.flushes ≡ []
      → s.object.timer ≡ pending
      → s.object.buffer ≡ []
      → IsQuiet schedule
      → length (added schedule) < s.object.batch_size
      → let s' = run (fire ∷ resume 0 success ∷ schedule) s in
        (s'.stored ≡ s.stored) × (s'.object.buffer ≡ added schedule)
  unfolding run
  empty_flush_ends_timer success schedule s nobody waits empty q room =
      let s' = step (resume 0 success) (step fire s) in
      let b = empty_flush-Buffers success s nobody waits empty in
      let room' = room_after [] s s' (length (added schedule)) b (omega (arith, ap length empty)) in
      let (p, r) = run_stale schedule s' q (b.3, b.4) room' in
      let (p', r') = Buffers-run schedule [] s s' b p r in
      (p', r' ∙ ap (λ l. l ++ added schedule) empty)

  resume_at-last :
      (success : Bool) (fs : List (Flush M)) (t : Shared M)
      → t.object.flushing ≡ true
      → resume_at (length fs) success (fs ++ entering ∷ []) t ≡ (fs, t)
  unfolding resume_at
  resume_at-last success [] t on = ground arith
  resume_at-last success (f ∷ fs) t on = rw (resume_at-last success fs t on)

  -- A call of `flush` while another one is active returns without storing anything, so a shutdown
  -- that meets a timer's flush leaves in the buffer what was added since that flush began.
  pub flush_meets_active :
      (success : Bool) (s : System M)
      → IsConserved s
      → 0 < active s.flushes
      → run (call_flush ∷ resume (length s.flushes) success ∷ []) s ≡ s
  unfolding run step
  flush_meets_active success s c h = rw (
      resume_at-last success s.flushes (record { object = s.object; stored = s.stored })
        (ground arith))

  -- A flush in progress, the only one and past its first critical section, starts a timer again
  -- after `stop` has cancelled the timer.
  pub stop_meets_active :
      (success : Bool) (f : Flush M) (s : System M)
      → s.flushes ≡ f ∷ []
      → f ≢ entering
      → let a = resume 0 success in (run (call_stop ∷ a ∷ a ∷ a ∷ a ∷ []) s).object.timer ≡ pending
  unfolding run step
  stop_meets_active success entering s e h = absurd (h refl)
  stop_meets_active true (inserting b) s e h = rw e refl
  stop_meets_active false (inserting b) s e h = rw e refl
  stop_meets_active success (returning b) s e h = rw e refl
  stop_meets_active success ending s e h = rw e refl
  stop_meets_active success rearming s e h = rw e refl
