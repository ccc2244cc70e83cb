-- ===== src/Consumer/Threads/Messages.antt =====
-- The messages of consumer/batch_buffer.py over one step of a thread that runs `flush`.
use crypto_streaming_lakehou.Base.{
  ℕ, zero, suc, ◌+◌, ◌≡◌, refl, ap, ◌∙◌, Bool, true, false, Bool-cases, inl, inr, List, [], ◌∷◌,
  ◌++◌, append-nil, append_assoc, arith, bit,
}
use crypto_streaming_lakehou.Consumer.Buffer.{BatchBuffer, skips_flush}
use crypto_streaming_lakehou.Consumer.Threads.{
  Flush, entering, inserting, returning, ending, rearming, Shared, advance, resume_at,
}

module _ {M : Type 0} where
  -- Whether a call of `flush` stands between its two assignments of `_flushing`.
  abbrev pub is_active : Flush M → ℕ
  is_active entering = 0
  is_active (inserting _) = 1
  is_active (returning _) = 1
  is_active ending = 1
  is_active rearming = 0

  abbrev pub active : List (Flush M) → ℕ
  active [] = 0
  active (f ∷ fs) = is_active f + active fs

  -- The messages that a call of `flush` holds, outside the buffer.
  abbrev pub held : Flush M → List M
  held (inserting batch) = batch
  held (returning batch) = batch
  held _ = []

  abbrev pub in_flight : List (Flush M) → List M
  in_flight [] = []
  in_flight (f ∷ fs) = held f ++ in_flight fs

  active-append : (fs gs : List (Flush M)) → active (fs ++ gs) ≡ active fs + active gs
  active-append [] gs = omega arith
  active-append (f ∷ fs) gs = omega (arith, active-append fs gs)

  in_flight-append : (fs gs : List (Flush M)) → in_flight (fs ++ gs) ≡ in_flight fs ++ in_flight gs
  in_flight-append [] gs = refl
  in_flight-append (f ∷ fs) gs = simp (in_flight-append fs gs, append_assoc)

  pub active-enter : (fs : List (Flush M)) → active (fs ++ entering ∷ []) ≡ active fs
  active-enter fs = omega (arith, active-append fs (entering ∷ []))

  pub in_flight-enter : (fs : List (Flush M)) → in_flight (fs ++ entering ∷ []) ≡ in_flight fs
  in_flight-enter fs = simp (in_flight-append fs (entering ∷ []), append-nil)

  in_flight_idle : (fs : List (Flush M)) → active fs ≡ 0 → in_flight fs ≡ []
  in_flight_idle [] h = refl
  in_flight_idle (entering ∷ fs) h = in_flight_idle fs (omega arith)
  in_flight_idle (inserting b ∷ fs) h = absurd (omega arith)
  in_flight_idle (returning b ∷ fs) h = absurd (omega arith)
  in_flight_idle (ending ∷ fs) h = absurd (omega arith)
  in_flight_idle (rearming ∷ fs) h = in_flight_idle fs (omega arith)

  -- All messages that are stored, held by a flush, or in the buffer, in this order.
  abbrev pub all_messages : List (Flush M) × Shared M → List M
  all_messages (fs, s) = s.stored ++ in_flight fs ++ s.object.buffer

  -- A step with no flush active keeps the messages, and makes at most one flush active.
  advance-active :
      (k : ℕ) (ok : Bool) (f : Flush M) (s : Shared M)
      → is_active f + k ≡ bit s.object.flushing
      → let (fs, s') = advance ok f s in active fs + k ≡ bit s'.object.flushing
  unfolding advance
  advance-active k ok entering s h = ground arith
  advance-active k ok (inserting b) s h = ground arith
  advance-active k ok (returning b) s h = ground arith
  advance-active k ok ending s h = ground arith
  advance-active k ok rearming s h = ground arith

  -- While one flush is active elsewhere, the step of another thread changes none of these.
  abbrev IsBystander : Shared M → List (Flush M) × Shared M → Type 0
  IsBystander s (fs, s') =
      (active fs ≡ 0)
      × (s'.stored ≡ s.stored)
      × (s'.object.buffer ≡ s.object.buffer)
      × (s'.object.flushing ≡ true)

  advance-IsBystander :
      (success : Bool) (f : Flush M) (s : Shared M)
      → is_active f ≡ 0
      → s.object.flushing ≡ true
      → IsBystander s (advance success f s)
  unfolding advance
  advance-IsBystander success entering s h e = ground arith
  advance-IsBystander success (inserting b) s h e = absurd (omega arith)
  advance-IsBystander success (returning b) s h e = absurd (omega arith)
  advance-IsBystander success ending s h e = absurd (omega arith)
  advance-IsBystander success rearming s h e = ground arith

  resume_at-IsBystander :
      (i : ℕ) (success : Bool) (fs : List (Flush M)) (s : Shared M)
      → active fs ≡ 0
      → s.object.flushing ≡ true
      → IsBystander s (resume_at i success fs s)
  unfolding resume_at
  resume_at-IsBystander i success [] s h e = (refl, refl, refl, e)
  resume_at-IsBystander zero success (f ∷ fs) s h e =
      let (next, s') = advance success f s in
      let (a, p, q, r) = advance-IsBystander success f s (omega arith) e in
      (omega (arith, active-append next fs, a), p, q, r)
  resume_at-IsBystander (suc i) success (f ∷ fs) s h e =
      let (a, p, q, r) = resume_at-IsBystander i success fs s (omega arith) e in
      (omega arith, p, q, r)

  pub resume_at-active :
      (k i : ℕ) (success : Bool) (fs : List (Flush M)) (s : Shared M)
      → active fs + k ≡ bit s.object.flushing
      → let (fs', s') = resume_at i success fs s in active fs' + k ≡ bit s'.object.flushing
  unfolding resume_at
  resume_at-active k i success [] s h = h
  resume_at-active k zero success (f ∷ fs) s h =
      let (next, s') = advance success f s in
      omega (arith, advance-active (active fs + k) success f s (omega arith), active-append next fs)
  resume_at-active k (suc i) success (f ∷ fs) s h =
      omega (arith, resume_at-active (is_active f + k) i success fs s (omega arith))

  skips_flush_iff : (b : BatchBuffer M) → skips_flush b ≡ false → b.flushing ≡ false
  unfolding skips_flush
  skips_flush_iff b h = ground arith

  idle_of_room :
      (fs : List (Flush M)) (s : Shared M)
      → active fs ≡ bit s.object.flushing
      → s.object.flushing ≡ false
      → in_flight fs ≡ []
  idle_of_room fs s h e = in_flight_idle fs (h ∙ ap bit e)

  -- The step of the first thread keeps the messages, where the others are idle or it is.
  advance-all_messages :
      (success : Bool) (f : Flush M) (fs : List (Flush M)) (s : Shared M)
      → active (f ∷ fs) ≡ bit s.object.flushing
      → let (next, s') = advance success f s in
        all_messages (next ++ fs, s') ≡ all_messages (f ∷ fs, s)
  unfolding advance
  advance-all_messages success entering fs s h = elim (Bool-cases (skips_flush s.object)) [
    | inl skip ↦ rw skip refl
    | inr go ↦
        rw go (rw (idle_of_room fs s (omega arith) (skips_flush_iff s.object go)) (simp append-nil))
  ]
  advance-all_messages true (inserting b) fs s h = simp append_assoc
  advance-all_messages false (inserting b) fs s h = refl
  advance-all_messages success (returning b) fs s h =
      rw (in_flight_idle fs (ground arith)) (simp (append-nil, append_assoc))
  advance-all_messages success ending fs s h = refl
  advance-all_messages success rearming fs s h = refl

  bystander_keeps :
      (batch : List M) (i : ℕ) (success : Bool) (fs : List (Flush M)) (s : Shared M)
      → s.object.flushing ≡ true
      → active fs ≡ 0
      → let (fs', s') = resume_at i success fs s in
        s'.stored ++ (batch ++ in_flight fs') ++ s'.object.buffer
        ≡ s.stored ++ (batch ++ in_flight fs) ++ s.object.buffer
  bystander_keeps batch i success fs s on idle =
      let r = resume_at i success fs s in
      let (a, p, q, _) = resume_at-IsBystander i success fs s idle on in
      cc (p, q, in_flight_idle fs idle, in_flight_idle r.0 a)

  pub resume_at-all_messages :
      (i : ℕ) (success : Bool) (fs : List (Flush M)) (s : Shared M)
      → active fs ≡ bit s.object.flushing
      → all_messages (resume_at i success fs s) ≡ all_messages (fs, s)
  unfolding resume_at
  resume_at-all_messages i success [] s h = refl
  resume_at-all_messages zero success (f ∷ fs) s h = advance-all_messages success f fs s h
  resume_at-all_messages (suc i) success (entering ∷ fs) s h =
      resume_at-all_messages i success fs s (omega arith)
  resume_at-all_messages (suc i) success (rearming ∷ fs) s h =
      resume_at-all_messages i success fs s (omega arith)
  resume_at-all_messages (suc i) success (inserting b ∷ fs) s h =
      bystander_keeps b i success fs s (ground arith) (ground arith)
  resume_at-all_messages (suc i) success (returning b ∷ fs) s h =
      bystander_keeps b i success fs s (ground arith) (ground arith)
  resume_at-all_messages (suc i) success (ending ∷ fs) s h =
      bystander_keeps [] i success fs s (ground arith) (ground arith)
