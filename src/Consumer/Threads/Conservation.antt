-- ===== src/Consumer/Threads/Conservation.antt =====
-- The lock and `_flushing` in consumer/batch_buffer.py: one flush at a time, and no message lost.
use crypto_streaming_lakehou.Base.{
  ◌≡◌, refl, ◌∙◌, Bool, true, false, List, [], ◌∷◌, ◌++◌, append_assoc, arith, bit, if◌then◌else◌,
}
use crypto_streaming_lakehou.Consumer.Buffer.{Timer, stopped, pending, fired, wants_flush}
use crypto_streaming_lakehou.Consumer.Threads.{
  Flush, entering, System, Shared, Action, add, call_flush, fire, call_stop, resume, fire_timer,
  step, run,
}
use crypto_streaming_lakehou.Consumer.Threads.Messages.{
  active, in_flight, active-enter, in_flight-enter, resume_at-active, resume_at-all_messages,
}

module _ {M : Type 0} where
  -- `_flushing` is set exactly while one flush is active, and every message that `add` has taken is
  -- stored, held by that flush, or in the buffer, once and in the order of the calls.
  pub record IsConserved (s : System M) : Type 0 where
    pub one_flush : active s.flushes ≡ bit s.object.flushing
    pub in_order : s.stored ++ in_flight s.flushes ++ s.object.buffer ≡ s.accepted

  active-if_enter :
      (b : Bool) (fs : List (Flush M)) → active (if b then fs ++ entering ∷ [] else fs) ≡ active fs
  active-if_enter true fs = active-enter fs
  active-if_enter false fs = refl

  in_flight-if_enter :
      (b : Bool) (fs : List (Flush M))
      → in_flight (if b then fs ++ entering ∷ [] else fs) ≡ in_flight fs
  in_flight-if_enter true fs = in_flight-enter fs
  in_flight-if_enter false fs = refl

  add-IsConserved : (m : M) (s : System M) → IsConserved s → IsConserved (step (add m) s)
  unfolding step
  add-IsConserved m s c = record {
    one_flush = active-if_enter (wants_flush m s.object) s.flushes ∙ c.one_flush;
    in_order =
        rw (in_flight-if_enter (wants_flush m s.object) s.flushes)
          (rw (← c.in_order) (simp append_assoc));
  }

  fire_timer-IsConserved : (t : Timer) (s : System M) → IsConserved s → IsConserved (fire_timer t s)
  unfolding fire_timer
  fire_timer-IsConserved pending s c = record {
    one_flush = active-enter s.flushes ∙ c.one_flush;
    in_order = rw (in_flight-enter s.flushes) c.in_order;
  }
  fire_timer-IsConserved stopped s c = c
  fire_timer-IsConserved fired s c = c

  step-IsConserved : (a : Action M) (s : System M) → IsConserved s → IsConserved (step a s)
  unfolding step
  step-IsConserved (add m) s c = add-IsConserved m s c
  step-IsConserved call_flush s c = record {
    one_flush = active-enter s.flushes ∙ c.one_flush;
    in_order = rw (in_flight-enter s.flushes) c.in_order;
  }
  step-IsConserved fire s c = fire_timer-IsConserved s.object.timer s c
  step-IsConserved call_stop s c = record { one_flush = c.one_flush; in_order = c.in_order }
  step-IsConserved (resume i success) s c =
      let t : Shared M = record { object = s.object; stored = s.stored } in
      record {
        one_flush = omega (arith, resume_at-active 0 i success s.flushes t (omega arith));
        in_order = resume_at-all_messages i success s.flushes t c.one_flush ∙ c.in_order;
      }

  -- On every schedule of threads from a state where this holds, `_flushing` is set exactly while
  -- one call of `flush` stands between its two assignments, and the stored messages, those which
  -- that call holds and those in the buffer are, in this order, the messages that `add` has taken:
  -- none is lost, none is stored twice and none overtakes another, whether or not the repository
  -- raises.
  pub run-IsConserved :
      (schedule : List (Action M)) (s : System M) → IsConserved s → IsConserved (run schedule s)
  unfolding run
  run-IsConserved [] s c = c
  run-IsConserved (a ∷ rest) s c = run-IsConserved rest (step a s) (step-IsConserved a s c)
