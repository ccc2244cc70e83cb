-- ===== src/Producer/Drain/Timeout.antt =====
-- `_drain_retry_queue` of producer/main.py ends, and drains nothing.
use mathlib.Core.Option
use crypto_streaming_lakehou.Base.{
  ℕ, zero, suc, ◌+◌, ◌-◌, ◌*◌, ◌≤◌, ◌<◌, ◌≡◌, refl, sym, ap, true, false, List, [], ◌∷◌, ◌++◌,
  length, Option, none, some, arith, is_empty, is_some, Bool-cases, inl, inr, append_assoc,
}
use crypto_streaming_lakehou.Producer.Publisher.{Publisher}
use crypto_streaming_lakehou.Producer.Drain.{
  Line, timeout, complete, draining_from, drain_timeout, drain_turn, drain_loop, drain_fuel,
  drain_retry_queue,
}

-- time.sleep(0.5) between two readings of a clock that does not run backwards
abbrev pub Sleeps : (ℕ → ℕ) → Type 0
Sleeps clock = (clock 0 ≤ clock 1) × ((i : ℕ) → clock (suc i) + 500 ≤ clock (suc (suc i)))

elapsed_lem : (clock : ℕ → ℕ) → Sleeps clock → (i : ℕ) → clock 0 + 500 * i ≤ clock (suc i)
elapsed_lem clock s zero = omega (arith, s.0)
elapsed_lem clock s (suc i) = omega (arith, s.1 i, elapsed_lem clock s i)

map-is_some :
    {A B : Type 0} (f : A → B) (o : Option A) → is_some o ≡ true → is_some (Option.map f o) ≡ true
map-is_some f none h = cc
map-is_some f (some a) h = refl

module _ {Bytes : Type 0} where
  drain_turn-early :
      (elapsed : ℕ) (p : Publisher Bytes)
      → (drain_turn elapsed p).1 ≡ false
      → elapsed < drain_timeout
  unfolding drain_turn
  drain_turn-early elapsed p h = ground arith

  -- A round that does not leave is not the last one.
  another_round :
      (clock : ℕ → ℕ) (p : Publisher Bytes) (i : ℕ)
      → Sleeps clock
      → (drain_turn (clock (suc i) - clock 0) p).1 ≡ false
      → suc i < drain_fuel
  another_round clock p i s h =
      omega (arith, drain_turn-early (clock (suc i) - clock 0) p h, elapsed_lem clock s i)

  drain_loop-returns :
      (fuel : ℕ) (clock : ℕ → ℕ) (found : ℕ → Publisher Bytes) (i : ℕ)
      → Sleeps clock
      → i + fuel ≡ drain_fuel
      → i < drain_fuel
      → is_some (drain_loop fuel clock found i) ≡ true
  unfolding drain_loop
  drain_loop-returns zero clock found i s h lt = absurd (omega arith)
  drain_loop-returns (suc fuel) clock found i s h lt =
      let elapsed = clock (suc i) - clock 0 in
      elim (Bool-cases (drain_turn elapsed (found i)).1) [
        | inl left ↦ rw left refl
        | inr on ↦ rw on (
            map-is_some (λ lines. (drain_turn elapsed (found i)).0 ++ lines)
              (drain_loop fuel clock found (suc i))
              (drain_loop-returns fuel clock found (suc i) s (omega arith)
                (another_round clock (found i) i s on)))
      ]

  -- The wait ends, whatever becomes of the queue meanwhile: 61 rounds are enough for a clock that
  -- advances by at least half a second in each.
  pub drain_retry_queue-returns :
      (clock : ℕ → ℕ) (found : ℕ → Publisher Bytes)
      → Sleeps clock
      → is_some (drain_retry_queue clock found) ≡ true
  unfolding drain_retry_queue
  drain_retry_queue-returns clock found s = elim (Bool-cases (is_empty (found 0).retry_queue)) [
    | inl none_left ↦ rw none_left refl
    | inr some_left ↦ rw some_left (
        map-is_some _ (drain_loop drain_fuel clock found 0)
          (drain_loop-returns drain_fuel clock found 0 s refl (omega arith)))
  ]

  -- The loop logged some lines and then the timeout with all messages that are held.
  abbrev TimesOut : Publisher Bytes → Option (List Line) → Type 0
  TimesOut p o = (lines : List Line) × (o ≡ some (lines ++ timeout (length p.retry_queue) ∷ []))

  drain_turn-nonempty :
      (elapsed : ℕ) (p : Publisher Bytes)
      → is_empty p.retry_queue ≡ false
      → (drain_turn elapsed p).1 ≡ true
      → (drain_turn elapsed p).0 ≡ timeout (length p.retry_queue) ∷ []
  unfolding drain_turn
  drain_turn-nonempty elapsed p h k = ground arith

  TimesOut-map :
      (p : Publisher Bytes) (first : List Line) (o : Option (List Line))
      → TimesOut p o
      → TimesOut p (Option.map (λ lines. first ++ lines) o)
  TimesOut-map p first o (lines, e) =
      (first ++ lines, rw e (ap some (sym (append_assoc first lines _))))

  drain_loop-TimesOut :
      (fuel : ℕ) (clock : ℕ → ℕ) (p : Publisher Bytes) (i : ℕ)
      → Sleeps clock
      → is_empty p.retry_queue ≡ false
      → i + fuel ≡ drain_fuel
      → i < drain_fuel
      → TimesOut p (drain_loop fuel clock (λ _. p) i)
  unfolding drain_loop
  drain_loop-TimesOut zero clock p i s ne h lt = absurd (omega arith)
  drain_loop-TimesOut (suc fuel) clock p i s ne h lt =
      let elapsed = clock (suc i) - clock 0 in
      elim (Bool-cases (drain_turn elapsed p).1) [
        | inl left ↦ ([], rw left (ap some (drain_turn-nonempty elapsed p ne left)))
        | inr on ↦ rw on (
            TimesOut-map p (drain_turn elapsed p).0 (drain_loop fuel clock (λ _. p) (suc i)) (
              drain_loop-TimesOut fuel clock p (suc i) s ne (omega arith)
                (another_round clock p i s on)))
      ]

  -- The loop only waits: nothing in it publishes again. So with a queue that is not empty and that
  -- nothing else changes, the wait ends by the timeout of 30 seconds, with every message still
  -- held, for a clock that advances by at least half a second in each round.
  pub drain_retry_queue_times_out :
      (clock : ℕ → ℕ) (p : Publisher Bytes)
      → Sleeps clock
      → is_empty p.retry_queue ≡ false
      → (lines : List Line) × (drain_retry_queue clock (λ _. p)
          ≡ some (lines ++ timeout (length p.retry_queue) ∷ complete ∷ []))
  unfolding drain_retry_queue
  drain_retry_queue_times_out clock p s ne =
      let (lines, e) = drain_loop-TimesOut drain_fuel clock p 0 s ne refl (omega arith) in
      (
        draining_from (length p.retry_queue) ∷ lines,
        rw ne (
            rw e (
              ap (λ l. some (draining_from (length p.retry_queue) ∷ l))
                (append_assoc lines (timeout (length p.retry_queue) ∷ []) (complete ∷ [])))),
      )
