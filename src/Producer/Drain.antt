-- ===== src/Producer/Drain.antt =====
-- `_drain_retry_queue` of producer/main.py.
pub mod Timeout
use mathlib.Core.Option
use crypto_streaming_lakehou.Base.{
  ℕ, zero, suc, ◌+◌, ◌-◌, ◌*◌, ◌/◌, ◌%◌, ◌≤◌, ◌<◌, ◌≡◌, refl, Bool, true, false, List, [], ◌∷◌,
  ◌++◌, length, leb, ◌==◌, Option, none, some, arith, if◌then◌else◌, is_empty, is_some, Bool-cases,
  inl, inr,
}
use crypto_streaming_lakehou.Producer.Publisher.{Publisher}

-- DRAIN_TIMEOUT_SECONDS, and the readings of the clock, in milliseconds
abbrev pub drain_timeout : ℕ
drain_timeout = 30 * 1000

pub data Line : Type 0 where
  -- "Retry queue empty", "Draining retry queue", "Draining...", "Drain timeout reached"
  no_drain_needed : Line
  draining_from : ℕ → Line
  draining : ℕ → ℕ → Line
  timeout : ℕ → Line
  complete : Line

-- The rounds of the loop: it sleeps half a second in each, and leaves after 30 seconds.
abbrev pub drain_fuel : ℕ
drain_fuel = 61

module _ {Bytes : Type 0} where
  -- What the loop does at one reading of the clock: it leaves, or it logs and sleeps.
  unfoldable pub drain_turn : ℕ → Publisher Bytes → List Line × Bool
  drain_turn elapsed p =
      if is_empty p.retry_queue
      then ([], true)
      else if leb drain_timeout elapsed
      then (timeout (length p.retry_queue) ∷ [], true)
      else if elapsed / 1000 % 5 == 0
      then (draining (length p.retry_queue) (elapsed / 1000) ∷ [], false)
      else ([], false)

  -- The loop, with fuel: `none` if that runs out. `clock i` is the i-th reading of
  -- time.monotonic(), of which the first is `start`, and `found i` the publisher as the loop
  -- finds it at its i-th test.
  unfoldable pub drain_loop : ℕ → (ℕ → ℕ) → (ℕ → Publisher Bytes) → ℕ → Option (List Line)
  unfolding drain_turn
  drain_loop zero clock found i = none
  drain_loop (suc fuel) clock found i =
      let turn = drain_turn (clock (suc i) - clock 0) (found i) in
      let rest = drain_loop fuel clock found (suc i) in
      if turn.1 then some turn.0 else Option.map (λ lines. turn.0 ++ lines) rest

  unfoldable pub drain_retry_queue : (ℕ → ℕ) → (ℕ → Publisher Bytes) → Option (List Line)
  drain_retry_queue clock found =
      if is_empty (found 0).retry_queue
      then some (no_drain_needed ∷ [])
      else Option.map
          (λ lines. draining_from (length (found 0).retry_queue) ∷ lines ++ complete ∷ [])
          (drain_loop drain_fuel clock found 0)
