-- ===== src/Producer/Reconnect/GiveUp.antt =====
-- A stream that cannot connect, for the `while` loop of producer/main.py.
use crypto_streaming_lakehou.Base.{
  ℕ, zero, suc, ◌+◌, ◌*◌, ◌^◌, min, ◌≡◌, refl, ap, ◌∙◌, false, List, [], ◌∷◌, ◌++◌, All, length,
  append_assoc, leb, raised, Exception, arith, if◌then◌else◌,
}
use crypto_streaming_lakehou.Producer.Backoff.{exponential_backoff}
use crypto_streaming_lakehou.Producer.Trade.{TradeMessage, Pydantic}
use crypto_streaming_lakehou.Producer.Publisher.{Confirm}
use crypto_streaming_lakehou.Producer.Stream.{Stream, max_reconnect_attempts}
use crypto_streaming_lakehou.Producer.Reconnect.{
  Round, End, gave_up, connect_and_listen, slept_for, proceed, reconnect, stream,
}

-- No signal comes, and connecting raises.
abbrev pub Refused : Round → Type 0
Refused c =
    (c.signal_before ≡ false)
    × (c.signal_connecting ≡ false)
    × ((e : Exception) × (c.connect ≡ raised e))

-- The delays after this many attempts and the next ones
abbrev pub delays : ℕ → ℕ → List ℕ
delays attempt zero = []
delays attempt (suc left) = min (1 * 2 ^ attempt) 60 ∷ delays (attempt + 1) left

module _ {Bytes : Type 0} (pydantic : Pydantic) (dump : TradeMessage → Bytes)
    (broker : ℕ → Confirm) where
  abbrev slept_once : Stream Bytes → Stream Bytes
  slept_once s = record s {
    attempt = s.attempt + 1;
    slept = s.slept ++ min (1 * 2 ^ s.attempt) 60 ∷ [];
  }

  Refused-step :
      (c : Round) (rounds : List Round) (s : Stream Bytes)
      → Refused c
      → s.shutdown_requested ≡ false
      → stream pydantic dump broker (c ∷ rounds) s ≡ (
          if leb max_reconnect_attempts (s.attempt + 1)
          then (gave_up, slept_once s)
          else stream pydantic dump broker rounds (slept_once s))
  unfolding stream connect_and_listen reconnect proceed slept_for exponential_backoff
  Refused-step c rounds s (before, during, (e, failed)) running =
      ground (arith, before, running, during, failed)

  abbrev finished : Stream Bytes → List ℕ → Stream Bytes
  finished s ds = record s { attempt = 10; slept = s.slept ++ ds }

  last_round :
      (s : Stream Bytes) (next : Stream Bytes → End × Stream Bytes)
      → s.attempt + 1 ≡ 10
      → (if leb max_reconnect_attempts (s.attempt + 1)
          then (gave_up, slept_once s)
          else next (slept_once s))
        ≡ (gave_up, finished s (delays s.attempt 1))
  last_round s next a = rw a refl

  goes_on :
      (left : ℕ) (s : Stream Bytes) (next : Stream Bytes → End × Stream Bytes)
      → s.attempt + suc (suc left) ≡ 10
      → (if leb max_reconnect_attempts (s.attempt + 1)
          then (gave_up, slept_once s)
          else next (slept_once s))
        ≡ next (slept_once s)
  goes_on left s next a = ground arith

  joined :
      (left : ℕ) (s : Stream Bytes)
      → finished (slept_once s) (delays (s.attempt + 1) (suc left))
        ≡ finished s (delays s.attempt (suc (suc left)))
  joined left s =
      ap (λ l. record s { attempt = 10; slept = l })
        (append_assoc s.slept (min (1 * 2 ^ s.attempt) 60 ∷ []) (delays (s.attempt + 1) (suc left)))

  gives_up :
      (left : ℕ) (rounds : List Round) (s : Stream Bytes)
      → s.attempt + suc left ≡ 10
      → length rounds ≡ suc left
      → All Refused rounds
      → s.shutdown_requested ≡ false
      → (more : List Round)
      → stream pydantic dump broker (rounds ++ more) s
        ≡ (gave_up, finished s (delays s.attempt (suc left)))
  gives_up left [] s a n refused running more = absurd (omega (arith, n))
  gives_up zero (c ∷ []) s a n refused running more =
      Refused-step c more s refused.0 running ∙ last_round s (stream pydantic dump broker more) a
  gives_up zero (c ∷ d ∷ rounds) s a n refused running more = absurd (omega (arith, n))
  gives_up (suc left) (c ∷ rounds) s a n refused running more =
      Refused-step c (rounds ++ more) s refused.0 running
      ∙ (goes_on left s (stream pydantic dump broker (rounds ++ more)) a
          ∙ (gives_up left rounds (slept_once s) (omega (arith, a)) (omega (arith, n)) refused.1
                running more
              ∙ ap (λ t. (gave_up, t)) (joined left s)))

  -- After a connection that was established, or at the start, ten rounds in which connecting raises
  -- and no signal comes make the loop give up: it has slept 1, 2, 4, 8, 16, 32 and four times 60
  -- seconds, has touched neither the publisher nor the counters, and opens no further connection.
  pub stream_gives_up :
      (rounds more : List Round) (s : Stream Bytes)
      → s.attempt ≡ 0
      → s.shutdown_requested ≡ false
      → length rounds ≡ 10
      → All Refused rounds
      → stream pydantic dump broker (rounds ++ more) s ≡ (
        gave_up,
        record s {
          attempt = 10;
          slept = s.slept ++ 1 ∷ 2 ∷ 4 ∷ 8 ∷ 16 ∷ 32 ∷ 60 ∷ 60 ∷ 60 ∷ 60 ∷ [];
        },
      )
  stream_gives_up rounds more s start running n refused =
      simp start at (gives_up 9 rounds s (omega (arith, start)) n refused running more)
