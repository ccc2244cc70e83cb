-- ===== src/Producer/Stream/Accounting.antt =====
-- The counters of producer/metrics.py over one message.
use crypto_streaming_lakehou.Base.{
  ℕ, ◌+◌, ◌≡◌, ◌≤◌, ◌≢◌, refl, ap, zero, suc, Bool, Try, ok, raised, Exception, value_error,
  validation_error, attribute_error, type_error, key_error, unroutable_error, amqp_error,
  psycopg_error, runtime_error, overflow_error, other, arith,
}
use crypto_streaming_lakehou.Base.Json.{Json}
use crypto_streaming_lakehou.Producer.Trade.{TradeMessage, Pydantic, validate}
use crypto_streaming_lakehou.Producer.Publisher.{
  Confirm, acked, unroutable, amqp_failed, crashed, Publisher, publish, attempt, after_call, hold,
  max_attempts,
}
use crypto_streaming_lakehou.Producer.Stream.{
  Stream, and_then, after_publish, validate_and_publish, on_validation_error, increment_received,
  increment_valid, increment_invalid, process_trade, process_message,
}
use crypto_streaming_lakehou.Producer.Stream.Traversal.{IsSequential, message_leads}

module _ {Bytes : Type 0} where
  abbrev pub sorted_out : Stream Bytes → ℕ
  sorted_out s = s.valid + s.invalid

  -- Every trade received meanwhile was counted as valid or as invalid, but for one at most if an
  -- exception ended the code.
  abbrev pub Accounts : Stream Bytes → Try (Unit {0}) × Stream Bytes → Type 0
  Accounts s (ok _, t) = t.received + sorted_out s ≡ s.received + sorted_out t
  Accounts s (raised e, t) =
      (s.received + sorted_out t ≤ t.received + sorted_out s)
      × (t.received + sorted_out s ≤ s.received + sorted_out t + 1)

  in_sequence_lem :
      (s : Stream Bytes) (first : Try (Unit {0}) × Stream Bytes)
      (next : Stream Bytes → Try (Unit {0}) × Stream Bytes)
      → Accounts s first
      → ((t : Stream Bytes) → Accounts t (next t))
      → Accounts s (and_then first next)
  in_sequence_lem s (raised e, t) next h k = h
  in_sequence_lem s (ok _, t) next h k = chained s t (next t) h (k t)
    where
      chained :
          (s t : Stream Bytes) (x : Try (Unit {0}) × Stream Bytes)
          → Accounts s (ok tt, t)
          → Accounts t x
          → Accounts s x
      chained s t (ok _, u) h k = omega (arith, h, k)
      chained s t (raised e, u) h k = (omega (arith, h, k.0), omega (arith, h, k.1))

  unchanged_lem : (r : Try (Unit {0})) (s : Stream Bytes) → Accounts s (r, s)
  unchanged_lem (ok _) s = omega arith
  unchanged_lem (raised e) s = (omega arith, omega arith)

  pub Accounts-IsSequential : IsSequential Accounts
  Accounts-IsSequential = record { unchanged = unchanged_lem; in_sequence = in_sequence_lem }

module _ {Bytes : Type 0} (pydantic : Pydantic) (dump : TradeMessage → Bytes)
    (broker : ℕ → Confirm) where
  -- pika raises no ValidationError of Pydantic's.
  abbrev pub IsSeparate : Type 0
  IsSeparate = (i : ℕ) → broker i ≢ crashed validation_error

  abbrev IsOther : Try Bool × Publisher Bytes → Type 0
  IsOther (ok _, p) = Unit
  IsOther (raised e, p) = e ≢ validation_error

  after_call-IsOther :
      (c : Confirm) (again : Publisher Bytes → Try Bool × Publisher Bytes) (m : Bytes)
      (p : Publisher Bytes)
      → c ≢ crashed validation_error
      → IsOther (again p)
      → IsOther (after_call c again m p)
  unfolding after_call
  after_call-IsOther acked again m p h ih = tt
  after_call-IsOther unroutable again m p h ih = ih
  after_call-IsOther amqp_failed again m p h ih = ih
  after_call-IsOther (crashed e) again m p h ih = λ q. h (ap crashed q)

  attempt-IsOther :
      (left : ℕ) (m : Bytes) (p : Publisher Bytes) → IsSeparate → IsOther (attempt broker left m p)
  unfolding attempt hold
  attempt-IsOther zero m p h = tt
  attempt-IsOther (suc left) m p h =
      after_call-IsOther (broker p.calls) (λ q. attempt broker left m q) m
        (record p { calls = p.calls + 1 }) (h p.calls)
        (attempt-IsOther left m (record p { calls = p.calls + 1 }) h)

  counted_valid :
      (s : Stream Bytes) (x : Try Bool × Publisher Bytes)
      → IsOther x
      → Accounts s (
          on_validation_error
            (after_publish pydantic dump broker (increment_valid (increment_received s)) x))
  unfolding on_validation_error after_publish increment_valid increment_received increment_invalid
  counted_valid s (ok b, p) h = omega arith
  counted_valid s (raised validation_error, p) h = absurd (h refl)
  counted_valid s (raised value_error, p) h = (omega arith, omega arith)
  counted_valid s (raised attribute_error, p) h = (omega arith, omega arith)
  counted_valid s (raised type_error, p) h = (omega arith, omega arith)
  counted_valid s (raised key_error, p) h = (omega arith, omega arith)
  counted_valid s (raised unroutable_error, p) h = (omega arith, omega arith)
  counted_valid s (raised amqp_error, p) h = (omega arith, omega arith)
  counted_valid s (raised psycopg_error, p) h = (omega arith, omega arith)
  counted_valid s (raised runtime_error, p) h = (omega arith, omega arith)
  counted_valid s (raised overflow_error, p) h = (omega arith, omega arith)
  counted_valid s (raised other, p) h = (omega arith, omega arith)

  counted_raised :
      (e : Exception) (s : Stream Bytes)
      → Accounts s (on_validation_error (raised e, increment_received s))
  unfolding on_validation_error increment_received increment_invalid
  counted_raised validation_error s = omega arith
  counted_raised value_error s = (omega arith, omega arith)
  counted_raised attribute_error s = (omega arith, omega arith)
  counted_raised type_error s = (omega arith, omega arith)
  counted_raised key_error s = (omega arith, omega arith)
  counted_raised unroutable_error s = (omega arith, omega arith)
  counted_raised amqp_error s = (omega arith, omega arith)
  counted_raised psycopg_error s = (omega arith, omega arith)
  counted_raised runtime_error s = (omega arith, omega arith)
  counted_raised overflow_error s = (omega arith, omega arith)
  counted_raised other s = (omega arith, omega arith)

  validated :
      (t : Try TradeMessage) (s : Stream Bytes)
      → IsSeparate
      → Accounts s
          (on_validation_error (validate_and_publish pydantic dump broker t (increment_received s)))
  unfolding validate_and_publish publish
  validated (raised e) s h = counted_raised e s
  validated (ok t) s h =
      counted_valid s (publish broker (dump t) (increment_valid (increment_received s)).publisher)
        (attempt-IsOther max_attempts (dump t) (increment_valid (increment_received s)).publisher h)

  -- After a message, however many events and trades it holds and whatever publishing them comes to,
  -- the trades received during it and those counted as valid or invalid are equal in number; if an
  -- exception ends the message, at most one received trade is not counted. pika is assumed to raise
  -- no ValidationError.
  pub process_message-Accounts :
      (v : Json) (s : Stream Bytes)
      → IsSeparate
      → Accounts s (process_message pydantic dump broker v s)
  unfolding process_trade
  process_message-Accounts v s h =
      message_leads pydantic dump broker Accounts Accounts-IsSequential
        (λ trade s. validated (validate pydantic trade) s h) v s
