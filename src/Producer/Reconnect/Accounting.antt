-- ===== src/Producer/Reconnect/Accounting.antt =====
-- The counters of producer/metrics.py over the whole `while` loop of producer/main.py.
use crypto_streaming_lakehou.Base.{
  ℕ, ◌+◌, ◌≡◌, ◌≤◌, suc, refl, Bool, true, false, List, [], ◌∷◌, ◌++◌, length, Try, ok, raised,
  arith, if◌then◌else◌, Option, leb,
}
use crypto_streaming_lakehou.Base.Int.{pos}
use crypto_streaming_lakehou.Base.Json.{Json, get}
use crypto_streaming_lakehou.Producer.Backoff.{exponential_backoff}
use crypto_streaming_lakehou.Producer.Trade.{TradeMessage, Pydantic}
use crypto_streaming_lakehou.Producer.Publisher.{Confirm}
use crypto_streaming_lakehou.Producer.Stream.{
  Stream, and_then, handle_shutdown, process_message, max_reconnect_attempts,
}
use crypto_streaming_lakehou.Producer.Stream.Accounting.{
  sorted_out, Accounts, Accounts-IsSequential, IsSeparate, process_message-Accounts,
}
use crypto_streaming_lakehou.Producer.Reconnect.{
  Input, signal, not_json, unreadable, message, Round, End, gave_up, shutdown, yielded, after_debug,
  listen, after_signal, connect_and_listen, slept_for, proceed, reconnect, stream,
}

module _ {Bytes : Type 0} (pydantic : Pydantic) (dump : TradeMessage → Bytes)
    (broker : ℕ → Confirm) where
  -- The counters of two states are equal.
  abbrev SameCounts : Stream Bytes → Stream Bytes → Type 0
  SameCounts s t = (s.received ≡ t.received) × (s.valid ≡ t.valid) × (s.invalid ≡ t.invalid)

  from_same :
      (s t : Stream Bytes) (x : Try (Unit {0}) × Stream Bytes)
      → SameCounts s t
      → Accounts t x
      → Accounts s x
  from_same s t (ok _, u) (e, f, g) h = omega (arith, e, f, g, h)
  from_same s t (raised x, u) (e, f, g) h =
      (omega (arith, e, f, g, h.0), omega (arith, e, f, g, h.1))

  yielded-Accounts :
      (v : Json) (next : Stream Bytes → Try (Unit {0}) × Stream Bytes) (s : Stream Bytes)
      → IsSeparate pydantic dump broker
      → ((t : Stream Bytes) → Accounts t (next t))
      → (b : Bool)
      → Accounts s
          (if b then (ok tt, s) else and_then (process_message pydantic dump broker v s) next)
  yielded-Accounts v next s h k true = omega arith
  yielded-Accounts v next s h k false =
      Accounts-IsSequential.in_sequence s (process_message pydantic dump broker v s) next
        (process_message-Accounts pydantic dump broker v s h) k

  debug-Accounts :
      (v : Json) (o : Try (Option Json)) (next : Stream Bytes → Try (Unit {0}) × Stream Bytes)
      (s : Stream Bytes)
      → IsSeparate pydantic dump broker
      → ((t : Stream Bytes) → Accounts t (next t))
      → Accounts s (after_debug pydantic dump broker v o next s)
  unfolding after_debug yielded
  debug-Accounts v (ok o) next s h k = yielded-Accounts v next s h k s.shutdown_requested
  debug-Accounts v (raised e) next s h k = (omega arith, omega arith)

  listen-Accounts :
      (close : Try (Unit {0})) (inputs : List Input) (s : Stream Bytes)
      → IsSeparate pydantic dump broker
      → Accounts s (listen pydantic dump broker close inputs s)
  unfolding listen handle_shutdown
  listen-Accounts close [] s h = Accounts-IsSequential.unchanged close s
  listen-Accounts close (signal ∷ inputs) s h =
      from_same s (handle_shutdown s) (listen pydantic dump broker close inputs (handle_shutdown s))
        (refl, refl, refl) (listen-Accounts close inputs (handle_shutdown s) h)
  listen-Accounts close (not_json ∷ inputs) s h = listen-Accounts close inputs s h
  listen-Accounts close (unreadable e ∷ inputs) s h = (omega arith, omega arith)
  listen-Accounts close (message v ∷ inputs) s h =
      debug-Accounts v (get "type" v) (listen pydantic dump broker close inputs) s h
        (λ t. listen-Accounts close inputs t h)

  signal-Accounts :
      (b : Bool) (s : Stream Bytes) (x : Try (Unit {0}) × Stream Bytes)
      → Accounts (after_signal b s) x
      → Accounts s x
  unfolding handle_shutdown
  signal-Accounts true s x h = from_same s (handle_shutdown s) x (refl, refl, refl) h
  signal-Accounts false s x h = h

  round-Accounts :
      (c : Round) (s : Stream Bytes)
      → IsSeparate pydantic dump broker
      → Accounts s (connect_and_listen pydantic dump broker c s)
  unfolding connect_and_listen
  round-Accounts c s h =
      signal-Accounts c.signal_connecting s (connect_and_listen pydantic dump broker c s) (
        Accounts-IsSequential.in_sequence (after_signal c.signal_connecting s)
          (c.connect, after_signal c.signal_connecting s)
          (λ s.
            and_then (c.subscribe, s)
              (λ s. listen pydantic dump broker c.close c.inputs (record s { attempt = 0 })))
          (Accounts-IsSequential.unchanged c.connect (after_signal c.signal_connecting s))
          (λ t.
            Accounts-IsSequential.in_sequence t (c.subscribe, t)
              (λ s. listen pydantic dump broker c.close c.inputs (record s { attempt = 0 }))
              (Accounts-IsSequential.unchanged c.subscribe t)
              (λ u.
                from_same u (record u { attempt = 0 })
                  (listen pydantic dump broker c.close c.inputs (record u { attempt = 0 }))
                  (refl, refl, refl)
                  (listen-Accounts c.close c.inputs (record u { attempt = 0 }) h))))

  -- At most this many trades received on the way were not counted.
  abbrev pub LosesAtMost : ℕ → Stream Bytes → Stream Bytes → Type 0
  LosesAtMost n s t =
      (s.received + sorted_out t ≤ t.received + sorted_out s)
      × (t.received + sorted_out s ≤ s.received + sorted_out t + n)

  after_sleep :
      (n : ℕ) (r : Try ℕ) (s t : Stream Bytes) (next : Stream Bytes → End × Stream Bytes)
      → LosesAtMost 1 s t
      → ((u : Stream Bytes) → LosesAtMost n u (next u).1)
      → LosesAtMost (n + 1) s (proceed (slept_for r t) next).1
  unfolding slept_for proceed
  after_sleep n (ok d) s t next h k = gone_on (leb max_reconnect_attempts (t.attempt + 1))
    where
      slept_once : Stream Bytes
      slept_once = record t { attempt = t.attempt + 1; slept = t.slept ++ d ∷ [] }

      gone_on :
          (b : Bool)
          → LosesAtMost (n + 1) s (if b then (gave_up, slept_once) else next slept_once).1
      gone_on true = (omega (arith, h.0), omega (arith, h.1))
      gone_on false = (omega (arith, h.0, (k slept_once).0), omega (arith, h.1, (k slept_once).1))
  after_sleep n (raised e) s t next h k = (omega (arith, h.0), omega (arith, h.1))

  reconnect-Accounts :
      (n : ℕ) (s : Stream Bytes) (x : Try (Unit {0}) × Stream Bytes)
      (next : Stream Bytes → End × Stream Bytes)
      → Accounts s x
      → ((u : Stream Bytes) → LosesAtMost n u (next u).1)
      → LosesAtMost (n + 1) s (reconnect pydantic dump broker x next).1
  unfolding reconnect
  reconnect-Accounts n s (ok _, t) next h k = (omega (arith, h, (k t).0), omega (arith, h, (k t).1))
  reconnect-Accounts n s (raised e, t) next h k = by_flag t.shutdown_requested
    where
      by_flag :
          (b : Bool)
          → LosesAtMost
              (n + 1)
              s
              (if b
                then (shutdown, t)
                else proceed (slept_for (exponential_backoff (pos t.attempt) 1 60) t) next).1
      by_flag true = (omega (arith, h.0), omega (arith, h.1))
      by_flag false = after_sleep n (exponential_backoff (pos t.attempt) 1 60) s t next h k

  round_loses :
      (n : ℕ) (c : Round) (next : Stream Bytes → End × Stream Bytes) (s : Stream Bytes) (b : Bool)
      → IsSeparate pydantic dump broker
      → ((u : Stream Bytes) → LosesAtMost n u (next u).1)
      → LosesAtMost
          (suc n)
          s
          (if b
            then (shutdown, s)
            else reconnect pydantic dump broker
                (connect_and_listen pydantic dump broker c s)
                next).1
  round_loses n c next s true h k = (omega arith, omega arith)
  round_loses n c next s false h k =
      let (low, high) =
        reconnect-Accounts n s (connect_and_listen pydantic dump broker c s) next
          (round-Accounts c s h) k in
      (low, omega (arith, high))

  signal_loses :
      (n : ℕ) (b : Bool) (s t : Stream Bytes)
      → LosesAtMost n (after_signal b s) t
      → LosesAtMost n s t
  unfolding handle_shutdown
  signal_loses n true s t h = h
  signal_loses n false s t h = h

  -- Over any number of rounds of the loop, with the signals, failures and messages in any order,
  -- the trades counted as valid or invalid are never more than those received, and fewer by at most
  -- one for each round, the trade at which an exception ended it. pika is assumed to raise no
  -- ValidationError.
  pub stream-LosesAtMost :
      (rounds : List Round) (s : Stream Bytes)
      → IsSeparate pydantic dump broker
      → LosesAtMost (length rounds) s (stream pydantic dump broker rounds s).1
  unfolding stream
  stream-LosesAtMost [] s h = (omega arith, omega arith)
  stream-LosesAtMost (c ∷ rounds) s h =
      signal_loses (suc (length rounds)) c.signal_before s
        (stream pydantic dump broker (c ∷ rounds) s).1
        (round_loses (length rounds) c (stream pydantic dump broker rounds)
          (after_signal c.signal_before s) (after_signal c.signal_before s).shutdown_requested h
          (λ u. stream-LosesAtMost rounds u h))
