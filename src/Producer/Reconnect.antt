-- ===== src/Producer/Reconnect.antt =====
-- The `while` loop of `_stream` in producer/main.py, with `connect`, `subscribe` and `listen` of
-- producer/ws_client.py.
pub mod Shutdown
pub mod GiveUp
pub mod Accounting
use crypto_streaming_lakehou.Base.{
  ℕ, ◌+◌, Bool, true, false, List, [], ◌∷◌, ◌++◌, leb, Try, ok, raised, Exception, if◌then◌else◌,
  Option,
}
use crypto_streaming_lakehou.Base.Int.{pos}
use crypto_streaming_lakehou.Base.Json.{Json, get}
use crypto_streaming_lakehou.Producer.Backoff.{exponential_backoff}
use crypto_streaming_lakehou.Producer.Trade.{TradeMessage, Pydantic}
use crypto_streaming_lakehou.Producer.Publisher.{Confirm}
use crypto_streaming_lakehou.Producer.Stream.{
  Stream, Code, and_then, handle_shutdown, process_message, max_reconnect_attempts,
}

-- What reaches the loop over an open connection, in order: a SIGTERM or SIGINT, a frame that is
-- no JSON, one on which json.loads raises something else, one that holds a value.
pub data Input : Type 0 where
  signal : Input
  not_json : Input
  unreadable : Exception → Input
  message : Json → Input

-- One round of the loop: whether a signal comes before its test, and while it connects; what
-- connecting and subscribing do; the inputs; how the iteration over the connection ends.
pub record Round : Type 0 where
  pub signal_before : Bool
  pub signal_connecting : Bool
  pub connect : Try (Unit {0})
  pub subscribe : Try (Unit {0})
  pub inputs : List Input
  pub close : Try (Unit {0})

-- Why the loop ends; `running` if it waits for the next round.
pub data End : Type 0 where
  running shutdown gave_up : End
  crashed : Exception → End

module _ {Bytes : Type 0} where
  abbrev pub after_signal : Bool → Stream Bytes → Stream Bytes
  after_signal b s = if b then handle_shutdown s else s

  abbrev reset_attempt : Stream Bytes → Stream Bytes
  reset_attempt s = record s { attempt = 0 }

  slept_for : Try ℕ → Stream Bytes → Try (Unit {0}) × Stream Bytes
  slept_for (ok delay) s =
      (ok tt, record s { attempt = s.attempt + 1; slept = s.slept ++ delay ∷ [] })
  slept_for (raised e) s = (raised e, s)

  proceed : Try (Unit {0}) × Stream Bytes → (Stream Bytes → End × Stream Bytes) → End × Stream Bytes
  proceed (ok _, s) next = if leb max_reconnect_attempts s.attempt then (gave_up, s) else next s
  proceed (raised e, s) next = (crashed e, s)

module _ {Bytes : Type 0} (pydantic : Pydantic) (dump : TradeMessage → Bytes)
    (broker : ℕ → Confirm) where
  -- A message that `listen` yields: the loop breaks if shutdown is requested.
  unfoldable pub yielded : Json → Code Bytes → Code Bytes
  unfolding process_message
  yielded v next s =
      if s.shutdown_requested
      then (ok tt, s)
      else and_then (process_message pydantic dump broker v s) next

  after_debug : Json → Try (Option Json) → Code Bytes → Code Bytes
  unfolding yielded
  after_debug v (ok _) next s = yielded v next s
  after_debug v (raised e) next s = (raised e, s)

  -- `async for message in client.listen(websocket)`; `listen` looks for "type" to log it.
  unfoldable pub listen : Try (Unit {0}) → List Input → Code Bytes
  unfolding after_debug handle_shutdown get
  listen close [] s = (close, s)
  listen close (signal ∷ inputs) s = listen close inputs (handle_shutdown s)
  listen close (not_json ∷ inputs) s = listen close inputs s
  listen close (unreadable e ∷ inputs) s = (raised e, s)
  listen close (message v ∷ inputs) s = after_debug v (get "type" v) (listen close inputs) s

  -- The `try` block
  unfoldable pub connect_and_listen : Round → Code Bytes
  unfolding listen handle_shutdown
  connect_and_listen c s =
      and_then (c.connect, after_signal c.signal_connecting s)
        (λ s. and_then (c.subscribe, s) (λ s. listen c.close c.inputs (reset_attempt s)))

  -- The `except` block, and the rest of the loop
  unfoldable pub reconnect :
      Try (Unit {0}) × Stream Bytes → (Stream Bytes → End × Stream Bytes) → End × Stream Bytes
  unfolding slept_for proceed exponential_backoff
  reconnect (ok _, s) next = next s
  reconnect (raised e, s) next =
      if s.shutdown_requested
      then (shutdown, s)
      else proceed (slept_for (exponential_backoff (pos s.attempt) 1 60) s) next

  unfoldable pub stream : List Round → Stream Bytes → End × Stream Bytes
  unfolding connect_and_listen reconnect handle_shutdown
  stream [] s = (if s.shutdown_requested then shutdown else running, s)
  stream (c ∷ rounds) s =
      let s = after_signal c.signal_before s in
      if s.shutdown_requested
      then (shutdown, s)
      else reconnect (connect_and_listen c s) (stream rounds)
