-- ===== src/Consumer/Service.antt =====
-- The process of consumer/main.py: a worker whose `repository` is a BatchBuffer, signals, shutdown.
pub mod Deliveries
pub mod Signals
pub mod Shutdown
use crypto_streaming_lakehou.Base.{
  ℕ, ◌+◌, ◌<◌, ◌≡◌, refl, sym, ap, ap₂, ◌∙◌, Bool, true, false, Option, none, some, List, [], ◌∷◌,
  ◌++◌, append-nil, append_assoc, length, is_some, Try, ok, raised, Exception, arith, if◌then◌else◌,
}
use crypto_streaming_lakehou.Base.Json.{Json}
use crypto_streaming_lakehou.Consumer.Buffer.{
  BatchBuffer, Timer, pending, fired, stopped, stop, wants_flush, skips_flush,
}
use crypto_streaming_lakehou.Consumer.Threads.{Shared}
use crypto_streaming_lakehou.Consumer.Threads.Sequential.{
  add_message, flush, add_message-in_order, flush_idle,
}
use crypto_streaming_lakehou.Consumer.Worker.{
  Effect, ack, nack, log, observe, Delivery, Handled, on_message,
}
use crypto_streaming_lakehou.Consumer.Worker.Settlement.{
  settlements, object_of, store, on_message_settles,
}

-- What happens to the process: a signal; the timer, if one waits; or a delivery. Each of the last
-- two says whether the TradeRepository returns if it is called meanwhile. Flushes that overlap with
-- deliveries are in Consumer.Threads.
pub data Event (Bytes : Type 0) : Type 0 where
  signal : Event Bytes
  time_out : Bool → Event Bytes
  deliver : Delivery Bytes → Bool → Event Bytes

pub record Service : Type 0 where
  pub shutdown_requested : Bool
  pub shared : Shared Json
  pub effects : List Effect

-- `buffer.insert_one`, which does not raise
unfoldable pub buffered_insert : Bool → Json → Shared Json → Try (Unit {0}) × Shared Json
unfolding add_message
buffered_insert success m s = (ok tt, add_message success m s)

-- `_handle_shutdown` sets the flag, which nothing else reads.
unfoldable pub handle_shutdown : Service → Service
handle_shutdown s = record s { shutdown_requested = true }

-- The timer's callback, `flush`, between two deliveries
unfoldable pub fire_if_pending : Bool → Timer → Shared Json → Shared Json
unfolding flush
fire_if_pending success pending s =
    flush success (record s { object = record s.object { timer = fired } })
fire_if_pending success _ s = s

-- The `finally` block of main: `buffer.flush()`, `buffer.stop()`
unfoldable pub shut_down : Bool → Service → Service
unfolding flush stop
shut_down success s =
    let flushed = flush success s.shared in
    record s { shared = record flushed { object = stop flushed.object } }

-- The messages that are stored, and then those that are buffered
abbrev pub all_of : Shared Json → List Json
all_of s = s.stored ++ s.object.buffer

abbrev pub handled_with : Service → Handled × Shared Json → Try (Unit {0}) × Service
handled_with s (h, shared) =
    (h.outcome, record s { shared = shared; effects = s.effects ++ h.effects })

-- What follows a call runs unless that call raised.
abbrev pub unless_raised :
    Try (Unit {0}) × Service → (Service → Try (Unit {0}) × Service) → Try (Unit {0}) × Service
unless_raised (ok _, s) next = next s
unless_raised (raised x, s) next = (raised x, s)

module _ {Bytes : Type 0} (loads : Bytes → Try Json) where
  unfoldable pub handle : Event Bytes → Service → Try (Unit {0}) × Service
  unfolding on_message buffered_insert handle_shutdown fire_if_pending
  handle signal s = (ok tt, handle_shutdown s)
  handle (time_out success) s =
      (ok tt, record s { shared = fire_if_pending success s.shared.object.timer s.shared })
  handle (deliver m success) s =
      handled_with s (on_message loads (buffered_insert success) m s.shared)

  -- `consumer.start()`: pika calls `on_message` on each delivery, until an exception leaves it.
  unfoldable pub consume : List (Event Bytes) → Service → Try (Unit {0}) × Service
  consume [] s = (ok tt, s)
  consume (e ∷ rest) s = unless_raised (handle e s) (λ s'. consume rest s')
