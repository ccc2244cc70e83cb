-- ===== src/Producer/Stream.antt =====
-- What `_stream` of producer/main.py does to one message of the market_trades channel.
pub mod Traversal
pub mod Accounting
pub mod Boundary
use Prim.Native.String
use crypto_streaming_lakehou.Base.{
  ℕ, ◌+◌, String, Bool, true, false, Option, none, some, List, [], ◌∷◌, ◌++◌, leb, text_eq, Try, ok,
  raised, Exception, value_error, validation_error, attribute_error, type_error, if◌then◌else◌,
}
use crypto_streaming_lakehou.Base.Int.{pos}
use crypto_streaming_lakehou.Base.Json.{
  Json, null, bool, int, float, string, array, object, Items, nil, cons, Fields, end, field, get,
}
use crypto_streaming_lakehou.Producer.Backoff.{exponential_backoff}
use crypto_streaming_lakehou.Producer.Trade.{TradeMessage, Pydantic, validate}
use crypto_streaming_lakehou.Producer.Publisher.{Confirm, Publisher, publish}

abbrev pub max_reconnect_attempts : ℕ
max_reconnect_attempts = 10

-- The publisher, the counters of producer/metrics.py, the shutdown flag, and the variables of
-- `_stream`: the attempt number, and the delays slept so far.
pub record Stream (Bytes : Type 0) : Type 0 where
  pub publisher : Publisher Bytes
  pub received : ℕ
  pub valid : ℕ
  pub invalid : ℕ
  pub shutdown_requested : Bool
  pub attempt : ℕ
  pub slept : List ℕ

-- A piece of code that may raise
abbrev pub Code : Type 0 → Type 0
Code Bytes = Stream Bytes → Try (Unit {0}) × Stream Bytes

module _ {Bytes : Type 0} where
  abbrev pub and_then : Try (Unit {0}) × Stream Bytes → Code Bytes → Try (Unit {0}) × Stream Bytes
  and_then (ok _, s) next = next s
  and_then (raised e, s) next = (raised e, s)

  unfoldable pub increment_received : Stream Bytes → Stream Bytes
  increment_received s = record s { received = s.received + 1 }

  unfoldable pub increment_valid : Stream Bytes → Stream Bytes
  increment_valid s = record s { valid = s.valid + 1 }

  unfoldable pub increment_invalid : Stream Bytes → Stream Bytes
  increment_invalid s = record s { invalid = s.invalid + 1 }

  -- `_handle_shutdown`
  unfoldable pub handle_shutdown : Stream Bytes → Stream Bytes
  handle_shutdown s = record s { shutdown_requested = true }

  -- `except ValidationError` around one trade
  unfoldable pub on_validation_error : Try (Unit {0}) × Stream Bytes → Try (Unit {0}) × Stream Bytes
  unfolding increment_invalid
  on_validation_error (raised validation_error, s) = (ok tt, increment_invalid s)
  on_validation_error (r, s) = (r, s)

-- What a `for` loop iterates over: a list, the keys of a dict, the characters of a text.
abbrev keys : Fields → Items
keys end = nil
keys (field k v fs) = cons (string k) (keys fs)

abbrev characters : String → Items
characters String.[] = nil
characters (String.◌∷◌ c s) = cons (string (String.◌∷◌ c String.[])) (characters s)

unfoldable pub iterate : Json → Try Items
iterate (array xs) = ok xs
iterate (object fs) = ok (keys fs)
iterate (string s) = ok (characters s)
iterate _ = raised type_error

-- v.get(key, [])
unfoldable pub get_list : String → Json → Try Json
unfolding get
get_list key v = elim (get key v) [
  | ok none ↦ ok (array nil)
  | ok (some found) ↦ ok found
  | raised e ↦ raised e
]

module _ {Bytes : Type 0} (pydantic : Pydantic) (dump : TradeMessage → Bytes)
    (broker : ℕ → Confirm) where
  after_publish : Stream Bytes → Try Bool × Publisher Bytes → Try (Unit {0}) × Stream Bytes
  after_publish s (ok _, p) = (ok tt, record s { publisher = p })
  after_publish s (raised e, p) = (raised e, record s { publisher = p })

  -- The `try` block for one trade; `dump` is model_dump_json().encode().
  unfoldable pub validate_and_publish : Try TradeMessage → Code Bytes
  unfolding after_publish increment_valid
  validate_and_publish (raised e) s = (raised e, s)
  validate_and_publish (ok t) s =
      after_publish (increment_valid s) (publish broker (dump t) s.publisher)

  unfoldable pub process_trade : Json → Code Bytes
  unfolding validate_and_publish on_validation_error increment_received
  process_trade trade s =
      on_validation_error (validate_and_publish (validate pydantic trade) (increment_received s))

  unfoldable pub process_trades : Items → Code Bytes
  process_trades nil s = (ok tt, s)
  process_trades (cons trade rest) s = and_then (process_trade trade s) (process_trades rest)

  iterate_trades : Try Items → Code Bytes
  iterate_trades (ok trades) s = process_trades trades s
  iterate_trades (raised e) s = (raised e, s)

  items_of : Try Json → Try Items
  unfolding iterate
  items_of (ok v) = iterate v
  items_of (raised e) = raised e

  -- `for trade in event.get("trades", [])`
  unfoldable pub process_event : Json → Code Bytes
  unfolding iterate_trades items_of
  process_event event s = iterate_trades (items_of (get_list "trades" event)) s

  unfoldable pub process_events : Items → Code Bytes
  process_events nil s = (ok tt, s)
  process_events (cons event rest) s = and_then (process_event event s) (process_events rest)

  iterate_events : Try Items → Code Bytes
  iterate_events (ok events) s = process_events events s
  iterate_events (raised e) s = (raised e, s)

  on_channel : Json → Option Json → Code Bytes
  unfolding iterate_events items_of
  on_channel message (some (string channel)) s =
      if text_eq channel "market_trades"
      then iterate_events (items_of (get_list "events" message)) s
      else (ok tt, s)
  on_channel message _ s = (ok tt, s)

  with_channel : Json → Try (Option Json) → Code Bytes
  unfolding on_channel
  with_channel message (ok channel) s = on_channel message channel s
  with_channel message (raised e) s = (raised e, s)

  -- The body of the loop after the shutdown test; other channels are skipped.
  unfoldable pub process_message : Json → Code Bytes
  unfolding with_channel get
  process_message message s = with_channel message (get "channel" message) s
