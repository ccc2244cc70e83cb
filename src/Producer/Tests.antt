-- ===== src/Producer/Tests.antt =====
-- Runs of producer/*.py on concrete inputs.
mod Validating
mod Publishing
mod Streaming
mod Ending
use crypto_streaming_lakehou.Base.{ℕ, String, ◌≡◌, Option, none, some, List, [], ◌∷◌, Bool, false}
use crypto_streaming_lakehou.Base.Int.{pos, negsuc}
use crypto_streaming_lakehou.Base.Json.{
  Json, null, bool, int, float, string, array, object, Items, nil, cons, Fields, end, field,
}
use crypto_streaming_lakehou.Producer.Trade.{Decimal, Datetime, Pydantic, TradeMessage}
use crypto_streaming_lakehou.Producer.Publisher.{Publisher}
use crypto_streaming_lakehou.Producer.Stream.{Stream}

-- Every text reads as the decimal 1.5 and as the same time, in an offset of two hours.
abbrev to_decimal : Json → Option Decimal
to_decimal (string s) = some (record { coefficient = pos 15; exponent = negsuc 0 })
to_decimal _ = none

abbrev to_datetime : Json → Option Datetime
to_datetime (string s) = some (record { wall_clock = pos 9000; utc_offset = some (pos 7200) })
to_datetime _ = none

abbrev pydantic : Pydantic
pydantic = record { to_decimal = to_decimal; to_datetime = to_datetime }

abbrev trade_with : Json → Json → Fields
trade_with price side = field "trade_id" (string "t1") (
    field "price" price (
      field "size" (string "1.5")
        (field "side" side (field "time" (string "2026-04-23T17:00:00+02:00") end))))

-- The bytes of a message are its trade_id here.
abbrev dump : TradeMessage → String
dump t = t.trade_id

abbrev fresh : Stream String
fresh = record {
  publisher = record { retry_queue = []; calls = 0; confirmed = [] };
  received = 0;
  valid = 0;
  invalid = 0;
  shutdown_requested = false;
  attempt = 0;
  slept = [];
}

-- A message of the channel with these trades in one event
abbrev market_trades : Items → Json
market_trades trades = object (
    field "channel" (string "market_trades")
      (field "events" (array (cons (object (field "trades" (array trades) end)) nil)) end))
