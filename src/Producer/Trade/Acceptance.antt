-- ===== src/Producer/Trade/Acceptance.antt =====
-- Trades that pass the validators of producer/schemas.py.
use crypto_streaming_lakehou.Base.{◌*◌, String, ◌≡◌, ◌≢◌, some, ok}
use crypto_streaming_lakehou.Base.Int.{ℤ, pos, ◌-ℤ◌, ◌<ℤ◌, negsuc}
use crypto_streaming_lakehou.Base.Json.{Json, string, Fields, get_field}
use crypto_streaming_lakehou.Producer.Trade.{Datetime, TradeMessage, Pydantic, lower, literal_side}
use crypto_streaming_lakehou.Producer.Trade.Validation.{IsPositive}

-- The clock stands in the years 1 to 9999, which have 3652059 days.
abbrev pub IsInYears : ℤ → Type 0
IsInYears clock = (negsuc 0 <ℤ clock) × (clock <ℤ pos (3652059 * 86400000000))

module _ (pydantic : Pydantic) where
  -- The values that a trade offers, as Pydantic reads them.
  pub record Offers (fs : Fields) (t : TradeMessage) : Type 0 where
    pub trade_id_text : get_field "trade_id" fs ≡ some (string t.trade_id)
    pub not_empty : t.trade_id ≢ ""
    pub price_text : String
    pub price_field : get_field "price" fs ≡ some (string price_text)
    pub price_read : pydantic.to_decimal (string price_text) ≡ some t.price
    pub price_positive : IsPositive t.price
    pub size_text : String
    pub size_field : get_field "size" fs ≡ some (string size_text)
    pub size_read : pydantic.to_decimal (string size_text) ≡ some t.size
    pub size_positive : IsPositive t.size
    pub side_text : String
    pub side_field : get_field "side" fs ≡ some (string side_text)
    pub side_read : literal_side (lower side_text) ≡ ok t.side
    pub time_value : Json
    pub time_field : get_field "time" fs ≡ some time_value
    pub local : Datetime
    pub offset : ℤ
    pub time_read : pydantic.to_datetime time_value ≡ some local
    pub aware : local.utc_offset ≡ some offset
    pub in_years : IsInYears (local.wall_clock -ℤ offset)
    pub instant :
        t.time ≡ record { wall_clock = local.wall_clock -ℤ offset; utc_offset = some (pos 0) }
