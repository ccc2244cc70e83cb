-- ===== src/Journey.antt =====
-- A trade from producer/ through RabbitMQ and consumer/ to bronze.raw_trades.
pub mod Rows
mod Tests
use crypto_streaming_lakehou.Base.{◌≡◌, ◌⊎◌, String, true, Option, some, List, [], ◌∷◌, Try, ok}
use crypto_streaming_lakehou.Base.Json.{Json, string, object, Fields, get_field}
use crypto_streaming_lakehou.Consumer.Worker.{Effect, ack}
use crypto_streaming_lakehou.Consumer.Storing.Consuming.{Happening, delivered, timed_out}
use crypto_streaming_lakehou.Consumer.Bronze.{Table, conflicts}
use crypto_streaming_lakehou.Producer.Trade.{TradeMessage}

-- What a JSON object with the trade_id `s` is read as
pub record IsObjectOf (s : String) (loaded : Try Json) : Type 0 where
  pub fields : Fields
  pub is_object : loaded ≡ ok (object fields)
  pub trade_id : get_field "trade_id" fields ≡ some (string s)

-- json.loads reads the bytes of model_dump_json().encode() as an object with the fields of the model.
abbrev pub ReadsBack : {Bytes : Type 0} → (Bytes → Try Json) → (TradeMessage → Bytes) → Type 0
ReadsBack loads dump = (t : TradeMessage) → IsObjectOf t.trade_id (loads (dump t))

-- The generated column, payload ->> 'trade_id', of a text
abbrev pub IsColumn : (Json → Option String) → Type 0
IsColumn trade_id_of =
    (fields : Fields) (s : String)
    → get_field "trade_id" fields ≡ some (string s)
    → trade_id_of (object fields) ≡ some s

abbrev pub Among : {A : Type 0} → A → List A → Type 0
Among x [] = ⊥
Among x (y ∷ ys) = (x ≡ y) ⊎ Among x ys

module _ {Bytes : Type 0} where
  -- The bodies of the deliveries
  abbrev pub bodies : List (Happening Bytes) → List Bytes
  bodies [] = []
  bodies (timed_out now ∷ rest) = bodies rest
  bodies (delivered now m ∷ rest) = m.body ∷ bodies rest

  -- Every delivery acknowledged, in order
  abbrev pub all_acked : List (Happening Bytes) → List Effect
  all_acked [] = []
  all_acked (timed_out now ∷ rest) = all_acked rest
  all_acked (delivered now m ∷ rest) = ack m.delivery_tag ∷ all_acked rest

  -- The body is that of a trade whose trade_id is in the table.
  abbrev pub HasRow : (TradeMessage → Bytes) → (Json → Option String) → Table Json → Bytes → Type 0
  HasRow dump trade_id_of table body =
      (t : TradeMessage) × (body ≡ dump t) × (conflicts trade_id_of (some t.trade_id) table ≡ true)
