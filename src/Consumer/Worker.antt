-- ===== src/Consumer/Worker.antt =====
-- class TradeConsumer of consumer/consumer.py.
pub mod Settlement
use crypto_streaming_lakehou.Base.{
  ℕ, ◌+◌, ◌-◌, Bool, true, false, Option, none, some, List, [], ◌∷◌, ◌++◌, Try, ok, raised,
  Exception, amqp_error, if◌then◌else◌,
}
use crypto_streaming_lakehou.Base.Json.{Json, get}

pub data Status : Type 0 where
  success failure : Status

-- What a delivery causes outside the process, in order: a value for the histogram
-- processing_duration, the settlement of the message, and the log line with its trade_id.
pub data Effect : Type 0 where
  observe : ℕ → Effect
  ack : ℕ → Effect
  -- basic_nack with requeue=False
  nack : ℕ → Effect
  log : Status → Option Json → Effect

-- A delivery, with what the environment does while it is handled: the readings of
-- time.monotonic(), and whether basic_ack and basic_nack return.
pub record Delivery (Bytes : Type 0) : Type 0 where
  pub delivery_tag : ℕ
  pub body : Bytes
  pub started : ℕ
  pub inserted : ℕ
  pub failed : ℕ
  pub ack_works : Bool
  pub nack_works : Bool

-- What `on_message` has done: the effects, and how it ended.
pub record Handled : Type 0 where
  pub effects : List Effect
  pub outcome : Try (Unit {0})

module _ {Bytes : Type 0} where
  -- The `except` branch. `earlier` are the effects of the `try` block before the exception.
  on_exception : Delivery Bytes → Option Json → List Effect → Handled
  on_exception m trade_id earlier =
      let observed = earlier ++ observe (m.failed - m.started) ∷ [] in
      if m.nack_works
      then record {
        effects = observed ++ nack m.delivery_tag ∷ log failure trade_id ∷ [];
        outcome = ok tt;
      }
      else record { effects = observed; outcome = raised amqp_error }

  -- The `try` block after `insert_one` has returned
  after_insert : Delivery Bytes → Option Json → Handled
  unfolding on_exception
  after_insert m trade_id =
      let observed = observe (m.inserted - m.started) ∷ [] in
      if m.ack_works
      then record {
        effects = observed ++ ack m.delivery_tag ∷ log success trade_id ∷ [];
        outcome = ok tt;
      }
      else on_exception m trade_id observed

-- `loads` is json.loads, and `insert_one` the method of the attribute `repository`, which has a
-- state of type S.
module _ {Bytes S : Type 0} (loads : Bytes → Try Json)
    (insert_one : Json → S → Try (Unit {0}) × S) where
  inserted_or_failed : Delivery Bytes → Option Json → Try (Unit {0}) × S → Handled × S
  unfolding after_insert on_exception
  inserted_or_failed m trade_id (ok _, s) = (after_insert m trade_id, s)
  inserted_or_failed m trade_id (raised e, s) = (on_exception m trade_id [], s)

  with_trade_id : Delivery Bytes → Json → Try (Option Json) → S → Handled × S
  unfolding inserted_or_failed
  with_trade_id m message (ok trade_id) s = inserted_or_failed m trade_id (insert_one message s)
  with_trade_id m message (raised e) s = (on_exception m none [], s)

  with_message : Delivery Bytes → Try Json → S → Handled × S
  unfolding with_trade_id
  with_message m (ok message) s = with_trade_id m message (get "trade_id" message) s
  with_message m (raised e) s = (on_exception m none [], s)

  unfoldable pub on_message : Delivery Bytes → S → Handled × S
  unfolding with_message
  on_message m s = with_message m (loads m.body) s
