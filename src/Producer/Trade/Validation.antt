-- ===== src/Producer/Trade/Validation.antt =====
-- What passes the validators of producer/schemas.py, and what they raise.
use crypto_streaming_lakehou.Base.{
  String, ◌≡◌, ◌≢◌, refl, ◌⊎◌, inl, inr, Option, none, some, Try, ok, raised, validation_error,
  attribute_error, eq_iff, arith,
}
use crypto_streaming_lakehou.Base.Int.{pos, ◌<ℤ◌}
use crypto_streaming_lakehou.Base.Json.{
  Json, null, bool, int, float, string, array, object, Fields, get_field,
}
use crypto_streaming_lakehou.Producer.Trade.{
  Decimal, Datetime, Side, TradeMessage, Pydantic, validate_side, validate_trade_id,
  must_be_positive, ensure_utc, positive_decimal, validate_amount, utc_datetime, validate_time,
  collect, validate_fields, validate,
}

abbrev pub IsPositive : Decimal → Type 0
IsPositive d = pos 0 <ℤ d.coefficient

-- What downstream code may rely on.
pub record IsClean (t : TradeMessage) : Type 0 where
  pub has_id : t.trade_id ≢ ""
  pub price_positive : IsPositive t.price
  pub size_positive : IsPositive t.size
  pub in_utc : t.time.utc_offset ≡ some (pos 0)

trade_id_lem : (o : Option Json) (i : String) → validate_trade_id o ≡ ok i → i ≢ ""
unfolding validate_trade_id
trade_id_lem (some (string s)) i h = ground (arith, eq_iff s "")
trade_id_lem (some null) i h = cc
trade_id_lem (some (bool b)) i h = cc
trade_id_lem (some (int n)) i h = cc
trade_id_lem (some (float x)) i h = cc
trade_id_lem (some (array xs)) i h = cc
trade_id_lem (some (object fs)) i h = cc
trade_id_lem none i h = cc

must_be_positive_lem : (d e : Decimal) → must_be_positive d ≡ ok e → IsPositive e
unfolding must_be_positive
must_be_positive_lem d e h = ground arith

ensure_utc_lem : (t u : Datetime) → ensure_utc t ≡ ok u → u.utc_offset ≡ some (pos 0)
unfolding ensure_utc
ensure_utc_lem t u h = ground arith

positive_decimal_lem : (o : Option Decimal) (e : Decimal) → positive_decimal o ≡ ok e → IsPositive e
unfolding positive_decimal
positive_decimal_lem none e h = cc
positive_decimal_lem (some d) e h = must_be_positive_lem d e h

utc_datetime_lem :
    (o : Option Datetime) (u : Datetime) → utc_datetime o ≡ ok u → u.utc_offset ≡ some (pos 0)
unfolding utc_datetime
utc_datetime_lem none u h = cc
utc_datetime_lem (some t) u h = ensure_utc_lem t u h

-- A message comes out only of five fields that are each accepted, with their values.
collect_lem :
    (i : Try String) (p s : Try Decimal) (d : Try Side) (u : Try Datetime) (t : TradeMessage)
    → collect i p s d u ≡ ok t
    → (i ≡ ok t.trade_id) × (p ≡ ok t.price) × (s ≡ ok t.size) × (d ≡ ok t.side) × (u ≡ ok t.time)
collect_lem i p s d u t h = ground arith

collect_untyped :
    (i : Try String) (p s : Try Decimal) (d : Try Side) (u : Try Datetime)
    → d ≡ raised attribute_error
    → collect i p s d u ≡ raised attribute_error
collect_untyped i p s d u e = ground arith

side_untyped :
    (o : Option Json) (v : Json)
    → o ≡ some v
    → ((s : String) → v ≢ string s)
    → validate_side o ≡ raised attribute_error
unfolding validate_side
side_untyped o (string s) e h = absurd (h s refl)
side_untyped o null e h = rw e refl
side_untyped o (bool b) e h = rw e refl
side_untyped o (int n) e h = rw e refl
side_untyped o (float x) e h = rw e refl
side_untyped o (array xs) e h = rw e refl
side_untyped o (object fs) e h = rw e refl

module _ (pydantic : Pydantic) where
  amount_lem : (o : Option Json) (e : Decimal) → validate_amount pydantic o ≡ ok e → IsPositive e
  unfolding validate_amount
  amount_lem none e h = cc
  amount_lem (some (float x)) e h = cc
  amount_lem (some null) e h = positive_decimal_lem (pydantic.to_decimal null) e h
  amount_lem (some (bool b)) e h = positive_decimal_lem (pydantic.to_decimal (bool b)) e h
  amount_lem (some (int n)) e h = positive_decimal_lem (pydantic.to_decimal (int n)) e h
  amount_lem (some (string s)) e h = positive_decimal_lem (pydantic.to_decimal (string s)) e h
  amount_lem (some (array xs)) e h = positive_decimal_lem (pydantic.to_decimal (array xs)) e h
  amount_lem (some (object fs)) e h = positive_decimal_lem (pydantic.to_decimal (object fs)) e h

  time_lem :
      (o : Option Json) (u : Datetime)
      → validate_time pydantic o ≡ ok u
      → u.utc_offset ≡ some (pos 0)
  unfolding validate_time
  time_lem none u h = cc
  time_lem (some v) u h = utc_datetime_lem (pydantic.to_datetime v) u h

  fields_lem :
      (fs : Fields) (t : TradeMessage)
      → validate_fields pydantic fs ≡ ok t
      → (validate_trade_id (get_field "trade_id" fs) ≡ ok t.trade_id)
        × (validate_amount pydantic (get_field "price" fs) ≡ ok t.price)
        × (validate_amount pydantic (get_field "size" fs) ≡ ok t.size)
        × (validate_side (get_field "side" fs) ≡ ok t.side)
        × (validate_time pydantic (get_field "time" fs) ≡ ok t.time)
  unfolding validate_fields
  fields_lem fs t h =
      collect_lem (validate_trade_id (get_field "trade_id" fs))
        (validate_amount pydantic (get_field "price" fs))
        (validate_amount pydantic (get_field "size" fs)) (validate_side (get_field "side" fs))
        (validate_time pydantic (get_field "time" fs)) t h

  amount_float :
      (o : Option Json) (text : String)
      → o ≡ some (float text)
      → validate_amount pydantic o ≡ raised validation_error
  unfolding validate_amount
  amount_float o text e = rw e refl

  fields-IsClean : (fs : Fields) (t : TradeMessage) → validate_fields pydantic fs ≡ ok t → IsClean t
  unfolding validate_fields
  fields-IsClean fs t h =
      let (i, p, s, d, u) = fields_lem fs t h in
      record {
        has_id = trade_id_lem (get_field "trade_id" fs) t.trade_id i;
        price_positive = amount_lem (get_field "price" fs) t.price p;
        size_positive = amount_lem (get_field "size" fs) t.size s;
        in_utc = time_lem (get_field "time" fs) t.time u;
      }

  -- Whatever Pydantic makes of the values, a message that passes validation has a trade_id that is
  -- not empty, a price and a size above zero, and a time in UTC.
  pub validate-IsClean : (v : Json) (t : TradeMessage) → validate pydantic v ≡ ok t → IsClean t
  unfolding validate
  validate-IsClean (object fs) t h = fields-IsClean fs t h
  validate-IsClean null t h = cc
  validate-IsClean (bool b) t h = cc
  validate-IsClean (int n) t h = cc
  validate-IsClean (float x) t h = cc
  validate-IsClean (string s) t h = cc
  validate-IsClean (array xs) t h = cc

  -- A trade with a field `side` that is no text raises AttributeError instead of ValidationError,
  -- whatever its other fields are.
  pub validate_untyped_side :
      (fs : Fields) (v : Json)
      → get_field "side" fs ≡ some v
      → ((s : String) → v ≢ string s)
      → validate pydantic (object fs) ≡ raised attribute_error
  unfolding validate
  validate_untyped_side fs v e h =
      collect_untyped (validate_trade_id (get_field "trade_id" fs))
        (validate_amount pydantic (get_field "price" fs))
        (validate_amount pydantic (get_field "size" fs)) (validate_side (get_field "side" fs))
        (validate_time pydantic (get_field "time" fs)) (side_untyped (get_field "side" fs) v e h)

  -- A float at `price` or `size` never passes, whatever the other fields are.
  pub validate_float :
      (fs : Fields) (text : String)
      → (get_field "price" fs ≡ some (float text)) ⊎ (get_field "size" fs ≡ some (float text))
      → (t : TradeMessage) → validate pydantic (object fs) ≢ ok t
  unfolding validate
  validate_float fs text (inl e) t h =
      cc (amount_float (get_field "price" fs) text e, (fields_lem fs t h).1)
  validate_float fs text (inr e) t h =
      cc (amount_float (get_field "size" fs) text e, (fields_lem fs t h).2)
