-- ===== src/Producer/Tests/Validating.antt =====
-- Runs of producer/schemas.py and producer/utils.py.
use crypto_streaming_lakehou.Base.{
  ℕ, ◌<◌, ◌≤◌, String, ◌≡◌, ◌≢◌, refl, ◌⊎◌, inl, some, true, ok, raised, attribute_error,
  value_error, arith,
}
use crypto_streaming_lakehou.Base.Int.{pos, negsuc, ◌-ℤ◌, ◌<ℤ◌}
use crypto_streaming_lakehou.Base.Json.{bool, float, string, object, get_field}
use crypto_streaming_lakehou.Producer.Backoff.{exponential_backoff, exponential_backoff_bounds}
use crypto_streaming_lakehou.Producer.Trade.{
  TradeMessage, buy, codes_eq, lower, literal_side, validate, validate_amount, validate_side,
  validate_time, validate_trade_id, must_be_positive, ensure_utc,
}
use crypto_streaming_lakehou.Producer.Trade.Validation.{
  IsClean, validate-IsClean, validate_float, validate_untyped_side,
}
use crypto_streaming_lakehou.Producer.Tests.{pydantic, trade_with}

abbrev bought : TradeMessage
bought = record {
  trade_id = "t1";
  price = record { coefficient = pos 15; exponent = negsuc 0 };
  size = record { coefficient = pos 15; exponent = negsuc 0 };
  side = buy;
  time = record { wall_clock = pos 1800; utc_offset = some (pos 0) };
}

accepted : validate pydantic (object (trade_with (string "1.5") (string "BUY"))) ≡ ok bought
unfolding validate validate_trade_id validate_amount validate_side validate_time get_field
    must_be_positive ensure_utc literal_side lower codes_eq ◌-ℤ◌
accepted = refl

validate-IsClean_example : IsClean bought
validate-IsClean_example =
    validate-IsClean pydantic (object (trade_with (string "1.5") (string "BUY"))) bought accepted

price_is_float : get_field "price" (trade_with (float "1.5") (string "BUY")) ≡ some (float "1.5")
unfolding get_field
price_is_float = refl

validate_float_instance :
    validate pydantic (object (trade_with (float "1.5") (string "BUY"))) ≢ ok bought
validate_float_instance =
    validate_float pydantic (trade_with (float "1.5") (string "BUY")) "1.5" (inl price_is_float)
      bought

side_is_bool : get_field "side" (trade_with (string "1.5") (bool true)) ≡ some (bool true)
unfolding get_field
side_is_bool = refl

bool_no_text : (s : String) → bool true ≢ string s
bool_no_text s h = cc

validate_untyped_side_instance :
    validate pydantic (object (trade_with (string "1.5") (bool true))) ≡ raised attribute_error
validate_untyped_side_instance =
    validate_untyped_side pydantic (trade_with (string "1.5") (bool true)) (bool true) side_is_bool
      bool_no_text

fourth_delay : exponential_backoff (pos 3) 1 60 ≡ ok 8
unfolding exponential_backoff
fourth_delay = refl

exponential_backoff_bounds_instance :
    ((pos 9 <ℤ pos 0) × (exponential_backoff (pos 9) 1 60 ≡ raised value_error))
    ⊎ ((d : ℕ) × (exponential_backoff (pos 9) 1 60 ≡ ok d) × (0 < d) × (d ≤ 60))
exponential_backoff_bounds_instance =
    exponential_backoff_bounds (pos 9) 1 60 (omega arith) (omega arith)
