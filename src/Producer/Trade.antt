-- ===== src/Producer/Trade.antt =====
-- class TradeMessage of producer/schemas.py: the fields and their validators.
pub mod Validation
pub mod Acceptance
use Prim.Native.Char.{code}
use Prim.Native.String
use crypto_streaming_lakehou.Base.{
  ℕ, ◌+◌, ◌-◌, String, Bool, true, false, ◌&&◌, Option, none, some, List, [], ◌∷◌, ◌==◌, leb,
  text_eq, Try, ok, raised, Exception, validation_error, attribute_error, type_error,
  overflow_error, not, map, if◌then◌else◌,
}
use crypto_streaming_lakehou.Base.Int.{ℤ, pos, ◌-ℤ◌, leb_ℤ}
use crypto_streaming_lakehou.Base.Json.{
  Json, null, bool, int, float, string, array, object, Fields, get_field,
}

-- A finite decimal.Decimal, coefficient * 10 ^ exponent
pub record Decimal : Type 0 where
  pub coefficient : ℤ
  pub exponent : ℤ

-- A datetime: the wall clock in microseconds since the year 1 began, and its offset from UTC unless it is naive
pub record Datetime : Type 0 where
  pub wall_clock : ℤ
  pub utc_offset : Option ℤ

pub data Side : Type 0 where
  buy sell : Side

pub record TradeMessage : Type 0 where
  pub trade_id : String
  pub price : Decimal
  pub size : Decimal
  pub side : Side
  pub time : Datetime

-- What Pydantic makes of a value at a field of type Decimal or datetime; `none` if it rejects it.
pub record Pydantic : Type 0 where
  pub to_decimal : Json → Option Decimal
  pub to_datetime : Json → Option Datetime

-- The code points of a text
abbrev pub codes : String → List ℕ
codes String.[] = []
codes (String.◌∷◌ c s) = code c ∷ codes s

-- str.lower on the ASCII letters. No other character has a lower case form made of the letters of
-- "buy" and "sell", so on others the comparisons below come out as in Python.
lower_code : ℕ → ℕ
lower_code c = if leb b'A' c && leb c b'Z' then c + 32 else c

unfoldable pub lower : String → List ℕ
unfolding lower_code
lower s = map lower_code (codes s)

unfoldable pub codes_eq : List ℕ → List ℕ → Bool
codes_eq [] [] = true
codes_eq [] (y ∷ ys) = false
codes_eq (x ∷ xs) [] = false
codes_eq (x ∷ xs) (y ∷ ys) = x == y && codes_eq xs ys

-- Literal["buy", "sell"], after `lowercase_side`
unfoldable pub literal_side : List ℕ → Try Side
unfolding codes_eq
literal_side l =
    if codes_eq l (codes "buy")
    then ok buy
    else if codes_eq l (codes "sell")
    then ok sell
    else raised validation_error

-- `lowercase_side` runs before Pydantic looks at the type: a value with no method `lower` raises
-- AttributeError, which Pydantic does not turn into a ValidationError.
unfoldable pub validate_side : Option Json → Try Side
unfolding lower literal_side
validate_side none = raised validation_error
validate_side (some (string s)) = literal_side (lower s)
validate_side (some _) = raised attribute_error

-- str with min_length=1
unfoldable pub validate_trade_id : Option Json → Try String
validate_trade_id (some (string s)) = if text_eq s "" then raised validation_error else ok s
validate_trade_id _ = raised validation_error

-- `must_be_positive`: the sign of a Decimal is that of its coefficient.
unfoldable pub must_be_positive : Decimal → Try Decimal
must_be_positive d = if leb_ℤ d.coefficient (pos 0) then raised validation_error else ok d

-- The microseconds of the years 1 to 9999, which are 3652059 days
abbrev pub microseconds_of_all_years : ℕ
microseconds_of_all_years = 315537897600000000

-- A datetime has a year from 1 to 9999.
unfoldable pub has_year : ℤ → Bool
has_year clock = leb_ℤ (pos 0) clock && not (leb_ℤ (pos microseconds_of_all_years) clock)

-- value.astimezone(UTC); the subtraction of the offset raises OverflowError beyond those years.
unfoldable pub astimezone_utc : ℤ → Try Datetime
unfolding has_year
astimezone_utc clock =
    if has_year clock
    then ok (record { wall_clock = clock; utc_offset = some (pos 0) })
    else raised overflow_error

unfoldable pub ensure_utc : Datetime → Try Datetime
unfolding astimezone_utc
ensure_utc t = elim t.utc_offset [
  | none ↦ raised validation_error
  | some offset ↦ astimezone_utc (t.wall_clock -ℤ offset)
]

positive_decimal : Option Decimal → Try Decimal
unfolding must_be_positive
positive_decimal none = raised validation_error
positive_decimal (some d) = must_be_positive d

utc_datetime : Option Datetime → Try Datetime
unfolding ensure_utc
utc_datetime none = raised validation_error
utc_datetime (some t) = ensure_utc t

-- All fields are looked at, in their order; their errors are collected in one ValidationError, but
-- an exception that Pydantic does not know leaves at once.
abbrev pub collect :
    Try String → Try Decimal → Try Decimal → Try Side → Try Datetime → Try TradeMessage
collect trade_id price size (raised attribute_error) time = raised attribute_error
collect trade_id price size side (raised overflow_error) = raised overflow_error
collect (ok i) (ok p) (ok s) (ok d) (ok t) =
    ok (record { trade_id = i; price = p; size = s; side = d; time = t })
collect _ _ _ _ _ = raised validation_error

module _ (pydantic : Pydantic) where
  -- `reject_float`, then Pydantic, then `must_be_positive`
  unfoldable pub validate_amount : Option Json → Try Decimal
  unfolding positive_decimal
  validate_amount none = raised validation_error
  validate_amount (some (float text)) = raised validation_error
  validate_amount (some value) = positive_decimal (pydantic.to_decimal value)

  unfoldable pub validate_time : Option Json → Try Datetime
  unfolding utc_datetime
  validate_time none = raised validation_error
  validate_time (some value) = utc_datetime (pydantic.to_datetime value)

  validate_fields : Fields → Try TradeMessage
  unfolding validate_trade_id validate_amount validate_side validate_time get_field
  validate_fields fs =
      collect (validate_trade_id (get_field "trade_id" fs)) (validate_amount (get_field "price" fs))
        (validate_amount (get_field "size" fs)) (validate_side (get_field "side" fs))
        (validate_time (get_field "time" fs))

  -- TradeMessage(**trade): only a mapping can be unpacked.
  unfoldable pub validate : Json → Try TradeMessage
  unfolding validate_fields
  validate (object fs) = validate_fields fs
  validate _ = raised type_error
