-- ===== src/Base/Json.antt =====
-- The values that `json.loads` returns, and `dict.get` on them.
use Prim.Native.String.{String}
use mathlib.Core.Bool.{Bool}
use mathlib.Core.Option.{Option, none, some}
use crypto_streaming_lakehou.Base.Tests.{text_eq, if◌then◌else◌, Try, ok, raised, attribute_error}

-- Numbers keep the text that they were written with: `int` for one with neither a point nor an
-- exponent, `float` for the others, as Python types them.
mutual
  pub data Json : Type 0 where
    null : Json
    bool : Bool → Json
    int : String → Json
    float : String → Json
    string : String → Json
    array : Items → Json
    object : Fields → Json

  pub data Items : Type 0 where
    nil : Items
    cons : Json → Items → Items

  pub data Fields : Type 0 where
    end : Fields
    field : String → Json → Fields → Fields

-- d.get(key) of a dict; `json.loads` keeps the last value of a repeated key, so keys are distinct.
unfoldable pub get_field : String → Fields → Option Json
get_field k end = none
get_field k (field j v fs) = if text_eq j k then some v else get_field k fs

-- v.get(key): only a dict has the method.
unfoldable pub get : String → Json → Try (Option Json)
unfolding get_field
get k (object fs) = ok (get_field k fs)
get k _ = raised attribute_error
