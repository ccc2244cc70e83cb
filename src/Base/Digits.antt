-- ===== src/Base/Digits.antt =====
-- The number that a text begins with, in decimal digits.
use Prim.Native.Char.{code}
use crypto_streaming_lakehou.Base.Lists.{length}
use crypto_streaming_lakehou.Base.Tests.{leb, if◌then◌else◌}
use Prim.Native.Nat.{ℕ, suc, ◌+◌, ◌*◌, ◌-◌, ◌^◌}
use Prim.Native.String.{String}
use mathlib.Core.Path.{◌≡◌}
use mathlib.Core.Bool.{◌&&◌}
use mathlib.Core.List.{List, [], ◌∷◌}

-- The values of the digits that the text begins with
abbrev pub leading_digits : String → List ℕ
leading_digits String.[] = []
leading_digits (String.◌∷◌ c s) =
    let rest = leading_digits s in
    if leb b'0' (code c) && leb (code c) b'9' then (code c - b'0') ∷ rest else []

-- Each digit counts by its power of ten.
abbrev pub value : List ℕ → ℕ
value [] = 0
value (d ∷ ds) = d * 10 ^ length ds + value ds

-- len
abbrev pub size : String → ℕ
size String.[] = 0
size (String.◌∷◌ c s) = suc (size s)

-- The text is made of these digits.
abbrev pub IsDigits : List ℕ → String → Type 0
IsDigits ds t = (leading_digits t ≡ ds) × (size t ≡ length ds)

-- The text is a decimal numeral of n digits for k.
abbrev pub IsNumeral : ℕ → ℕ → String → Type 0
IsNumeral n k t = (length (leading_digits t) ≡ n) × (size t ≡ n) × (value (leading_digits t) ≡ k)
