-- ===== src/Lakehouse/Names.antt =====
-- The check of table names in lakehouse/exporter.py
pub mod Accepted
use Prim.Native.Char.{Char, code}
use Prim.Native.String
use crypto_streaming_lakehou.Base.{
  String, ◌==◌, Bool, true, false, ◌&&◌, ◌||◌, leb, if◌then◌else◌, Try, ok, raised, value_error,
}

-- [a-zA-Z_]
abbrev pub is_letter : Char → Bool
is_letter c =
    (leb b'a' (code c) && leb (code c) b'z')
    || (leb b'A' (code c) && leb (code c) b'Z')
    || code c == b'_'

-- [a-zA-Z0-9_]
abbrev pub is_word : Char → Bool
is_word c = is_letter c || (leb b'0' (code c) && leb (code c) b'9')

-- `$`: the end, or the place before a newline that ends the text
abbrev pub at_end : String → Bool
at_end String.[] = true
at_end (String.◌∷◌ c String.[]) = code c == b'\n'
at_end (String.◌∷◌ c (String.◌∷◌ d s)) = false

-- [a-zA-Z0-9_]*$, from here on; no word character is a newline
unfoldable pub matches_rest : String → Bool
matches_rest String.[] = true
matches_rest (String.◌∷◌ c s) =
    let rest = matches_rest s in if is_word c then rest else at_end (String.◌∷◌ c s)

-- _SAFE_TABLE_RE.match
unfoldable pub matches : String → Bool
unfolding matches_rest
matches String.[] = false
matches (String.◌∷◌ c s) = is_letter c && matches_rest s

unfoldable pub validate_table_name : String → Try (Unit {0})
unfolding matches
validate_table_name table = if matches table then ok tt else raised value_error
