-- ===== src/Lakehouse/Tests/Naming.antt =====
-- Names and keys of lakehouse/ on concrete texts.
use Prim.Native.String.{◌++◌ as ◌<>◌}
use crypto_streaming_lakehou.Base.{arith, String, ◌≡◌, ◌↔◌, ◌⊎◌, refl, ok, raised, value_error}
use crypto_streaming_lakehou.Lakehouse.Names.{matches_rest, matches, validate_table_name}
use crypto_streaming_lakehou.Lakehouse.Names.Accepted.{IsName, validate_table_name-accepts}
use crypto_streaming_lakehou.Lakehouse.Uploads.{
  to_slashes, rstrip_slash, has_start, text_length, slice_from, norm_base, s3_key,
}
use crypto_streaming_lakehou.Lakehouse.Uploads.Keys.{
  Slashed, end, backslash, as_is, s3_key-under_base,
}

quoted : validate_table_name "gold'; --" ≡ raised value_error
unfolding validate_table_name matches matches_rest
quoted = refl

with_newline : validate_table_name "gold_vwap_1min\n" ≡ ok tt
unfolding validate_table_name matches matches_rest
with_newline = refl

validate_table_name-accepts_example :
    (validate_table_name "gold_vwap_1min\n" ≡ ok tt)
    ↔ (IsName "gold_vwap_1min\n" ⊎ ((s : String) × IsName s × ("gold_vwap_1min\n" ≡ s <> "\n")))
validate_table_name-accepts_example = validate_table_name-accepts "gold_vwap_1min\n"

documented_key :
    s3_key "data/gold/gold_vwap_1min/year=2026/file.parquet" "data/gold"
    ≡ "gold_vwap_1min/year=2026/file.parquet"
unfolding s3_key norm_base to_slashes rstrip_slash has_start text_length slice_from
documented_key = refl

not_stripped : s3_key "data\\file.parquet" "data\\" ≡ "data/file.parquet"
unfolding s3_key norm_base to_slashes rstrip_slash has_start text_length slice_from
not_stripped = refl

-- The text has no backslash.
plain_data : Slashed "data" "data"
plain_data =
    as_is "d" "ata" "ata" (λ h. omega arith)
      (as_is "a" "ta" "ta" (λ h. omega arith)
        (as_is "t" "a" "a" (λ h. omega arith) (as_is "a" "" "" (λ h. omega arith) end)))

data_f : Slashed "data\\f" "data/f"
data_f =
    as_is "d" "ata\\f" "ata/f" (λ h. omega arith)
      (as_is "a" "ta\\f" "ta/f" (λ h. omega arith)
        (as_is "t" "a\\f" "a/f" (λ h. omega arith)
          (as_is "a" "\\f" "/f" (λ h. omega arith)
            (backslash "\\" "f" "f" refl (as_is "f" "" "" (λ h. omega arith) end)))))

s3_key-under_base_example :
    (s3_key "data\\f" "data//" ≡ "f")
    × (norm_base "data//" <> s3_key "data\\f" "data//" ≡ to_slashes "data\\f")
s3_key-under_base_example =
    s3_key-under_base "data" "data" "f" "data\\f" 2 (λ h. omega arith) plain_data data_f
