-- ===== src/Lakehouse/Uploads.antt =====
-- lakehouse/s3_uploader.py, and the walk of lakehouse/export.py over the files of a table
pub mod Keys
use Prim.Native.Char.{Char, code}
use Prim.Native.String
use Prim.Native.String.{◌++◌ as ◌<>◌}
use crypto_streaming_lakehou.Base.{
  ℕ, zero, suc, String, ◌==◌, Bool, true, false, ◌&&◌, List, [], ◌∷◌, ◌++◌, text_eq, if◌then◌else◌,
  Option, none, some, Try, ok, raised,
}
use crypto_streaming_lakehou.Lakehouse.Storage.{FileName, placeholder, part, File, is_under}

-- replace("\\", "/")
unfoldable pub to_slashes : String → String
to_slashes String.[] = ""
to_slashes (String.◌∷◌ c s) = String.◌∷◌ (if code c == b'\\' then "/" else c) (to_slashes s)

abbrev pub is_nothing : String → Bool
is_nothing String.[] = true
is_nothing (String.◌∷◌ c s) = false

-- rstrip("/")
unfoldable pub rstrip_slash : String → String
rstrip_slash String.[] = ""
rstrip_slash (String.◌∷◌ c s) =
    let rest = rstrip_slash s in if is_nothing rest && code c == b'/' then "" else String.◌∷◌ c rest

-- s.startswith(prefix), where the prefix is named first
unfoldable pub has_start : String → String → Bool
has_start String.[] s = true
has_start (String.◌∷◌ c p) String.[] = false
has_start (String.◌∷◌ c p) (String.◌∷◌ d s) =
    let rest = has_start p s in if code c == code d then rest else false

-- len
unfoldable pub text_length : String → ℕ
text_length String.[] = 0
text_length (String.◌∷◌ c s) = suc (text_length s)

-- s[n:]
unfoldable pub slice_from : ℕ → String → String
slice_from zero s = s
slice_from (suc n) String.[] = ""
slice_from (suc n) (String.◌∷◌ c s) = slice_from n s

unfoldable pub norm_base : String → String
unfolding to_slashes rstrip_slash
norm_base base_path = to_slashes (rstrip_slash base_path) <> "/"

unfoldable pub s3_key : String → String → String
unfolding norm_base has_start text_length slice_from
s3_key local_path base_path =
    if has_start (norm_base base_path) (to_slashes local_path)
    then slice_from (text_length (norm_base base_path)) (to_slashes local_path)
    else to_slashes local_path

-- An object in S3: the bucket, the key, and the file it was made from.
pub record Upload : Type 0 where
  pub bucket : String
  pub key : String
  pub local_path : String

-- The environment of the uploads: S3_BUCKET, boto3.client, the calls of upload_file, and the texts
-- of the uuids.
pub record S3 : Type 0 where
  pub bucket : Option String
  pub client : Try (Unit {0})
  pub upload_file : String → Try (Unit {0})
  pub uuid : ℕ → String

-- The `try` block, whose exceptions are logged.
abbrev pub after_upload : Try (Unit {0}) → Upload → List Upload → List Upload
after_upload (ok u) new uploads = uploads ++ new ∷ []
after_upload (raised e) new uploads = uploads

abbrev pub with_client : Try (Unit {0}) → List Upload → List Upload → Try (Unit {0}) × List Upload
with_client (ok u) after uploads = (ok tt, after)
with_client (raised e) after uploads = (raised e, uploads)

abbrev pub with_bucket :
    Option String → S3 → String → String → List Upload → Try (Unit {0}) × List Upload
with_bucket none s3 local_path base_path uploads = (ok tt, uploads)
with_bucket (some bucket) s3 local_path base_path uploads =
    if text_eq bucket ""
    then (ok tt, uploads)
    else with_client s3.client
        (after_upload (s3.upload_file local_path)
          record { bucket = bucket; key = s3_key local_path base_path; local_path = local_path }
          uploads)
        uploads

unfoldable pub upload_file_to_s3 : S3 → String → String → List Upload → Try (Unit {0}) × List Upload
unfolding s3_key
upload_file_to_s3 s3 local_path base_path uploads =
    with_bucket s3.bucket s3 local_path base_path uploads

-- str of a path
unfoldable pub path_text : List String → String
path_text [] = ""
path_text (d ∷ dir) = elim dir [ [] ↦ d | e ∷ rest ↦ d <> "/" <> path_text dir ]
