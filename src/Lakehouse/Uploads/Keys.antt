-- ===== src/Lakehouse/Uploads/Keys.antt =====
-- The keys that lakehouse/s3_uploader.py makes.
use Prim.Native.Char.{Char, code}
use Prim.Native.String.{◌++◌ as ◌<>◌}
use Prim.Native.String.append.{nil, cons}
use text.Mathlib.TextLemmas.{append_assoc}
use crypto_streaming_lakehou.Base.{ℕ, zero, suc, String, true, ◌≡◌, ◌≢◌, refl, ap, sym, ◌∙◌, arith}
use crypto_streaming_lakehou.Lakehouse.Uploads.{
  to_slashes, rstrip_slash, has_start, text_length, slice_from, norm_base, s3_key,
}

has_start-append : (s t : String) → has_start s (s <> t) ≡ true
unfolding has_start
has_start-append String.[] t = refl
has_start-append (String.◌∷◌ c s) t = rw (cons, has_start-append s t) (ground arith)

slice_from-append : (s t : String) → slice_from (text_length s) (s <> t) ≡ t
unfolding slice_from text_length
slice_from-append String.[] t = rw nil refl
slice_from-append (String.◌∷◌ c s) t = rw cons (slice_from-append s t)

-- The text with a slash for each backslash
pub data Slashed : String → String → Type 0 where
  end : Slashed "" ""
  backslash :
      (c : Char) (s t : String)
      → code c ≡ b'\\'
      → Slashed s t
      → Slashed (String.◌∷◌ c s) (String.◌∷◌ "/" t)
  as_is :
      (c : Char) (s t : String)
      → code c ≢ b'\\'
      → Slashed s t
      → Slashed (String.◌∷◌ c s) (String.◌∷◌ c t)

to_slashes-Slashed : (s t : String) → Slashed s t → to_slashes s ≡ t
unfolding to_slashes
to_slashes-Slashed _ _ end = refl
to_slashes-Slashed _ _ (backslash c s t e h) = rw (to_slashes-Slashed s t h) (ground arith)
to_slashes-Slashed _ _ (as_is c s t e h) = rw (to_slashes-Slashed s t h) (ground arith)

abbrev pub slashes : ℕ → String
slashes zero = ""
slashes (suc n) = String.◌∷◌ "/" (slashes n)

-- The text is not empty and its last character is no slash.
abbrev pub IsTrimmed : String → Type 0
IsTrimmed String.[] = ⊥
IsTrimmed (String.◌∷◌ c String.[]) = code c ≢ b'/'
IsTrimmed (String.◌∷◌ c s) = IsTrimmed s

rstrip_slash-slashes : (n : ℕ) → rstrip_slash (slashes n) ≡ ""
unfolding rstrip_slash
rstrip_slash-slashes zero = refl
rstrip_slash-slashes (suc n) = rw (rstrip_slash-slashes n) refl

rstrip_slash-trimmed : (s : String) (n : ℕ) → IsTrimmed s → rstrip_slash (s <> slashes n) ≡ s
unfolding rstrip_slash
rstrip_slash-trimmed String.[] n h = absurd h
rstrip_slash-trimmed (String.◌∷◌ c String.[]) n h =
    rw (cons, nil, rstrip_slash-slashes n) (ground arith)
rstrip_slash-trimmed (String.◌∷◌ c (String.◌∷◌ d s)) n h =
    rw (cons, rstrip_slash-trimmed (String.◌∷◌ d s) n h) refl

stripped :
    (local_path base_path base key : String)
    → norm_base base_path ≡ base
    → to_slashes local_path ≡ base <> key
    → s3_key local_path base_path ≡ key
unfolding s3_key
stripped local_path base_path base key e f = rw (e, f, has_start-append, slice_from-append) refl

-- The base path is a text that is not empty and does not end in a slash, and then any number of
-- slashes; `base` is that text with slashes for its backslashes. A file whose path is base/key, up
-- to the backslashes in it, gets the key `key`, and with the normalised base path before it this is
-- the file's normalised path again. A base path that ends in a backslash makes `base` end in a
-- slash, so that only paths with two slashes there are of this form.
pub s3_key-under_base :
    (stem base key local_path : String) (n : ℕ)
    → IsTrimmed stem
    → Slashed stem base
    → Slashed local_path (base <> ("/" <> key))
    → (s3_key local_path (stem <> slashes n) ≡ key)
      × (norm_base (stem <> slashes n) <> s3_key local_path (stem <> slashes n)
          ≡ to_slashes local_path)
unfolding norm_base
s3_key-under_base stem base key local_path n trimmed same path =
    let norm : norm_base (stem <> slashes n) ≡ base <> "/" =
      ap (λ t. to_slashes t <> "/") (rstrip_slash-trimmed stem n trimmed)
      ∙ ap (λ t. t <> "/") (to_slashes-Slashed stem base same) in
    let local : to_slashes local_path ≡ (base <> "/") <> key =
      to_slashes-Slashed local_path (base <> ("/" <> key)) path ∙ sym (append_assoc base "/" key) in
    let found = stripped local_path (stem <> slashes n) (base <> "/") key norm local in
    (found, rw (norm, found) (sym local))
