-- ===== src/Lakehouse/Names/Accepted.antt =====
-- The table names that lakehouse/exporter.py accepts.
use Prim.Native.Char.{Char}
use text.Mathlib.TextEquality.{Char-path}
use Prim.Native.String.{◌++◌ as ◌<>◌}
use Prim.Native.String.append.{nil, cons}
use crypto_streaming_lakehou.Base.{
  String, true, ok, ◌≡◌, refl, ap, sym, ◌∙◌, ◌⊎◌, inl, inr, ◌↔◌, arith, Bool-cases,
}
use crypto_streaming_lakehou.Lakehouse.Names.{
  is_letter, is_word, at_end, matches_rest, matches, validate_table_name,
}

-- Letters, digits and underscores only.
abbrev pub IsWord : String → Type 0
IsWord String.[] = Unit
IsWord (String.◌∷◌ c s) = (is_word c ≡ true) × IsWord s

-- Such a text that starts with no digit and is not empty.
abbrev pub IsName : String → Type 0
IsName String.[] = ⊥
IsName (String.◌∷◌ c s) = (is_letter c ≡ true) × IsWord s

abbrev newline : String
newline = "\n"

-- A text with the property, or one before a final newline.
abbrev pub Ending : (String → Type 0) → String → Type 0
Ending P t = P t ⊎ ((s : String) × P s × (t ≡ s <> newline))

longer :
    (c : Char) (s : String) → is_word c ≡ true → Ending IsWord s → Ending IsWord (String.◌∷◌ c s)
longer c s w (inl h) = inl (w, h)
longer c s w (inr (r, h, e)) =
    inr (String.◌∷◌ c r, (w, h), ap (String.◌∷◌ c) e ∙ sym (cons c r newline))

ended : (c : Char) (s : String) → at_end (String.◌∷◌ c s) ≡ true → Ending IsWord (String.◌∷◌ c s)
ended c String.[] h = inr (
  String.[],
  tt,
  ap (λ d. String.◌∷◌ d String.[]) (Char-path c "\n" (ground (arith))) ∙ sym (nil newline),
)
ended c (String.◌∷◌ d s) h = cc

matches_rest-Ending : (s : String) → matches_rest s ≡ true → Ending IsWord s
unfolding matches_rest
matches_rest-Ending String.[] h = inl tt
matches_rest-Ending (String.◌∷◌ c s) h = elim (Bool-cases (is_word c)) [
  | inl w ↦ longer c s w (matches_rest-Ending s (rw w at h))
  | inr n ↦ ended c s (rw n at h)
]

accepted : (t : String) → matches t ≡ true → Ending IsName t
unfolding matches
accepted String.[] h = cc
accepted (String.◌∷◌ c s) h = named c s (ground arith) (matches_rest-Ending s (ground arith))
  where
    named :
        (c : Char) (s : String)
        → is_letter c ≡ true
        → Ending IsWord s
        → Ending IsName (String.◌∷◌ c s)
    named c s l (inl w) = inl (l, w)
    named c s l (inr (r, w, e)) =
        inr (String.◌∷◌ c r, (l, w), ap (String.◌∷◌ c) e ∙ sym (cons c r newline))

matches_rest_of_word : (s : String) → IsWord s → matches_rest s ≡ true
unfolding matches_rest
matches_rest_of_word String.[] _ = refl
matches_rest_of_word (String.◌∷◌ c s) (w, h) = rw w (matches_rest_of_word s h)

matches_rest-newline : (s : String) → IsWord s → matches_rest (s <> newline) ≡ true
unfolding matches_rest
matches_rest-newline String.[] _ = refl
matches_rest-newline (String.◌∷◌ c s) (w, h) = rw (cons, w) (matches_rest-newline s h)

matches_of_name : (t : String) → IsName t → matches t ≡ true
unfolding matches
matches_of_name String.[] h = elim h [ ]
matches_of_name (String.◌∷◌ c s) (l, h) = rw (l, matches_rest_of_word s h) refl

matches-newline : (t : String) → IsName t → matches (t <> newline) ≡ true
unfolding matches
matches-newline String.[] h = elim h [ ]
matches-newline (String.◌∷◌ c s) (l, h) = rw (cons, l, matches_rest-newline s h) refl

valid : (t : String) → Ending IsName t → matches t ≡ true
valid t (inl h) = matches_of_name t h
valid t (inr (s, h, e)) = rw e (matches-newline s h)

accepts : (t : String) → validate_table_name t ≡ ok tt → matches t ≡ true
unfolding validate_table_name
accepts t h = ground arith

-- A table name is accepted exactly when it is made of ASCII letters, digits and underscores and
-- does not start with a digit, or is such a name followed by one newline.
pub validate_table_name-accepts :
    (t : String)
    → (validate_table_name t ≡ ok tt) ↔ (IsName t ⊎ ((s : String) × IsName s × (t ≡ s <> newline)))
unfolding validate_table_name
validate_table_name-accepts t = (λ h. accepted t (accepts t h), λ h. rw (valid t h) refl)
