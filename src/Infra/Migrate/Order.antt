-- ===== src/Infra/Migrate/Order.antt =====
-- The order in which infra/migrate.py applies the files.
mod Sorting
use Prim.Native.Char.{code}
use Prim.Native.String
use crypto_streaming_lakehou.Base.Digits.{leading_digits, value}
use crypto_streaming_lakehou.Base.{
  ℕ, suc, String, ◌+◌, ◌*◌, ◌-◌, ◌^◌, ◌≤◌, ◌==◌, not, ap, sym, is_empty, length, ◌≡◌, refl, ◌∙◌,
  inl, inr, Bool, true, false, ◌&&◌, List, [], ◌∷◌, All, arith, Bool-cases, if◌then◌else◌,
}
use crypto_streaming_lakehou.Base.Int.{ℤ, pos, leb_ℤ}
use crypto_streaming_lakehou.Infra.Migrate.{
  Migration, is_digit, has_prefix, prefix_from, numeric_prefix, insert_file, sort_files, numbered,
  get_migration_files,
}
use Sorting.{
  Precedes, IsSorted, with_prefix, sort_files-IsSorted, with_prefix-sort_files, sort_files-All,
}

-- The number that the name begins with, and whether it begins with one
abbrev pub number_of : Migration → ℕ
number_of m = value (leading_digits m.version)

abbrev pub is_numbered : Migration → Bool
is_numbered m = not (is_empty (leading_digits m.version))

-- The number of each file is at most those of all files after it.
abbrev pub IsOrdered : List Migration → Type 0
IsOrdered [] = Unit
IsOrdered (m ∷ ms) = All (λ n. number_of m ≤ number_of n) ms × IsOrdered ms

-- The files whose names begin with this number, in their order
abbrev pub with_number : ℕ → List Migration → List Migration
with_number k [] = []
with_number k (m ∷ ms) =
    if is_numbered m && number_of m == k then m ∷ with_number k ms else with_number k ms

pow_suc : (n : ℕ) → 10 ^ suc n ≡ 10 * 10 ^ n
pow_suc n = omega arith

with_power : (a d p v : ℕ) → (a * 10 + d) * p + v ≡ a * (10 * p) + (d * p + v)
with_power a d p v = omega arith

one_digit_more : (a d n v : ℕ) → (a * 10 + d) * 10 ^ n + v ≡ a * 10 ^ suc n + (d * 10 ^ n + v)
one_digit_more a d n v = rw (pow_suc n) (with_power a d (10 ^ n) v)

prefix_from-value :
    (a : ℕ) (s : String)
    → prefix_from a s ≡ a * 10 ^ length (leading_digits s) + value (leading_digits s)
unfolding prefix_from
prefix_from-value a String.[] = omega arith
prefix_from-value a (String.◌∷◌ c s) = elim (Bool-cases (is_digit c)) [
  | inl e ↦
      rw (e, prefix_from-value (a * 10 + (code c - b'0')) s)
        (one_digit_more a (code c - b'0') (length (leading_digits s)) (value (leading_digits s)))
  | inr e ↦ rw e (omega arith)
]

has_prefix-leading : (s : String) → has_prefix s ≡ not (is_empty (leading_digits s))
unfolding has_prefix
has_prefix-leading String.[] = refl
has_prefix-leading (String.◌∷◌ c s) = elim (Bool-cases (is_digit c)) [
  | inl e ↦ rw e refl
  | inr e ↦ rw e refl
]

numeric_prefix-number_of :
    (m : Migration) → is_numbered m ≡ true → numeric_prefix m.version ≡ pos (number_of m)
unfolding numeric_prefix
numeric_prefix-number_of m h =
    rw (has_prefix-leading m.version ∙ h) (ap pos (prefix_from-value 0 m.version ∙ omega arith))

abbrev AreNumbered : List Migration → Type 0
AreNumbered = All (λ m. is_numbered m ≡ true)

numbered-AreNumbered : (files : List Migration) → AreNumbered (numbered files)
unfolding numbered
numbered-AreNumbered [] = tt
numbered-AreNumbered (m ∷ files) = elim (Bool-cases (has_prefix m.version)) [
  | inl e ↦ rw e (sym (has_prefix-leading m.version) ∙ e, numbered-AreNumbered files)
  | inr e ↦ rw e (numbered-AreNumbered files)
]

with_number-numbered :
    (k : ℕ) (files : List Migration) → with_number k (numbered files) ≡ with_number k files
unfolding numbered
with_number-numbered k [] = refl
with_number-numbered k (m ∷ files) = elim (Bool-cases (has_prefix m.version)) [
  | inl e ↦ rw (e, with_number-numbered k files) refl
  | inr e ↦ rw (e, sym (has_prefix-leading m.version) ∙ e) (with_number-numbered k files)
]

same_test : (k n : ℕ) → (leb_ℤ (pos k) (pos n) && leb_ℤ (pos n) (pos k)) ≡ (n == k)
same_test k n = ground arith

with_prefix-number :
    (k : ℕ) (ms : List Migration) → AreNumbered ms → with_prefix (pos k) ms ≡ with_number k ms
with_prefix-number k [] h = refl
with_prefix-number k (m ∷ ms) h =
    rw (numeric_prefix-number_of m h.0, same_test k (number_of m), h.0, with_prefix-number k ms h.1)
      refl

Precedes-number :
    (m n : Migration)
    → is_numbered m ≡ true
    → is_numbered n ≡ true
    → Precedes m n
    → number_of m ≤ number_of n
Precedes-number m n h k p =
    let q : leb_ℤ (pos (number_of m)) (pos (number_of n)) ≡ true =
      rw (numeric_prefix-number_of m h, numeric_prefix-number_of n k) at p in
    ground arith

Precedes-numbers :
    (m : Migration) (ms : List Migration)
    → is_numbered m ≡ true
    → AreNumbered ms
    → All (Precedes m) ms
    → All (λ n. number_of m ≤ number_of n) ms
Precedes-numbers m [] h k p = tt
Precedes-numbers m (n ∷ ms) h k p = (Precedes-number m n h k.0 p.0, Precedes-numbers m ms h k.1 p.1)

IsSorted-IsOrdered : (ms : List Migration) → AreNumbered ms → IsSorted ms → IsOrdered ms
IsSorted-IsOrdered [] h s = tt
IsSorted-IsOrdered (m ∷ ms) h s = (Precedes-numbers m ms h.0 h.1 s.0, IsSorted-IsOrdered ms h.1 s.1)

-- The files that are applied are those whose names begin with decimal digits, in the order of the
-- numbers that these are; of the files with any one number they are exactly those of the directory,
-- in the directory's order.
pub get_migration_files-IsOrdered :
    (files : List Migration)
    → let sorted = get_migration_files files in
      IsOrdered sorted
      × All (λ m. is_numbered m ≡ true) sorted
      × ((k : ℕ) → with_number k sorted ≡ with_number k files)
unfolding get_migration_files
get_migration_files-IsOrdered files =
    let all =
      sort_files-All (λ m. is_numbered m ≡ true) (numbered files) (numbered-AreNumbered files) in
    (
      IsSorted-IsOrdered (sort_files (numbered files)) all (sort_files-IsSorted (numbered files)),
      all,
      λ k.
          sym (with_prefix-number k (sort_files (numbered files)) all)
          ∙ with_prefix-sort_files (pos k) (numbered files)
          ∙ with_prefix-number k (numbered files) (numbered-AreNumbered files)
          ∙ with_number-numbered k files,
    )
