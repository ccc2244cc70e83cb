-- ===== src/Infra/Migrate/Order/Sorting.antt =====
-- list.sort by the key of infra/migrate.py
use crypto_streaming_lakehou.Base.{
  ◌≡◌, refl, ◌∙◌, inl, inr, Bool, true, false, ◌&&◌, List, [], ◌∷◌, All, arith, Bool-cases,
  if◌then◌else◌,
}
use crypto_streaming_lakehou.Base.Int.{ℤ, leb_ℤ}
use crypto_streaming_lakehou.Infra.Migrate.{Migration, numeric_prefix, insert_file, sort_files}

-- The key of one file is at most that of the other.
abbrev pub Precedes : Migration → Migration → Type 0
Precedes m n = leb_ℤ (numeric_prefix m.version) (numeric_prefix n.version) ≡ true

-- Each file precedes all those after it.
abbrev pub IsSorted : List Migration → Type 0
IsSorted [] = Unit
IsSorted (m ∷ ms) = All (Precedes m) ms × IsSorted ms

-- The files with this key, in their order
abbrev pub with_prefix : ℤ → List Migration → List Migration
with_prefix k [] = []
with_prefix k (m ∷ ms) =
    if leb_ℤ k (numeric_prefix m.version) && leb_ℤ (numeric_prefix m.version) k
    then m ∷ with_prefix k ms
    else with_prefix k ms

leb_ℤ-trans : (a b c : ℤ) → leb_ℤ a b ≡ true → leb_ℤ b c ≡ true → leb_ℤ a c ≡ true
leb_ℤ-trans a b c h k = ground arith

leb_ℤ-total : (a b : ℤ) → leb_ℤ a b ≡ false → leb_ℤ b a ≡ true
leb_ℤ-total a b h = ground arith

Precedes-All :
    (m n : Migration) (ms : List Migration)
    → Precedes m n
    → All (Precedes n) ms
    → All (Precedes m) ms
Precedes-All m n [] h k = tt
Precedes-All m n (o ∷ ms) h k = (
  leb_ℤ-trans (numeric_prefix m.version) (numeric_prefix n.version) (numeric_prefix o.version) h
      k.0,
  Precedes-All m n ms h k.1,
)

module _ (P : Migration → Type 0) where
  either-All :
      (b : Bool) (xs ys : List Migration) → All P xs → All P ys → All P (if b then xs else ys)
  either-All true xs ys h k = h
  either-All false xs ys h k = k

  pub insert_file-All :
      (m : Migration) (ms : List Migration) → P m → All P ms → All P (insert_file m ms)
  unfolding insert_file
  insert_file-All m [] h k = (h, tt)
  insert_file-All m (n ∷ ms) h k =
      either-All (leb_ℤ (numeric_prefix m.version) (numeric_prefix n.version)) (m ∷ n ∷ ms)
        (n ∷ insert_file m ms) (h, k) (k.0, insert_file-All m ms h k.1)

insert_file-IsSorted :
    (m : Migration) (ms : List Migration) → IsSorted ms → IsSorted (insert_file m ms)
unfolding insert_file
insert_file-IsSorted m [] h = (tt, tt)
insert_file-IsSorted m (n ∷ ms) h =
    elim (Bool-cases (leb_ℤ (numeric_prefix m.version) (numeric_prefix n.version))) [
      | inl e ↦ rw e ((e, Precedes-All m n ms e h.0), h)
      | inr e ↦ rw e (
        insert_file-All (Precedes n) m ms
            (leb_ℤ-total (numeric_prefix m.version) (numeric_prefix n.version) e) h.0,
        insert_file-IsSorted m ms h.1,
      )
    ]

pub sort_files-IsSorted : (ms : List Migration) → IsSorted (sort_files ms)
unfolding sort_files
sort_files-IsSorted [] = tt
sort_files-IsSorted (m ∷ ms) = insert_file-IsSorted m (sort_files ms) (sort_files-IsSorted ms)

-- Moving a file past one with a smaller number
moved :
    (k a b : ℤ) (m n : Migration) (ms : List Migration)
    → leb_ℤ a b ≡ false
    → (if leb_ℤ k b && leb_ℤ b k
        then n ∷ (if leb_ℤ k a && leb_ℤ a k then m ∷ ms else ms)
        else if leb_ℤ k a && leb_ℤ a k
        then m ∷ ms
        else ms)
      ≡ (if leb_ℤ k a && leb_ℤ a k
          then m ∷ (if leb_ℤ k b && leb_ℤ b k then n ∷ ms else ms)
          else if leb_ℤ k b && leb_ℤ b k
          then n ∷ ms
          else ms)
moved k a b m n ms h = ground arith

with_prefix-insert_file :
    (k : ℤ) (m : Migration) (ms : List Migration)
    → with_prefix k (insert_file m ms) ≡ with_prefix k (m ∷ ms)
unfolding insert_file
with_prefix-insert_file k m [] = refl
with_prefix-insert_file k m (n ∷ ms) =
    elim (Bool-cases (leb_ℤ (numeric_prefix m.version) (numeric_prefix n.version))) [
      | inl e ↦ rw e refl
      | inr e ↦
          rw (e, with_prefix-insert_file k m ms)
            (moved k (numeric_prefix m.version) (numeric_prefix n.version) m n (with_prefix k ms) e)
    ]

pub with_prefix-sort_files :
    (k : ℤ) (ms : List Migration) → with_prefix k (sort_files ms) ≡ with_prefix k ms
unfolding sort_files
with_prefix-sort_files k [] = refl
with_prefix-sort_files k (m ∷ ms) =
    with_prefix-insert_file k m (sort_files ms) ∙ rw (with_prefix-sort_files k ms) refl

pub sort_files-All :
    (P : Migration → Type 0) (ms : List Migration) → All P ms → All P (sort_files ms)
unfolding sort_files
sort_files-All P [] h = tt
sort_files-All P (m ∷ ms) h = insert_file-All P m (sort_files ms) h.0 (sort_files-All P ms h.1)
