-- ===== src/Lakehouse/Tests.antt =====
-- Frames of numbers for runs of the lakehouse's model: a row is the start of its window, and ten of
-- these make a day of April 2026, where the days run from 0 to 31.
mod Exporting
mod Naming
use crypto_streaming_lakehou.Base.{
  ℕ, ◌+◌, ◌/◌, ◌%◌, ◌==◌, Bool, true, false, ◌&&◌, List, [], ◌∷◌, if◌then◌else◌, ◌≡◌, refl, sym, ap,
  ◌∙◌, arith, All, inl, inr, Bool-cases, bit, ltb,
}
use crypto_streaming_lakehou.Lakehouse.Storage.{Date, Frames, count, count_groups}

abbrev pub day_of : ℕ → Date
day_of n = record { year = 2026; month = 4; day = n / 10 % 32 }

abbrev pub same_date : Date → Date → Bool
same_date a b = a.year == b.year && a.month == b.month && a.day == b.day

same_date-eq : (a b : Date) → same_date a b ≡ true → a ≡ b
same_date-eq a b h =
    let y : a.year ≡ b.year = ground (arith) in
    let m : a.month ≡ b.month = ground (arith) in
    let d : a.day ≡ b.day = ground (arith) in λ i. record { year = y i; month = m i; day = d i }

unfoldable pub group_in : ℕ → List (Date × List ℕ) → List (Date × List ℕ)
group_in n [] = (day_of n, n ∷ []) ∷ []
group_in n ((date, rows) ∷ groups) =
    let rest = group_in n groups in
    if same_date (day_of n) date
    then (date, n ∷ rows) ∷ groups
    else if ltb (day_of n).day date.day
    then (day_of n, n ∷ []) ∷ (date, rows) ∷ groups
    else (date, rows) ∷ rest

unfoldable pub group : List ℕ → List (Date × List ℕ)
unfolding group_in
group [] = []
group (n ∷ rows) = group_in n (group rows)

count-group_in :
    (p : ℕ → Bool) (n : ℕ) (groups : List (Date × List ℕ))
    → count_groups p (group_in n groups) ≡ bit (p n) + count_groups p groups
unfolding group_in
count-group_in p n [] = omega arith
count-group_in p n ((date, rows) ∷ groups) = elim (Bool-cases (same_date (day_of n) date)) [
  | inl e ↦ rw e (omega arith)
  | inr e ↦ elim (Bool-cases (ltb (day_of n).day date.day)) [
    | inl l ↦ rw (e, l) (omega arith)
    | inr g ↦ rw (e, g) (omega (arith, count-group_in p n groups))
  ]
]

pub count-group : (p : ℕ → Bool) (rows : List ℕ) → count_groups p (group rows) ≡ count p rows
unfolding group
count-group p [] = refl
count-group p (n ∷ rows) = omega (arith, count-group_in p n (group rows), count-group p rows)

abbrev pub IsDated : Date × List ℕ → Type 0
IsDated g = All (λ n. day_of n ≡ g.0) g.1

group_in-IsDated :
    (n : ℕ) (groups : List (Date × List ℕ)) → All IsDated groups → All IsDated (group_in n groups)
unfolding group_in
group_in-IsDated n [] h = ((refl, tt), tt)
group_in-IsDated n ((date, rows) ∷ groups) (d, h) = elim (Bool-cases (same_date (day_of n) date)) [
  | inl e ↦ rw e ((same_date-eq (day_of n) date e, d), h)
  | inr e ↦ elim (Bool-cases (ltb (day_of n).day date.day)) [
    | inl l ↦ rw (e, l) ((refl, tt), (d, h))
    | inr g ↦ rw (e, g) (d, group_in-IsDated n groups h)
  ]
]

pub group-IsDated : (rows : List ℕ) → All IsDated (group rows)
unfolding group
group-IsDated [] = tt
group-IsDated (n ∷ rows) = group_in-IsDated n (group rows) (group-IsDated rows)

abbrev pub by_day : Frames ℕ
by_day = record {
  window_start = λ n. n;
  date = day_of;
  groupby = group;
  count-groupby = count-group;
  groupby-dated = group-IsDated;
}
