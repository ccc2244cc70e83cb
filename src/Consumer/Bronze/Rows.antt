-- ===== src/Consumer/Bronze/Rows.antt =====
-- What the INSERT of consumer/repository.py does to bronze.raw_trades.
use crypto_streaming_lakehou.Base.{
  String, ◌+◌, ◌≤◌, ◌≡◌, refl, sym, ap, ◌∙◌, true, false, ◌||◌, Bool-cases, inl, inr, Option, none,
  some, List, [], ◌∷◌, ◌++◌, append-nil, append_assoc, arith, length, length-append, eq_iff,
  eq_refl, is_some, All, if◌then◌else◌,
}
use crypto_streaming_lakehou.Consumer.Bronze.{
  Row, Table, same_id, conflicts, insert_row, insert_rows,
}

same_id_symm : (a b : Option String) → same_id a b ≡ false → same_id b a ≡ false
unfolding same_id
same_id_symm none none h = refl
same_id_symm none (some j) h = refl
same_id_symm (some k) none h = refl
same_id_symm (some k) (some j) h = ground (arith, eq_iff j k, eq_iff k j)

same_id_refl : (k : Option String) → is_some k ≡ true → same_id k k ≡ true
unfolding same_id
same_id_refl none h = cc
same_id_refl (some k) h = eq_refl k

module _ {Trade : Type 0} (trade_id_of : Trade → Option String) where
  abbrev id_of : Row Trade → Option String
  id_of r = trade_id_of r.payload

  -- No two rows have the same trade_id; rows without one are not restricted.
  abbrev pub IsDistinct : Table Trade → Type 0
  IsDistinct [] = Unit
  IsDistinct (r ∷ rest) = (conflicts trade_id_of (id_of r) rest ≡ false) × IsDistinct rest

  conflicts-append :
      (k : Option String) (t u : Table Trade)
      → conflicts trade_id_of k (t ++ u) ≡ (conflicts trade_id_of k t || conflicts trade_id_of k u)
  unfolding conflicts
  conflicts-append k [] u = refl
  conflicts-append k (r ∷ t) u = ground (arith, conflicts-append k t u)

  same_id-cons :
      (q r : Row Trade) (t : Table Trade)
      → conflicts trade_id_of (id_of q) (r ∷ t) ≡ false
      → same_id (id_of r) (id_of q) ≡ false
  unfolding conflicts
  same_id-cons q r t h = same_id_symm (id_of q) (id_of r) (ground arith)

  IsDistinct-append :
      (q : Row Trade) (u : Table Trade)
      → IsDistinct u
      → conflicts trade_id_of (id_of q) u ≡ false
      → IsDistinct (u ++ q ∷ [])
  unfolding conflicts
  IsDistinct-append q [] e f = (refl, tt)
  IsDistinct-append q (r ∷ u) e f = ground (
    arith,
    same_id-cons q r u f,
    conflicts-append (id_of r) u (q ∷ []),
    IsDistinct-append q u e.1,
  )

  insert_row-IsDistinct :
      (r : Row Trade) (t : Table Trade) → IsDistinct t → IsDistinct (insert_row trade_id_of r t)
  unfolding insert_row
  insert_row-IsDistinct r t d = elim (Bool-cases (conflicts trade_id_of (id_of r) t)) [
    | inl old ↦ rw old d
    | inr new ↦ rw new (IsDistinct-append r t d new)
  ]

  pub insert_rows-IsDistinct :
      (rs : List (Row Trade)) (t : Table Trade)
      → IsDistinct t
      → IsDistinct (insert_rows trade_id_of rs t).0
  unfolding insert_rows
  insert_rows-IsDistinct [] t d = d
  insert_rows-IsDistinct (r ∷ rs) t d =
      insert_rows-IsDistinct rs (insert_row trade_id_of r t) (insert_row-IsDistinct r t d)

  length-insert_row :
      (r : Row Trade) (t : Table Trade)
      → length (insert_row trade_id_of r t)
        ≡ length t + (if conflicts trade_id_of (id_of r) t then 0 else 1)
  unfolding insert_row
  length-insert_row r t = ground (arith, length-append t (r ∷ []))

  -- The table grows by as many rows as RETURNING lists, and those are at most the given ones.
  pub length-insert_rows :
      (rs : List (Row Trade)) (t : Table Trade)
      → let (t', ids) = insert_rows trade_id_of rs t in
        (length t' ≡ length t + length ids) × (length ids ≤ length rs)
  unfolding insert_rows
  length-insert_rows [] t = omega arith
  length-insert_rows (r ∷ rs) t =
      ground (arith, length-insert_rows rs (insert_row trade_id_of r t), length-insert_row r t)

  -- What a row added, the table then holds.
  conflicts-insert_row :
      (k : Option String) (r : Row Trade) (t : Table Trade)
      → conflicts trade_id_of k t ≡ true
      → conflicts trade_id_of k (insert_row trade_id_of r t) ≡ true
  unfolding insert_row
  conflicts-insert_row k r t h = ground (arith, conflicts-append k t (r ∷ []))

  conflicts_singleton :
      (r : Row Trade) → is_some (id_of r) ≡ true → conflicts trade_id_of (id_of r) (r ∷ []) ≡ true
  unfolding conflicts
  conflicts_singleton r h = rw (same_id_refl (id_of r) h)

  conflicts-insert_row_self :
      (r : Row Trade) (t : Table Trade)
      → is_some (id_of r) ≡ true
      → conflicts trade_id_of (id_of r) (insert_row trade_id_of r t) ≡ true
  unfolding insert_row
  conflicts-insert_row_self r t h =
      ground (arith, conflicts-append (id_of r) t (r ∷ []), conflicts_singleton r h)

  pub conflicts-insert_rows :
      (k : Option String) (rs : List (Row Trade)) (t : Table Trade)
      → conflicts trade_id_of k t ≡ true
      → conflicts trade_id_of k (insert_rows trade_id_of rs t).0 ≡ true
  unfolding insert_rows
  conflicts-insert_rows k [] t h = h
  conflicts-insert_rows k (r ∷ rs) t h =
      conflicts-insert_rows k rs (insert_row trade_id_of r t) (conflicts-insert_row k r t h)

  -- Every given row has its trade_id in the table afterwards.
  abbrev pub AllHeld : List (Row Trade) → Table Trade → Type 0
  AllHeld rs t = All (λ r. conflicts trade_id_of (id_of r) t ≡ true) rs

  abbrev pub HaveIds : List (Row Trade) → Type 0
  HaveIds = All (λ r. is_some (id_of r) ≡ true)

  pub insert_rows-AllHeld :
      (rs : List (Row Trade)) (t : Table Trade)
      → HaveIds rs
      → AllHeld rs (insert_rows trade_id_of rs t).0
  unfolding insert_rows
  insert_rows-AllHeld [] t h = tt
  insert_rows-AllHeld (r ∷ rs) t h =
      let t' = insert_row trade_id_of r t in
      (
        conflicts-insert_rows (id_of r) rs t' (conflicts-insert_row_self r t h.0),
        insert_rows-AllHeld rs t' h.1,
      )

  -- Rows whose trade_ids are all in the table change nothing.
  pub insert_rows_again :
      (rs : List (Row Trade)) (t : Table Trade)
      → AllHeld rs t
      → insert_rows trade_id_of rs t ≡ (t, [])
  unfolding insert_rows
  insert_rows_again [] t h = refl
  insert_rows_again (r ∷ rs) t h = rw (h.0, insert_rows_again rs t h.1)

  insert_row_prefix :
      (r : Row Trade) (t : Table Trade)
      → (new : Table Trade) × (insert_row trade_id_of r t ≡ t ++ new)
  unfolding insert_row
  insert_row_prefix r t = elim (Bool-cases (conflicts trade_id_of (id_of r) t)) [
    | inl old ↦ ([], rw old (sym (append-nil t)))
    | inr fresh ↦ (r ∷ [], rw fresh refl)
  ]

  -- The rows that were there stay, in place.
  pub insert_rows_prefix :
      (rs : List (Row Trade)) (t : Table Trade)
      → (new : Table Trade) × ((insert_rows trade_id_of rs t).0 ≡ t ++ new)
  unfolding insert_rows
  insert_rows_prefix [] t = ([], sym (append-nil t))
  insert_rows_prefix (r ∷ rs) t =
      let (new, e) = insert_rows_prefix rs (insert_row trade_id_of r t) in
      let (first, f) = insert_row_prefix r t in
      (first ++ new, e ∙ ap (λ u. u ++ new) f ∙ append_assoc t first new)
