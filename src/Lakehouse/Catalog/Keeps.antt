-- ===== src/Lakehouse/Catalog/Keeps.antt =====
-- What lakehouse/init_catalog.py leaves alone.
use crypto_streaming_lakehou.Base.{
  ℕ, String, List, [], ◌∷◌, ◌++◌, Try, ok, raised, ◌≡◌, refl, ap, ◌∙◌, inl, inr, Bool-cases,
  append-nil,
}
use crypto_streaming_lakehou.Lakehouse.Storage.{File, is_under, under, rows_of, read_parquet}
use crypto_streaming_lakehou.Lakehouse.Storage.Counting.{read_parquet-append}
use crypto_streaming_lakehou.Lakehouse.Exporter.{◌then_do◌}
use crypto_streaming_lakehou.Lakehouse.Catalog.{
  World, has_placeholder, write_placeholder, with_placeholder, with_view, statement, init_catalog,
}

module _ {Row : Type 0} where
  pub then_do-keeps :
      (P : World Row → Type 0) (x : Try (Unit {0}) × World Row)
      (f : World Row → Try (Unit {0}) × World Row)
      → P x.1
      → ((w : World Row) → P w → P (f w).1)
      → P (x then_do f).1
  then_do-keeps P (ok u, w) f h k = k w h
  then_do-keeps P (raised e, w) f h k = h

  statement-keeps :
      (P : World Row → Type 0) (t : Try (Unit {0})) (change : World Row → World Row) (w : World Row)
      → P w
      → P (change w)
      → P (statement t change w).1
  statement-keeps P (ok u) change w h k = k
  statement-keeps P (raised e) change w h k = h

  then_statement :
      (P : World Row → Type 0) (x : Try (Unit {0}) × World Row) (t : Try (Unit {0}))
      (change : World Row → World Row)
      → P x.1
      → ((w : World Row) → P w → P (change w))
      → P (x then_do statement t change).1
  then_statement P x t change h k =
      then_do-keeps P x (statement t change) h (λ w p. statement-keeps P t change w p (k w p))

  -- A predicate that placeholders and views keep, a call keeps, whatever raises.
  pub init_catalog-keeps :
      (P : World Row → Type 0) (perform : ℕ → Try (Unit {0})) (base : List String) (w : World Row)
      → ((v : World Row) → P v → P (with_placeholder (base ++ "gold_vwap_1min" ∷ []) v))
      → ((v : World Row) → P v → P (with_placeholder (base ++ "gold_trade_stats_1min" ∷ []) v))
      → ((v : World Row) → P v → P (with_view "vw_vwap_1min" (base ++ "gold_vwap_1min" ∷ []) v))
      → ((v : World Row)
          → P v
          → P (with_view "vw_trade_stats_1min" (base ++ "gold_trade_stats_1min" ∷ []) v))
      → P w
      → P (init_catalog perform base w).1
  unfolding init_catalog
  init_catalog-keeps P perform base w k0 k1 k3 k4 h =
      let vwap = base ++ "gold_vwap_1min" ∷ [] in
      let trade_stats = base ++ "gold_trade_stats_1min" ∷ [] in
      let d0 = statement (perform 0) (λ v. v) w in
      let d1 = d0 then_do statement (perform 1) (λ v. v) in
      let s0 = d1 then_do statement (perform 2) (with_placeholder vwap) in
      let s1 = s0 then_do statement (perform 3) (with_placeholder trade_stats) in
      let s2 = s1 then_do statement (perform 4) (λ v. v) in
      let s3 = s2 then_do statement (perform 5) (with_view "vw_vwap_1min" vwap) in
      let g0 = statement-keeps P (perform 0) (λ v. v) w h h in
      let g1 = then_statement P d0 (perform 1) (λ v. v) g0 (λ v p. p) in
      let h0 = then_statement P d1 (perform 2) (with_placeholder vwap) g1 k0 in
      let h1 = then_statement P s0 (perform 3) (with_placeholder trade_stats) h0 k1 in
      let h2 = then_statement P s1 (perform 4) (λ v. v) h1 (λ v p. p) in
      let h3 = then_statement P s2 (perform 5) (with_view "vw_vwap_1min" vwap) h2 k3 in
      then_statement P s3 (perform 6) (with_view "vw_trade_stats_1min" trade_stats) h3 k4

  read_parquet-blank :
      (at : List String) (f : File Row) → f.rows ≡ [] → read_parquet at (f ∷ []) ≡ []
  unfolding read_parquet rows_of under
  read_parquet-blank at f h = elim (Bool-cases (is_under at f.directory)) [
    | inl e ↦ rw (e, h) refl
    | inr e ↦ rw e refl
  ]

  read_parquet-write_placeholder :
      (at dir : List String) (files : List (File Row))
      → read_parquet at (write_placeholder dir files) ≡ read_parquet at files
  unfolding write_placeholder
  read_parquet-write_placeholder at dir files = elim (Bool-cases (has_placeholder dir files)) [
    | inl e ↦ rw e refl
    | inr e ↦ rw e (
        read_parquet-append at files _
        ∙ ap (λ l. read_parquet at files ++ l) (read_parquet-blank at _ refl)
        ∙ append-nil (read_parquet at files))
  ]

  -- The catalog changes no row that can be read, and no mark.
  pub init_catalog-rows :
      (perform : ℕ → Try (Unit {0})) (base : List String) (w : World Row)
      → ((init_catalog perform base w).1.export_state ≡ w.export_state)
        × ((at : List String)
            → read_parquet at (init_catalog perform base w).1.storage.files
              ≡ read_parquet at w.storage.files)
  init_catalog-rows perform base w =
      init_catalog-keeps
        (λ v.
          (v.export_state ≡ w.export_state)
          × ((at : List String)
              → read_parquet at v.storage.files ≡ read_parquet at w.storage.files))
        perform base w
        (λ v p. (
          p.0,
          λ at.
              read_parquet-write_placeholder at (base ++ "gold_vwap_1min" ∷ []) v.storage.files
              ∙ p.1 at,
        ))
        (λ v p. (
          p.0,
          λ at.
              read_parquet-write_placeholder at (base ++ "gold_trade_stats_1min" ∷ [])
                v.storage.files
              ∙ p.1 at,
        ))
        (λ v p. p) (λ v p. p) (refl, λ at. refl)
