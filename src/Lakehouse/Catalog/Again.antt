-- ===== src/Lakehouse/Catalog/Again.antt =====
-- A second call of lakehouse/init_catalog.py.
use text.Mathlib.TextEquality.{eq_iff}
use crypto_streaming_lakehou.Base.{
  ℕ, String, true, false, ◌&&◌, List, [], ◌∷◌, ◌++◌, text_eq, Try, ok, raised, ◌≡◌, refl, sym, ap,
  ◌∙◌, inl, inr, Bool-cases, eq_refl,
}
use crypto_streaming_lakehou.Lakehouse.Storage.{placeholder, File}
use crypto_streaming_lakehou.Lakehouse.Exporter.{◌then_do◌}
use crypto_streaming_lakehou.Lakehouse.Catalog.{
  View, World, same_path, is_placeholder, replace_view, has_placeholder, write_placeholder,
  with_placeholder, with_view, statement, init_catalog,
}

same_path_refl : (path : List String) → same_path path path ≡ true
unfolding same_path
same_path_refl [] = refl
same_path_refl (d ∷ path) = rw (eq_refl d) (same_path_refl path)

replace_view_twice :
    (v : View) (views : List View) → replace_view v (replace_view v views) ≡ replace_view v views
unfolding replace_view
replace_view_twice v [] = rw (eq_refl v.name) refl
replace_view_twice v (x ∷ views) = elim (Bool-cases (text_eq v.name x.name)) [
  | inl e ↦ rw (e, eq_refl v.name) refl
  | inr e ↦ rw (e, e) (ap (λ l. x ∷ l) (replace_view_twice v views))
]

false≢true : false ≡ true → ⊥
false≢true h = cc

heads : {a b : View} {xs ys : List View} → a ∷ xs ≡ b ∷ ys → a ≡ b
heads h = cc

tails : {a b : View} {xs ys : List View} → a ∷ xs ≡ b ∷ ys → xs ≡ ys
tails h = cc

-- A view that is there stays there when one of another name is replaced.
replace_view-other :
    (u v : View) (views : List View)
    → text_eq v.name u.name ≡ false
    → replace_view v views ≡ views
    → replace_view v (replace_view u views) ≡ replace_view u views
unfolding replace_view
replace_view-other u v [] differs h = absurd (cc)
replace_view-other u v (x ∷ views) differs h = elim (Bool-cases (text_eq v.name x.name)) [
  | inl e ↦ elim (Bool-cases (text_eq u.name x.name)) [
    | inl k ↦ absurd (
        false≢true (
          sym differs
          ∙ (eq_iff v.name u.name).1
              ((eq_iff v.name x.name).0 e ∙ sym ((eq_iff u.name x.name).0 k))))
    | inr k ↦ rw (k, e) (ap (λ y. y ∷ replace_view u views) (heads (rw e at h)))
  ]
  | inr e ↦ elim (Bool-cases (text_eq u.name x.name)) [
    | inl k ↦ rw (k, differs) (ap (λ l. u ∷ l) (tails (rw e at h)))
    | inr k ↦ rw (k, e) (ap (λ l. x ∷ l) (replace_view-other u v views differs (tails (rw e at h))))
  ]
]

module _ {Row : Type 0} where
  has_placeholder-append :
      (dir : List String) (xs ys : List (File Row))
      → has_placeholder dir xs ≡ true
      → has_placeholder dir (xs ++ ys) ≡ true
  unfolding has_placeholder
  has_placeholder-append dir [] ys h = absurd (cc)
  has_placeholder-append dir (f ∷ xs) ys h =
      elim (Bool-cases (is_placeholder f.name && same_path f.directory dir)) [
        | inl e ↦ rw e refl
        | inr e ↦ rw e (has_placeholder-append dir xs ys (rw e at h))
      ]

  has_placeholder-last :
      (dir : List String) (xs : List (File Row))
      → has_placeholder dir (xs ++ record { directory = dir; name = placeholder; rows = [] } ∷ [])
        ≡ true
  unfolding has_placeholder
  has_placeholder-last dir [] = rw (same_path_refl dir) refl
  has_placeholder-last dir (f ∷ xs) =
      elim (Bool-cases (is_placeholder f.name && same_path f.directory dir)) [
        | inl e ↦ rw e refl
        | inr e ↦ rw e (has_placeholder-last dir xs)
      ]

  has_placeholder-write :
      (dir : List String) (files : List (File Row))
      → has_placeholder dir (write_placeholder dir files) ≡ true
  unfolding write_placeholder
  has_placeholder-write dir files = elim (Bool-cases (has_placeholder dir files)) [
    | inl e ↦ rw (e, e) refl
    | inr e ↦ rw e (has_placeholder-last dir files)
  ]

  has_placeholder-write_other :
      (dir other : List String) (files : List (File Row))
      → has_placeholder dir files ≡ true
      → has_placeholder dir (write_placeholder other files) ≡ true
  unfolding write_placeholder
  has_placeholder-write_other dir other files h = elim (Bool-cases (has_placeholder other files)) [
    | inl e ↦ rw (e, h) refl
    | inr e ↦ rw e (has_placeholder-append dir files _ h)
  ]

  write_placeholder_again :
      (dir : List String) (files : List (File Row))
      → has_placeholder dir files ≡ true
      → write_placeholder dir files ≡ files
  unfolding write_placeholder
  write_placeholder_again dir files h = rw h refl

  then_do-ok :
      (x : Try (Unit {0}) × World Row) (t : Try (Unit {0})) (change : World Row → World Row)
      → (x then_do statement t change).0 ≡ ok tt
      → (x.0 ≡ ok tt) × ((x then_do statement t change).1 ≡ change x.1)
  then_do-ok (ok u, w) (ok v) change h = (refl, refl)
  then_do-ok (ok u, w) (raised e) change h = absurd (cc)
  then_do-ok (raised e, w) t change h = absurd (cc)

  then_do-fixed :
      (x : Try (Unit {0}) × World Row) (t : Try (Unit {0})) (change : World Row → World Row)
      (w : World Row)
      → x.1 ≡ w
      → change w ≡ w
      → (x then_do statement t change).1 ≡ w
  then_do-fixed (ok u, v) (ok _) change w h k = ap change h ∙ k
  then_do-fixed (ok u, v) (raised e) change w h k = h
  then_do-fixed (raised e, v) t change w h k = h

  -- Nothing is left to do: both placeholders and both views are there.
  record IsComplete (base : List String) (w : World Row) : Type 0 where
    vwap_file : with_placeholder (base ++ "gold_vwap_1min" ∷ []) w ≡ w
    trade_stats_file : with_placeholder (base ++ "gold_trade_stats_1min" ∷ []) w ≡ w
    vwap_view : with_view "vw_vwap_1min" (base ++ "gold_vwap_1min" ∷ []) w ≡ w
    trade_stats_view : with_view "vw_trade_stats_1min" (base ++ "gold_trade_stats_1min" ∷ []) w ≡ w

  again-IsComplete :
      (perform : ℕ → Try (Unit {0})) (base : List String) (w : World Row)
      → IsComplete base w
      → (init_catalog perform base w).1 ≡ w
  unfolding init_catalog
  again-IsComplete perform base w c =
      let vwap = base ++ "gold_vwap_1min" ∷ [] in
      let trade_stats = base ++ "gold_trade_stats_1min" ∷ [] in
      let d0 = statement (perform 0) (λ v. v) w in
      let d1 = d0 then_do statement (perform 1) (λ v. v) in
      let s0 = d1 then_do statement (perform 2) (with_placeholder vwap) in
      let s1 = s0 then_do statement (perform 3) (with_placeholder trade_stats) in
      let s2 = s1 then_do statement (perform 4) (λ v. v) in
      let s3 = s2 then_do statement (perform 5) (with_view "vw_vwap_1min" vwap) in
      let c0 = then_do-fixed (ok tt, w) (perform 0) (λ v. v) w refl refl in
      let c1 = then_do-fixed d0 (perform 1) (λ v. v) w c0 refl in
      let e0 = then_do-fixed d1 (perform 2) (with_placeholder vwap) w c1 c.vwap_file in
      let e1 =
        then_do-fixed s0 (perform 3) (with_placeholder trade_stats) w e0 c.trade_stats_file in
      let e2 = then_do-fixed s1 (perform 4) (λ v. v) w e1 refl in
      let e3 = then_do-fixed s2 (perform 5) (with_view "vw_vwap_1min" vwap) w e2 c.vwap_view in
      then_do-fixed s3 (perform 6) (with_view "vw_trade_stats_1min" trade_stats) w e3
        c.trade_stats_view

  -- What a call makes of the world when no statement raises.
  abbrev refreshed : List String → World Row → World Row
  refreshed base w = with_view "vw_trade_stats_1min" (base ++ "gold_trade_stats_1min" ∷ []) (
      with_view "vw_vwap_1min" (base ++ "gold_vwap_1min" ∷ []) (
        with_placeholder (base ++ "gold_trade_stats_1min" ∷ [])
          (with_placeholder (base ++ "gold_vwap_1min" ∷ []) w)))

  refreshed_lem :
      (perform : ℕ → Try (Unit {0})) (base : List String) (w : World Row)
      → (init_catalog perform base w).0 ≡ ok tt
      → (init_catalog perform base w).1 ≡ refreshed base w
  unfolding init_catalog
  refreshed_lem perform base w h =
      let vwap = base ++ "gold_vwap_1min" ∷ [] in
      let trade_stats = base ++ "gold_trade_stats_1min" ∷ [] in
      let d0 = statement (perform 0) (λ v. v) w in
      let d1 = d0 then_do statement (perform 1) (λ v. v) in
      let s0 = d1 then_do statement (perform 2) (with_placeholder vwap) in
      let s1 = s0 then_do statement (perform 3) (with_placeholder trade_stats) in
      let s2 = s1 then_do statement (perform 4) (λ v. v) in
      let s3 = s2 then_do statement (perform 5) (with_view "vw_vwap_1min" vwap) in
      let (h3, e4) = then_do-ok s3 (perform 6) (with_view "vw_trade_stats_1min" trade_stats) h in
      let (h2, e3) = then_do-ok s2 (perform 5) (with_view "vw_vwap_1min" vwap) h3 in
      let (h1, e2) = then_do-ok s1 (perform 4) (λ v. v) h2 in
      let (h0, e1) = then_do-ok s0 (perform 3) (with_placeholder trade_stats) h1 in
      let (g1, e0) = then_do-ok d1 (perform 2) (with_placeholder vwap) h0 in
      let (g0, c1) = then_do-ok d0 (perform 1) (λ v. v) g1 in
      let (_, c0) = then_do-ok (ok tt, w) (perform 0) (λ v. v) g0 in
      e4
      ∙ ap (with_view "vw_trade_stats_1min" trade_stats) (
          e3
          ∙ ap (with_view "vw_vwap_1min" vwap) (
              e2
              ∙ e1
              ∙ ap (with_placeholder trade_stats) (e0 ∙ ap (with_placeholder vwap) (c1 ∙ c0))))

  same_files :
      (w : World Row) {files : List (File Row)}
      → files ≡ w.storage.files
      → record w { storage = record w.storage { files = files } } ≡ w
  same_files w h = ap (λ f. record w { storage = record w.storage { files = f } }) h

  same_views :
      (w : World Row) {views : List View} → views ≡ w.views → record w { views = views } ≡ w
  same_views w h = ap (λ v. record w { views = v }) h

  refreshed-IsComplete : (base : List String) (w : World Row) → IsComplete base (refreshed base w)
  refreshed-IsComplete base w =
      let vwap = base ++ "gold_vwap_1min" ∷ [] in
      let trade_stats = base ++ "gold_trade_stats_1min" ∷ [] in
      let files = write_placeholder vwap w.storage.files in
      let v1 : View = record { name = "vw_vwap_1min"; directory = vwap } in
      let v2 : View = record { name = "vw_trade_stats_1min"; directory = trade_stats } in
      record {
        vwap_file = same_files (refreshed base w) (
            write_placeholder_again vwap _ (
              has_placeholder-write_other vwap trade_stats files
                (has_placeholder-write vwap w.storage.files)));
        trade_stats_file =
            same_files (refreshed base w)
              (write_placeholder_again trade_stats _ (has_placeholder-write trade_stats files));
        vwap_view = same_views (refreshed base w) (
            replace_view-other v2 v1 (replace_view v1 w.views) refl
              (replace_view_twice v1 w.views));
        trade_stats_view =
            same_views (refreshed base w) (replace_view_twice v2 (replace_view v1 w.views));
      }

  -- After a call that did not raise a further call changes neither the files nor the views, whether
  -- it raises or not.
  pub init_catalog_again :
      (perform again : ℕ → Try (Unit {0})) (base : List String) (w : World Row)
      → (init_catalog perform base w).0 ≡ ok tt
      → (init_catalog again base (init_catalog perform base w).1).1
        ≡ (init_catalog perform base w).1
  init_catalog_again perform again base w h =
      let e = refreshed_lem perform base w h in
      ap (λ v. (init_catalog again base v).1) e
      ∙ again-IsComplete again base (refreshed base w) (refreshed-IsComplete base w)
      ∙ sym e
