-- ===== src/Shared/Metrics/Cache.antt =====
-- Which metric the factories of shared/metrics.py return.
use Prim.Native.String.{◌++◌ as append_text}
use crypto_streaming_lakehou.Base.{
  ℕ, String, ◌≡◌, refl, subst, ◌∙◌, Option, none, some, List, [], ◌∷◌, ◌++◌, Try, ok, raised,
  eq_refl, arith,
}
use crypto_streaming_lakehou.Shared.Metrics.{
  Metric, MetricCache, metric_prefix, find_metric, look_up, after_construct, create, create_counter,
  create_histogram, create_gauge,
}

-- A call of one of the factories
pub data Factory (Bucket : Type 0) : Type 0 where
  for_counter : String → String → Option (List String) → Factory Bucket
  for_histogram : String → String → List Bucket → Option (List String) → Factory Bucket
  for_gauge : String → String → Option (List String) → Factory Bucket

module _ {Bucket : Type 0} where
  abbrev pub name_of : Factory Bucket → String
  name_of (for_counter name _ _) = name
  name_of (for_histogram name _ _ _) = name
  name_of (for_gauge name _ _) = name

  find_metric-append :
      (k : String) (ms : List (Metric Bucket)) (m n : Metric Bucket)
      → find_metric k ms ≡ some m
      → find_metric k (ms ++ n ∷ []) ≡ some m
  unfolding find_metric
  find_metric-append k [] m n h = cc
  find_metric-append k (l ∷ ms) m n h = ground (arith, find_metric-append k ms m n)

  find_metric-last :
      (ms : List (Metric Bucket)) (m : Metric Bucket)
      → find_metric m.full_name ms ≡ none
      → find_metric m.full_name (ms ++ m ∷ []) ≡ some m
  unfolding find_metric
  find_metric-last [] m h = rw (eq_refl m.full_name) refl
  find_metric-last (l ∷ ms) m h = ground (arith, find_metric-last ms m)

  -- What is cached stays, whatever is created next.
  look_up-keeps :
      (construct : ℕ → Metric Bucket → Try (Unit {0})) (k : String) (m n : Metric Bucket)
      (o : Option (Metric Bucket)) (s : MetricCache Bucket)
      → find_metric k s.metrics ≡ some m
      → find_metric k (look_up construct n o s).1.metrics ≡ some m
  unfolding look_up
  look_up-keeps construct k m n (some cached) s h = h
  look_up-keeps construct k m n none s h = constructed (construct s.constructed n)
    where
      constructed : (r : Try (Unit {0})) → find_metric k (after_construct n s r).1.metrics ≡ some m
      constructed (raised e) = h
      constructed (ok _) = find_metric-append k s.metrics m n h

  returned_is_cached :
      (construct : ℕ → Metric Bucket → Try (Unit {0})) (n m : Metric Bucket)
      (o : Option (Metric Bucket)) (s : MetricCache Bucket)
      → find_metric n.full_name s.metrics ≡ o
      → (look_up construct n o s).0 ≡ ok m
      → find_metric n.full_name (look_up construct n o s).1.metrics ≡ some m
  unfolding look_up
  returned_is_cached construct n m (some cached) s e h = e ∙ cc h
  returned_is_cached construct n m none s e h = constructed (construct s.constructed n) h
    where
      constructed :
          (r : Try (Unit {0}))
          → (after_construct n s r).0 ≡ ok m
          → find_metric n.full_name (after_construct n s r).1.metrics ≡ some m
      constructed (raised x) h = cc
      constructed (ok _) h =
          let same : n ≡ m = cc h in
          subst (λ x. find_metric n.full_name (s.metrics ++ n ∷ []) ≡ some x) same
            (find_metric-last s.metrics n e)

module _ {Bucket : Type 0} (construct : ℕ → Metric Bucket → Try (Unit {0})) where
  unfoldable pub make :
      Factory Bucket → MetricCache Bucket → Try (Metric Bucket) × MetricCache Bucket
  unfolding create_counter create_histogram create_gauge
  make (for_counter name description labels) s = create_counter construct name description labels s
  make (for_histogram name description buckets labels) s =
      create_histogram construct name description buckets labels s
  make (for_gauge name description labels) s = create_gauge construct name description labels s

  unfoldable pub make_all : List (Factory Bucket) → MetricCache Bucket → MetricCache Bucket
  unfolding make
  make_all [] s = s
  make_all (f ∷ fs) s = make_all fs (make f s).1

  abbrev pub cached_as : Factory Bucket → MetricCache Bucket → Option (Metric Bucket)
  cached_as f s = find_metric (append_text metric_prefix (name_of f)) s.metrics

  pub make-keeps :
      (k : String) (m : Metric Bucket) (f : Factory Bucket) (s : MetricCache Bucket)
      → find_metric k s.metrics ≡ some m
      → find_metric k (make f s).1.metrics ≡ some m
  unfolding make create_counter create_histogram create_gauge create
  make-keeps k m (for_counter name d l) s h = look_up-keeps construct k m _ _ s h
  make-keeps k m (for_histogram name d b l) s h = look_up-keeps construct k m _ _ s h
  make-keeps k m (for_gauge name d l) s h = look_up-keeps construct k m _ _ s h

  pub make_all-keeps :
      (k : String) (m : Metric Bucket) (fs : List (Factory Bucket)) (s : MetricCache Bucket)
      → find_metric k s.metrics ≡ some m
      → find_metric k (make_all fs s).metrics ≡ some m
  unfolding make_all
  make_all-keeps k m [] s h = h
  make_all-keeps k m (f ∷ fs) s h = make_all-keeps k m fs (make f s).1 (make-keeps k m f s h)

  pub make-cached :
      (f : Factory Bucket) (m : Metric Bucket) (s : MetricCache Bucket)
      → (make f s).0 ≡ ok m
      → cached_as f (make f s).1 ≡ some m
  unfolding make create_counter create_histogram create_gauge create
  make-cached (for_counter name d l) m s h = returned_is_cached construct _ m _ s refl h
  make-cached (for_histogram name d b l) m s h = returned_is_cached construct _ m _ s refl h
  make-cached (for_gauge name d l) m s h = returned_is_cached construct _ m _ s refl h

  pub make_again :
      (g : Factory Bucket) (m : Metric Bucket) (s : MetricCache Bucket)
      → cached_as g s ≡ some m
      → make g s ≡ (ok m, s)
  unfolding make create_counter create_histogram create_gauge create look_up
  make_again (for_counter name d l) m s h = rw h refl
  make_again (for_histogram name d b l) m s h = rw h refl
  make_again (for_gauge name d l) m s h = rw h refl

  -- Once a factory has returned a metric for a name, each later call of any of the factories with
  -- that name returns the same object and constructs nothing, whatever was created meanwhile, and
  -- also if it asks for another kind of metric.
  pub same_metric :
      (f g : Factory Bucket) (between : List (Factory Bucket)) (m : Metric Bucket)
      (s : MetricCache Bucket)
      → name_of f ≡ name_of g
      → (make f s).0 ≡ ok m
      → let s' = make_all between (make f s).1 in make g s' ≡ (ok m, s')
  same_metric f g between m s same h = make_again g m (make_all between (make f s).1) (
      make_all-keeps (append_text metric_prefix (name_of g)) m between (make f s).1 (
        subst (λ name. find_metric (append_text metric_prefix name) (make f s).1.metrics ≡ some m)
          same (make-cached f m s h)))
