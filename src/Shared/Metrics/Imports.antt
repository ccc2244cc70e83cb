-- ===== src/Shared/Metrics/Imports.antt =====
-- The metrics that a module creates with the factories of shared/metrics.py when it is imported.
use crypto_streaming_lakehou.Base.{
  ℕ, ◌≡◌, refl, ap, ◌∙◌, sym, subst, List, [], ◌∷◌, some, Try, ok, raised, String,
}
use crypto_streaming_lakehou.Shared.Metrics.{Metric, MetricCache, find_metric}
use crypto_streaming_lakehou.Shared.Metrics.Cache.{
  Factory, make, make_all, cached_as, make-keeps, make_all-keeps, make-cached, make_again,
}

abbrev pub Made : Type 0 → Type 0
Made Bucket = Try (List (Metric Bucket)) × MetricCache Bucket

module _ {Bucket : Type 0} where
  after_make : Try (Metric Bucket) → MetricCache Bucket → Made Bucket → Made Bucket
  after_make (raised e) s rest = (raised e, s)
  after_make (ok m) s (raised e, t) = (raised e, t)
  after_make (ok m) s (ok ms, t) = (ok (m ∷ ms), t)

  -- What a result tells of the call that came first and of the others
  record IsMade (first : Try (Metric Bucket)) (rest : Made Bucket) (ms : List (Metric Bucket))
      (r : Made Bucket) : Type 0 where
    head : Metric Bucket
    tail : List (Metric Bucket)
    made : first ≡ ok head
    others : rest.0 ≡ ok tail
    both : ms ≡ head ∷ tail
    cache : r.1 ≡ rest.1

  after_make-IsMade :
      (first : Try (Metric Bucket)) (s : MetricCache Bucket) (rest : Made Bucket)
      (ms : List (Metric Bucket))
      → (after_make first s rest).0 ≡ ok ms
      → IsMade first rest ms (after_make first s rest)
  unfolding after_make
  after_make-IsMade (raised e) s rest ms h = cc
  after_make-IsMade (ok m) s (raised e, t) ms h = cc
  after_make-IsMade (ok m) s (ok l, t) ms h = record {
    head = m;
    tail = l;
    made = refl;
    others = refl;
    both = cc h;
    cache = refl;
  }

  after_make-keeps :
      (k : String) (m : Metric Bucket) (first : Try (Metric Bucket)) (s : MetricCache Bucket)
      (rest : Made Bucket)
      → find_metric k s.metrics ≡ some m
      → find_metric k rest.1.metrics ≡ some m
      → find_metric k (after_make first s rest).1.metrics ≡ some m
  unfolding after_make
  after_make-keeps k m (raised e) s rest h i = h
  after_make-keeps k m (ok n) s (raised e, t) h i = i
  after_make-keeps k m (ok n) s (ok l, t) h i = i

  module _ (construct : ℕ → Metric Bucket → Try (Unit {0})) where
    -- The calls of the factories, one after the other, with what they return; an exception ends the
    -- import. A call that returned has put its metric into the cache, where it stays.
    unfoldable pub make_each : List (Factory Bucket) → MetricCache Bucket → Made Bucket
    unfolding make after_make
    make_each [] s = (ok [], s)
    make_each (f ∷ fs) s =
        let made = make construct f s in
        let rest = make_each fs made.1 in after_make made.0 made.1 rest

    make_each-keeps :
        (k : String) (m : Metric Bucket) (fs : List (Factory Bucket)) (s : MetricCache Bucket)
        → find_metric k s.metrics ≡ some m
        → find_metric k (make_each fs s).1.metrics ≡ some m
    unfolding make_each
    make_each-keeps k m [] s h = h
    make_each-keeps k m (f ∷ fs) s h =
        let first = make-keeps construct k m f s h in
        after_make-keeps k m (make construct f s).0 (make construct f s).1 _ first
          (make_each-keeps k m fs (make construct f s).1 first)

    make_each-cons :
        (f : Factory Bucket) (fs : List (Factory Bucket)) (m : Metric Bucket)
        (ms : List (Metric Bucket)) (s : MetricCache Bucket)
        → make construct f s ≡ (ok m, s)
        → make_each fs s ≡ (ok ms, s)
        → make_each (f ∷ fs) s ≡ (ok (m ∷ ms), s)
    unfolding make_each after_make
    make_each-cons f fs m ms s h i =
        ap (λ x. after_make x.0 x.1 (make_each fs x.1)) h ∙ ap (after_make (ok m) s) i

    found_again :
        (f : Factory Bucket) (fs between : List (Factory Bucket)) (ms : List (Metric Bucket))
        (s : MetricCache Bucket) (r : Made Bucket)
        → (x : IsMade (make construct f s).0 (make_each fs (make construct f s).1) ms r)
        → cached_as construct f (make_all construct between r.1) ≡ some x.head
    found_again f fs between ms s r x = make_all-keeps construct _ x.head between r.1 (
        subst (λ t. cached_as construct f t ≡ some x.head) (sym x.cache)
          (make_each-keeps _ x.head fs (make construct f s).1
            (make-cached construct f x.head s x.made)))

    -- A module that has been imported without an exception finds the same metrics when it is
    -- executed again, in the same order, and constructs none, whatever was created meanwhile.
    pub make_each_again :
        (fs between : List (Factory Bucket)) (ms : List (Metric Bucket)) (s : MetricCache Bucket)
        → (make_each fs s).0 ≡ ok ms
        → let s' = make_all construct between (make_each fs s).1 in make_each fs s' ≡ (ok ms, s')
    unfolding make_each
    make_each_again [] between ms s h = ap (λ r. (r, make_all construct between s)) h
    make_each_again (f ∷ fs) between ms s h =
        let x =
          after_make-IsMade (make construct f s).0 (make construct f s).1
            (make_each fs (make construct f s).1) ms h in
        let now = make_all construct between (make_each (f ∷ fs) s).1 in
        make_each-cons f fs x.head x.tail now
          (make_again construct f x.head now (found_again f fs between ms s _ x))
          (subst
            (λ t.
              make_each fs (make_all construct between t)
              ≡ (ok x.tail, make_all construct between t))
            (sym x.cache) (make_each_again fs between x.tail (make construct f s).1 x.others))
        ∙ ap (λ l. (ok l, now)) (sym x.both)
