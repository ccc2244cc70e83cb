-- ===== src/Shared/Metrics.antt =====
-- shared/metrics.py: the started metrics servers and the cache of metrics.
pub mod Cache
pub mod Imports
pub mod Started
use Prim.Native.String
use Prim.Native.String.{◌++◌ as append_text}
use crypto_streaming_lakehou.Base.{
  ℕ, ◌+◌, String, Bool, true, false, ◌&&◌, Option, none, some, List, [], ◌∷◌, ◌++◌, text_eq, Try,
  ok, raised, if◌then◌else◌,
}
use crypto_streaming_lakehou.Base.Int.{ℤ, pos, leb_ℤ}

abbrev pub eq_ℤ : ℤ → ℤ → Bool
eq_ℤ a b = leb_ℤ a b && leb_ℤ b a

-- `_server_started`, and the ports on which start_http_server has returned, in order.
pub record Servers : Type 0 where
  pub started : List ℤ
  pub listening : List ℤ

abbrev pub has_port : ℤ → List ℤ → Bool
has_port p [] = false
has_port p (q ∷ qs) = if eq_ℤ q p then true else has_port p qs

-- `port or int(os.environ.get(env_var, default))`, where 0 counts as missing. `env` is what int
-- makes of the variable, if it is set.
unfoldable pub resolve_port : Option ℤ → Option (Try ℤ) → ℤ → Try ℤ
resolve_port none none default = ok default
resolve_port none (some value) default = value
resolve_port (some port) env default =
    if eq_ℤ port (pos 0) then elim env [ none ↦ ok default | some value ↦ value ] else ok port

after_start : ℤ → Try (Unit {0}) → Servers → Try (Unit {0}) × Servers
after_start p (raised e) s = (raised e, s)
after_start p (ok _) s =
    (ok tt, record { started = s.started ++ p ∷ []; listening = s.listening ++ p ∷ [] })

-- The rest, once the port is known; `result` is how start_http_server ends if it is called.
unfoldable pub start_on : Try ℤ → Try (Unit {0}) → Servers → Try (Unit {0}) × Servers
unfolding after_start
start_on (raised e) result s = (raised e, s)
start_on (ok p) result s = if has_port p s.started then (ok tt, s) else after_start p result s

unfoldable pub start_metrics_server :
    Option ℤ → Option (Try ℤ) → ℤ → Try (Unit {0}) → Servers → Try (Unit {0}) × Servers
unfolding start_on resolve_port
start_metrics_server port env default result s = start_on (resolve_port port env default) result s

pub data Kind : Type 0 where
  counter histogram gauge : Kind

-- A metric object; `serial` tells one object from another.
pub record Metric (Bucket : Type 0) : Type 0 where
  pub kind : Kind
  pub full_name : String
  pub description : String
  pub labels : List String
  pub buckets : List Bucket
  pub serial : ℕ

-- `_metric_cache`, whose keys are the full names, and how many constructors were called.
pub record MetricCache (Bucket : Type 0) : Type 0 where
  pub metrics : List (Metric Bucket)
  pub constructed : ℕ

abbrev pub metric_prefix : String
metric_prefix = "crypto_pipeline_"

-- `labels or []`
abbrev pub labels_or_none : Option (List String) → List String
labels_or_none none = []
labels_or_none (some labels) = labels

module _ {Bucket : Type 0} where
  unfoldable pub find_metric : String → List (Metric Bucket) → Option (Metric Bucket)
  find_metric k [] = none
  find_metric k (m ∷ ms) = if text_eq m.full_name k then some m else find_metric k ms

  after_construct :
      Metric Bucket → MetricCache Bucket → Try (Unit {0}) → Try (Metric Bucket) × MetricCache Bucket
  after_construct m s (raised e) = (raised e, record s { constructed = s.constructed + 1 })
  after_construct m s (ok _) =
      (ok m, record { metrics = s.metrics ++ m ∷ []; constructed = s.constructed + 1 })

  -- `construct i m` is how the i-th call of a constructor of prometheus_client ends, for m: it
  -- raises ValueError on a name that its own registry has.
  module _ (construct : ℕ → Metric Bucket → Try (Unit {0})) where
    look_up :
        Metric Bucket
        → Option (Metric Bucket)
        → MetricCache Bucket
        → Try (Metric Bucket) × MetricCache Bucket
    unfolding after_construct
    look_up m (some cached) s = (ok cached, s)
    look_up m none s = after_construct m s (construct s.constructed m)

    -- What the three factories have in common
    unfoldable pub create :
        Metric Bucket → MetricCache Bucket → Try (Metric Bucket) × MetricCache Bucket
    unfolding look_up find_metric
    create m s = look_up m (find_metric m.full_name s.metrics) s

    unfoldable pub create_counter :
        String
        → String
        → Option (List String)
        → MetricCache Bucket
        → Try (Metric Bucket) × MetricCache Bucket
    unfolding create
    create_counter name description labels s =
        create
          (record {
            kind = counter;
            full_name = append_text metric_prefix name;
            description = description;
            labels = labels_or_none labels;
            buckets = [];
            serial = s.constructed;
          })
          s

    unfoldable pub create_histogram :
        String
        → String
        → List Bucket
        → Option (List String)
        → MetricCache Bucket
        → Try (Metric Bucket) × MetricCache Bucket
    unfolding create
    create_histogram name description buckets labels s =
        create
          (record {
            kind = histogram;
            full_name = append_text metric_prefix name;
            description = description;
            labels = labels_or_none labels;
            buckets = buckets;
            serial = s.constructed;
          })
          s

    unfoldable pub create_gauge :
        String
        → String
        → Option (List String)
        → MetricCache Bucket
        → Try (Metric Bucket) × MetricCache Bucket
    unfolding create
    create_gauge name description labels s =
        create
          (record {
            kind = gauge;
            full_name = append_text metric_prefix name;
            description = description;
            labels = labels_or_none labels;
            buckets = [];
            serial = s.constructed;
          })
          s
