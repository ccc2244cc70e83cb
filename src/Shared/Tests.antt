-- ===== src/Shared/Tests.antt =====
-- Runs of shared/metrics.py.
use crypto_streaming_lakehou.Base.{
  ℕ, String, All, ◌≡◌, refl, ap, List, Option, none, some, [], ◌∷◌, Try, ok,
}
use crypto_streaming_lakehou.Base.Int.{ℤ, pos}
use crypto_streaming_lakehou.Shared.Logger.{set_up, get_logger}
use crypto_streaming_lakehou.Shared.Logger.Configured.{
  get_each, IsConfigured, get_each-IsConfigured,
}
use crypto_streaming_lakehou.Shared.Metrics.{
  Servers, counter, histogram, gauge, Metric, MetricCache, find_metric, create, create_counter,
  create_histogram, create_gauge,
}
use crypto_streaming_lakehou.Shared.Metrics.Started.{
  StartCall, start_all, ListensOnce, start_all-ListensOnce,
}
use crypto_streaming_lakehou.Shared.Metrics.Imports.{make_each, make_each_again}
use crypto_streaming_lakehou.Consumer.Metrics.{
  consumer_metrics, import_metrics as import_in_consumer,
}
use crypto_streaming_lakehou.Producer.Metrics.{
  producer_metrics, import_metrics as import_in_producer,
}
use crypto_streaming_lakehou.Shared.Metrics.Cache.{
  for_counter, for_gauge, make, make_all, same_metric,
}

abbrev on_port : Option ℤ → StartCall
on_port port = record { port = port; env = none; default = pos 8000; result = ok tt }

abbrev nothing_started : Servers
nothing_started = record { started = []; listening = [] }

start_all-ListensOnce_example : ListensOnce (
    start_all
      (on_port (some (pos 8001)) ∷ on_port none ∷ on_port (some (pos 0)) ∷ [])
      nothing_started)
start_all-ListensOnce_example =
    start_all-ListensOnce (on_port (some (pos 8001)) ∷ on_port none ∷ on_port (some (pos 0)) ∷ [])
      nothing_started (record { in_step = refl; once = tt })

-- A registry that takes every metric
abbrev takes_all : ℕ → Metric ℕ → Try (Unit {0})
takes_all i m = ok tt

abbrev no_metrics : MetricCache ℕ
no_metrics = record { metrics = []; constructed = 0 }

abbrev depth : Metric ℕ
depth = record {
  kind = counter;
  full_name = "crypto_pipeline_depth";
  description = "counts";
  labels = [];
  buckets = [];
  serial = 0;
}

counts_depth : (make takes_all (for_counter "depth" "counts" none) no_metrics).0 ≡ ok depth
unfolding make create_counter create find_metric
counts_depth = refl

same_metric_example :
    let s' =
      make_all takes_all
        (for_gauge "other" "another" none ∷ [])
        (make takes_all (for_counter "depth" "counts" none) no_metrics).1 in
    make takes_all (for_gauge "depth" "a gauge" none) s' ≡ (ok depth, s')
same_metric_example =
    same_metric takes_all (for_counter "depth" "counts" none) (for_gauge "depth" "a gauge" none)
      (for_gauge "other" "another" none ∷ []) depth no_metrics refl counts_depth

-- Two modules ask for the same logger.
two_services :
    get_each ("airflow" ∷ "producer" ∷ "airflow" ∷ []) []
    ≡ get_each ("airflow" ∷ "producer" ∷ []) []
unfolding get_each get_logger set_up
two_services = refl

get_each-IsConfigured_instance :
    let after = get_each ("airflow" ∷ "producer" ∷ "airflow" ∷ []) [] in
    All IsConfigured after
    × ((service : String)
        → get_logger service (get_logger service after) ≡ get_logger service after)
get_each-IsConfigured_instance =
    get_each-IsConfigured ("airflow" ∷ "producer" ∷ "airflow" ∷ []) [] tt

abbrev consumer_objects : List (Metric ℕ)
consumer_objects =
    record {
      kind = histogram;
      full_name = "crypto_pipeline_consumer_processing_duration_seconds";
      description = "Time spent processing a message from receipt to ACK or NACK";
      labels = [];
      buckets = 1 ∷ 5 ∷ 10 ∷ 25 ∷ 50 ∷ 100 ∷ [];
      serial = 0;
    }
    ∷ record {
      kind = counter;
      full_name = "crypto_pipeline_duplicates_skipped_total";
      description =
          "Total number of duplicate trade inserts silently skipped by ON CONFLICT DO NOTHING";
      labels = [];
      buckets = [];
      serial = 1;
    }
    ∷ record {
      kind = gauge;
      full_name = "crypto_pipeline_rabbitmq_queue_depth";
      description = "Current number of messages waiting in the RabbitMQ trade queue";
      labels = [];
      buckets = [];
      serial = 2;
    }
    ∷ []

-- The three metrics of the consumer are three objects.
consumer_imported :
    import_in_consumer takes_all no_metrics
    ≡ (ok consumer_objects, record { metrics = consumer_objects; constructed = 3 })
unfolding import_in_consumer make_each make create_counter create_histogram create_gauge create
    find_metric
consumer_imported = refl

-- No name of the producer's metrics is one of the consumer's.
producer_after_consumer :
    (import_in_producer takes_all (import_in_consumer takes_all no_metrics).1).1.constructed ≡ 6
unfolding import_in_producer import_in_consumer make_each make create_counter create_histogram
    create_gauge create find_metric
producer_after_consumer = refl

make_each_again_instance :
    let s' =
      make_all takes_all producer_metrics (make_each takes_all consumer_metrics no_metrics).1 in
    make_each takes_all consumer_metrics s' ≡ (ok consumer_objects, s')
unfolding import_in_consumer
make_each_again_instance =
    make_each_again takes_all consumer_metrics producer_metrics consumer_objects no_metrics
      (ap (λ r. r.0) consumer_imported)
