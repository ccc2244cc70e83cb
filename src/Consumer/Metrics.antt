-- ===== src/Consumer/Metrics.antt =====
-- The metrics of consumer/metrics.py.
use crypto_streaming_lakehou.Base.{ℕ, Try, none, List, [], ◌∷◌}
use crypto_streaming_lakehou.Shared.Metrics.{Metric, MetricCache}
use crypto_streaming_lakehou.Shared.Metrics.Cache.{Factory, for_counter, for_histogram, for_gauge}
use crypto_streaming_lakehou.Shared.Metrics.Imports.{Made, make_each}

-- The bounds of the buckets are hundredths of a second.
abbrev pub processing_duration : Factory ℕ
processing_duration =
    for_histogram "consumer_processing_duration_seconds"
      "Time spent processing a message from receipt to ACK or NACK"
      (1 ∷ 5 ∷ 10 ∷ 25 ∷ 50 ∷ 100 ∷ []) none

abbrev pub duplicates_skipped_total : Factory ℕ
duplicates_skipped_total =
    for_counter "duplicates_skipped_total"
      "Total number of duplicate trade inserts silently skipped by ON CONFLICT DO NOTHING" none

abbrev pub rabbitmq_queue_depth : Factory ℕ
rabbitmq_queue_depth =
    for_gauge "rabbitmq_queue_depth"
      "Current number of messages waiting in the RabbitMQ trade queue" none

abbrev pub consumer_metrics : List (Factory ℕ)
consumer_metrics = processing_duration ∷ duplicates_skipped_total ∷ rabbitmq_queue_depth ∷ []

-- The import of the module, whose results are its three attributes in this order
unfoldable pub import_metrics : (ℕ → Metric ℕ → Try (Unit {0})) → MetricCache ℕ → Made ℕ
unfolding make_each
import_metrics construct s = make_each construct consumer_metrics s
