-- ===== src/Producer/Metrics.antt =====
-- The metrics of producer/metrics.py.
use crypto_streaming_lakehou.Base.{ℕ, Try, none, List, [], ◌∷◌}
use crypto_streaming_lakehou.Shared.Metrics.{Metric, MetricCache}
use crypto_streaming_lakehou.Shared.Metrics.Cache.{Factory, for_counter}
use crypto_streaming_lakehou.Shared.Metrics.Imports.{Made, make_each}

abbrev pub messages_received_total : Factory ℕ
messages_received_total =
    for_counter "messages_received_total"
      "Total number of messages received from the Coinbase WebSocket" none

abbrev pub messages_valid_total : Factory ℕ
messages_valid_total =
    for_counter "messages_valid_total"
      "Total number of messages that passed TradeMessage validation" none

abbrev pub messages_invalid_total : Factory ℕ
messages_invalid_total =
    for_counter "messages_invalid_total"
      "Total number of messages that failed TradeMessage validation" none

abbrev pub producer_metrics : List (Factory ℕ)
producer_metrics = messages_received_total ∷ messages_valid_total ∷ messages_invalid_total ∷ []

-- The import of the module, whose results are its three attributes in this order
unfoldable pub import_metrics : (ℕ → Metric ℕ → Try (Unit {0})) → MetricCache ℕ → Made ℕ
unfolding make_each
import_metrics construct s = make_each construct producer_metrics s
