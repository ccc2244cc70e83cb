-- ===== src/Producer/Main/Ends.antt =====
-- How `main` of producer/main.py ends.
use crypto_streaming_lakehou.Base.{
  ℕ, ◌≡◌, refl, sym, ap, ◌∙◌, Bool, true, false, List, [], ◌∷◌, ◌++◌, length, none, some, Try, ok,
  raised, is_empty, Bool-cases, inl, inr,
}
use crypto_streaming_lakehou.Shared.Metrics.{Servers}
use crypto_streaming_lakehou.Producer.Trade.{TradeMessage, Pydantic}
use crypto_streaming_lakehou.Producer.Publisher.{Publisher, Confirm, Config, configure}
use crypto_streaming_lakehou.Producer.Stream.{Stream}
use crypto_streaming_lakehou.Producer.Drain.{
  Line, no_drain_needed, timeout, complete, drain_retry_queue,
}
use crypto_streaming_lakehou.Producer.Drain.Timeout.{Sleeps, drain_retry_queue_times_out}
use crypto_streaming_lakehou.Producer.Reconnect.{End, running, shutdown, gave_up, crashed}
use crypto_streaming_lakehou.Producer.Main.{
  Setup, finished, start_metrics_server, client_url, close_connection, and_close, fresh_stream,
  wind_down, after_stream, run_stream, with_publisher, with_metrics, main,
}

true≢false : true ≡ false → ⊥
true≢false h = cc

-- How the streaming loop ends, as an outcome: it returns after a shutdown or when it gives up.
abbrev pub outcome_of : End → Try (Unit {0})
outcome_of running = ok tt
outcome_of shutdown = ok tt
outcome_of gave_up = ok tt
outcome_of (crashed e) = raised e

abbrev pub is_running : End → Bool
is_running running = true
is_running _ = false

module _ {Bytes : Type 0} where
  -- The lines of a drain that found these messages: it says that none is held, or it waits until
  -- its timeout and they are all still held.
  abbrev pub Drained : Publisher Bytes → List Line → Type 0
  Drained p lines =
      (is_empty p.retry_queue ≡ true → lines ≡ no_drain_needed ∷ [])
      × (is_empty p.retry_queue ≡ false
          → (before : List Line) × (lines
              ≡ before ++ timeout (length p.retry_queue) ∷ complete ∷ []))

  nothing_to_drain :
      (clock : ℕ → ℕ) (p : Publisher Bytes)
      → is_empty p.retry_queue ≡ true
      → drain_retry_queue clock (λ _. p) ≡ some (no_drain_needed ∷ [])
  unfolding drain_retry_queue
  nothing_to_drain clock p e = rw e refl

  drain-Drained :
      (clock : ℕ → ℕ) (p : Publisher Bytes)
      → Sleeps clock
      → (lines : List Line) × (drain_retry_queue clock (λ _. p) ≡ some lines) × Drained p lines
  drain-Drained clock p s = elim (Bool-cases (is_empty p.retry_queue)) [
    | inl e ↦ (
      no_drain_needed ∷ [],
      nothing_to_drain clock p e,
      ((λ _. refl), (λ h. absurd (true≢false (sym e ∙ h)))),
    )
    | inr e ↦
        let (before, h) = drain_retry_queue_times_out clock p s e in
        (
          before ++ timeout (length p.retry_queue) ∷ complete ∷ [],
          h,
          ((λ k. absurd (true≢false (sym k ∙ e))), (λ _. (before, refl))),
        )
  ]

  wind_down-Drained :
      (setup : Setup) (outcome : Try (Unit {0})) (s : Stream Bytes)
      → Sleeps setup.clock
      → (lines : List Line) × (wind_down setup outcome s
          ≡ finished
              (and_close outcome (close_connection setup.is_open setup.close))
              (some lines)
              s)
        × Drained s.publisher lines
  unfolding wind_down
  wind_down-Drained setup outcome s sleeps =
      let (lines, e, drained) = drain-Drained setup.clock s.publisher sleeps in
      (
        lines,
        ap (λ l. finished (and_close outcome (close_connection setup.is_open setup.close)) l s) e,
        drained,
      )

  after_stream-Drained :
      (setup : Setup) (r : End × Stream Bytes)
      → is_running r.0 ≡ false
      → Sleeps setup.clock
      → (lines : List Line) × (after_stream setup r
          ≡ finished
              (and_close (outcome_of r.0) (close_connection setup.is_open setup.close))
              (some lines)
              r.1)
        × Drained r.1.publisher lines
  after_stream-Drained setup (running, s) h sleeps = absurd (true≢false h)
  after_stream-Drained setup (shutdown, s) h sleeps = wind_down-Drained setup (ok tt) s sleeps
  after_stream-Drained setup (gave_up, s) h sleeps = wind_down-Drained setup (ok tt) s sleeps
  after_stream-Drained setup (crashed e, s) h sleeps = wind_down-Drained setup (raised e) s sleeps

module _ {Bytes : Type 0} (pydantic : Pydantic) (dump : TradeMessage → Bytes)
    (broker : ℕ → Confirm) where
  -- Once the metrics server and the connection to RabbitMQ are up, every end of the streaming loop
  -- is followed by the drain and by the closing of the connection: `main` returns, or raises what
  -- left the loop or the closing. The drain ends: it says that nothing is held, or it waits for its
  -- timeout and leaves every held message behind.
  pub main_ends :
      (setup : Setup) (servers listening : Servers) (config : Config)
      → start_metrics_server setup.metrics_port setup.serve servers ≡ (ok tt, listening)
      → configure setup.amqp_url setup.exchange setup.routing_key setup.amqp_url setup.exchange
          setup.routing_key
        ≡ ok config
      → setup.connect ≡ ok tt
      → Sleeps setup.clock
      → let r =
          run_stream pydantic dump broker
            (client_url none setup.websocket_url)
            setup.rounds
            fresh_stream in
        is_running r.0 ≡ false
        → (lines : List Line) × (main pydantic dump broker setup servers ≡ (
          finished
              (and_close (outcome_of r.0) (close_connection setup.is_open setup.close))
              (some lines)
              r.1,
          listening,
        ))
          × Drained r.1.publisher lines
  unfolding main
  main_ends setup servers listening config served configured connected sleeps ended =
      let r =
        run_stream pydantic dump broker (client_url none setup.websocket_url) setup.rounds
          fresh_stream in
      let (lines, e, drained) = after_stream-Drained setup r ended sleeps in
      (
        lines,
        ap (λ m. with_metrics pydantic dump broker m setup) served
            ∙ ap (λ c. (with_publisher pydantic dump broker c setup.connect setup, listening))
                configured
            ∙ ap (λ c. (with_publisher pydantic dump broker (ok config) c setup, listening))
                connected
            ∙ ap (λ m. (m, listening)) e,
        drained,
      )
