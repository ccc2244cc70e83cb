-- ===== src/Consumer/Service/Signals.antt =====
-- SIGTERM and SIGINT in consumer/main.py.
use crypto_streaming_lakehou.Base.{◌≡◌, refl, ap, ap₂, List, [], ◌∷◌, ◌++◌, Try, ok, raised}
use crypto_streaming_lakehou.Base.Json.{Json}
use crypto_streaming_lakehou.Consumer.Threads.{Shared}
use crypto_streaming_lakehou.Consumer.Worker.{on_message}
use crypto_streaming_lakehou.Consumer.Service.{
  Event, signal, time_out, fire_if_pending, deliver, Service, buffered_insert, handle_shutdown,
  handle, unless_raised, consume,
}

module _ {Bytes : Type 0} (loads : Bytes → Try Json) where
  -- The events with no signal among them.
  abbrev pub without_signals : List (Event Bytes) → List (Event Bytes)
  without_signals [] = []
  without_signals (signal ∷ rest) = without_signals rest
  without_signals (time_out success ∷ rest) = time_out success ∷ without_signals rest
  without_signals (deliver m success ∷ rest) = deliver m success ∷ without_signals rest

  -- Two services that differ in the shutdown flag alone
  abbrev SameWork : Try (Unit {0}) × Service → Try (Unit {0}) × Service → Type 0
  SameWork (res, s) (res', s') = (res ≡ res') × (s.shared ≡ s'.shared) × (s.effects ≡ s'.effects)

  unless_raised-SameWork :
      (r r' : Try (Unit {0}) × Service) (next next' : Service → Try (Unit {0}) × Service)
      → SameWork r r'
      → ((s s' : Service)
          → s.shared ≡ s'.shared
          → s.effects ≡ s'.effects
          → SameWork (next s) (next' s'))
      → SameWork (unless_raised r next) (unless_raised r' next')
  unless_raised-SameWork (ok u, s) (ok v, s') next next' w k = k s s' w.1 w.2
  unless_raised-SameWork (ok u, s) (raised x, s') next next' w k = cc (w.0)
  unless_raised-SameWork (raised x, s) (ok v, s') next next' w k = cc (w.0)
  unless_raised-SameWork (raised x, s) (raised y, s') next next' w k = w

  -- A signal changes nothing but the flag, which the worker never reads: the deliveries around it
  -- are handled, settled and buffered as they would be without it, from a service that differs in
  -- the flag at most, so it does not start the shutdown.
  pub consume-without_signals :
      (events : List (Event Bytes)) (s s' : Service)
      → s.shared ≡ s'.shared
      → s.effects ≡ s'.effects
      → let (res, after) = consume loads events s in
        let (res', after') = consume loads (without_signals events) s' in
        (res ≡ res') × (after.shared ≡ after'.shared) × (after.effects ≡ after'.effects)
  unfolding consume handle
  consume-without_signals [] s s' p q = (refl, p, q)
  consume-without_signals (signal ∷ rest) s s' p q =
      consume-without_signals rest (handle_shutdown s) s' p q
  consume-without_signals (time_out success ∷ rest) s s' p q =
      consume-without_signals rest (handle loads (time_out success) s).1
        (handle loads (time_out success) s').1
        (ap (λ t. fire_if_pending success t.object.timer t) p) q
  consume-without_signals (deliver m success ∷ rest) s s' p q =
      let r = λ (t : Shared Json). on_message loads (buffered_insert success) m t in
      unless_raised-SameWork (handle loads (deliver m success) s)
        (handle loads (deliver m success) s') _ _
        (ap (λ t. (r t).0.outcome) p, ap (λ t. (r t).1) p, ap₂ (λ l t. l ++ (r t).0.effects) q p)
        (consume-without_signals rest)
