-- ===== src/Producer/Reconnect/Shutdown.antt =====
-- What a signal does to the `while` loop of producer/main.py.
use crypto_streaming_lakehou.Base.{
  ℕ, ◌≡◌, refl, sym, subst, ap, ◌∙◌, Bool, true, false, List, [], ◌∷◌, ◌++◌, Try, ok, raised, arith,
  if◌then◌else◌, Option,
}
use crypto_streaming_lakehou.Base.Json.{Json, get}
use crypto_streaming_lakehou.Producer.Trade.{TradeMessage, Pydantic}
use crypto_streaming_lakehou.Producer.Publisher.{Confirm}
use crypto_streaming_lakehou.Producer.Stream.{Stream, and_then, handle_shutdown, process_message}
use crypto_streaming_lakehou.Producer.Reconnect.{
  Input, signal, not_json, unreadable, message, Round, shutdown, yielded, after_debug, listen,
  after_signal, connect_and_listen, reconnect, stream,
}

module _ {Bytes : Type 0} (pydantic : Pydantic) (dump : TradeMessage → Bytes)
    (broker : ℕ → Confirm) where
  debug_stops :
      (v : Json) (o : Try (Option Json)) (next : Stream Bytes → Try (Unit {0}) × Stream Bytes)
      (s : Stream Bytes)
      → s.shutdown_requested ≡ true
      → (after_debug pydantic dump broker v o next s).1 ≡ s
  unfolding after_debug yielded
  debug_stops v (ok o) next s h = rw h refl
  debug_stops v (raised e) next s h = refl

  flag_again : (s : Stream Bytes) → s.shutdown_requested ≡ true → handle_shutdown s ≡ s
  unfolding handle_shutdown
  flag_again s h = ap (λ b. record s { shutdown_requested = b }) (sym h)

  -- Once shutdown is requested, the rest of a connection's inputs changes nothing.
  pub listen_stopped :
      (close : Try (Unit {0})) (inputs : List Input) (s : Stream Bytes)
      → s.shutdown_requested ≡ true
      → (listen pydantic dump broker close inputs s).1 ≡ s
  unfolding listen handle_shutdown
  listen_stopped close [] s h = refl
  listen_stopped close (signal ∷ inputs) s h =
      listen_stopped close inputs (handle_shutdown s) refl ∙ flag_again s h
  listen_stopped close (not_json ∷ inputs) s h = listen_stopped close inputs s h
  listen_stopped close (unreadable e ∷ inputs) s h = refl
  listen_stopped close (message v ∷ inputs) s h =
      debug_stops v (get "type" v) (listen pydantic dump broker close inputs) s h

  flagged : (b : Bool) (s : Stream Bytes) → s.shutdown_requested ≡ true → after_signal b s ≡ s
  flagged true s h = flag_again s h
  flagged false s h = refl

  stream_stopped :
      (rounds : List Round) (s : Stream Bytes)
      → s.shutdown_requested ≡ true
      → stream pydantic dump broker rounds s ≡ (shutdown, s)
  unfolding stream
  stream_stopped [] s h = ground arith
  stream_stopped (c ∷ rounds) s h = ground (arith, flagged c.signal_before s h)

  reconnect_stopped :
      (x : Try (Unit {0}) × Stream Bytes) (rounds : List Round) (s : Stream Bytes)
      → x.1 ≡ s
      → s.shutdown_requested ≡ true
      → reconnect pydantic dump broker x (stream pydantic dump broker rounds) ≡ (shutdown, s)
  unfolding reconnect
  reconnect_stopped (ok _, t) rounds s e h =
      subst (λ u. stream pydantic dump broker rounds u ≡ (shutdown, s)) (sym e)
        (stream_stopped rounds s h)
  reconnect_stopped (raised x, t) rounds s e h = ground arith

  yielded_then_signal :
      (v : Json) (next next' : Stream Bytes → Try (Unit {0}) × Stream Bytes) (s t : Stream Bytes)
      → ((u : Stream Bytes) → next u ≡ (ok tt, t) → (next' u).1 ≡ handle_shutdown t)
      → (b : Bool) → s.shutdown_requested ≡ b
      → (r : Try (Unit {0}) × Stream Bytes)
      → (if b then (ok tt, s) else and_then r next) ≡ (ok tt, t)
      → (if b then (ok tt, s) else and_then r next').1 ≡ handle_shutdown t
  yielded_then_signal v next next' s t ih true flag r h =
      sym (flag_again s flag) ∙ ap handle_shutdown (ap (λ x. x.1) h)
  yielded_then_signal v next next' s t ih false flag (ok _, u) h = ih u h
  yielded_then_signal v next next' s t ih false flag (raised e, u) h = cc

  debug_then_signal :
      (v : Json) (o : Try (Option Json)) (next next' : Stream Bytes → Try (Unit {0}) × Stream Bytes)
      (s t : Stream Bytes)
      → ((u : Stream Bytes) → next u ≡ (ok tt, t) → (next' u).1 ≡ handle_shutdown t)
      → after_debug pydantic dump broker v o next s ≡ (ok tt, t)
      → (after_debug pydantic dump broker v o next' s).1 ≡ handle_shutdown t
  unfolding after_debug yielded
  debug_then_signal v (ok o) next next' s t ih h =
      yielded_then_signal v next next' s t ih s.shutdown_requested refl
        (process_message pydantic dump broker v s) h
  debug_then_signal v (raised e) next next' s t ih h = cc

  listen_then_signal :
      (close : Try (Unit {0})) (before after : List Input) (s t : Stream Bytes)
      → listen pydantic dump broker (ok tt) before s ≡ (ok tt, t)
      → (listen pydantic dump broker close (before ++ signal ∷ after) s).1 ≡ handle_shutdown t
  unfolding listen handle_shutdown
  listen_then_signal close [] after s t h =
      listen_stopped close after (handle_shutdown s) refl ∙ ap (λ x. handle_shutdown x.1) h
  listen_then_signal close (signal ∷ before) after s t h =
      listen_then_signal close before after (handle_shutdown s) t h
  listen_then_signal close (not_json ∷ before) after s t h =
      listen_then_signal close before after s t h
  listen_then_signal close (unreadable e ∷ before) after s t h = cc
  listen_then_signal close (message v ∷ before) after s t h =
      debug_then_signal v (get "type" v) (listen pydantic dump broker (ok tt) before)
        (listen pydantic dump broker close (before ++ signal ∷ after)) s t
        (λ u. listen_then_signal close before after u t) h

  opened :
      (c : Round) (s : Stream Bytes)
      → c.signal_connecting ≡ false
      → c.connect ≡ ok tt
      → c.subscribe ≡ ok tt
      → connect_and_listen pydantic dump broker c s
        ≡ listen pydantic dump broker c.close c.inputs (record s { attempt = 0 })
  unfolding connect_and_listen
  opened c s quiet connected subscribed = rw (quiet, connected, subscribed) refl

  tried :
      (c : Round) (rounds : List Round) (s : Stream Bytes)
      → s.shutdown_requested ≡ false
      → c.signal_before ≡ false
      → stream pydantic dump broker (c ∷ rounds) s
        ≡ reconnect pydantic dump broker
            (connect_and_listen pydantic dump broker c s)
            (stream pydantic dump broker rounds)
  unfolding stream
  tried c rounds s up quiet = ground arith

  -- A signal that comes while the inputs of a connection are read, the first one, ends the loop
  -- with that connection, whatever follows: what the inputs before it did stands, the flag is set,
  -- and nothing else happens. Connecting and subscribing returned, and the inputs before the
  -- signal did not raise.
  pub stream_shuts_down :
      (before after : List Input) (c : Round) (rounds : List Round) (s t : Stream Bytes)
      → s.shutdown_requested ≡ false
      → c.signal_before ≡ false
      → c.signal_connecting ≡ false
      → c.connect ≡ ok tt
      → c.subscribe ≡ ok tt
      → c.inputs ≡ before ++ signal ∷ after
      → listen pydantic dump broker (ok tt) before (record s { attempt = 0 }) ≡ (ok tt, t)
      → stream pydantic dump broker (c ∷ rounds) s ≡ (shutdown, handle_shutdown t)
  unfolding handle_shutdown
  stream_shuts_down before after c rounds s t up quiet quiet' connected subscribed e h =
      tried c rounds s up quiet
      ∙ reconnect_stopped (connect_and_listen pydantic dump broker c s) rounds (handle_shutdown t)
          (ap (λ x. x.1) (opened c s quiet' connected subscribed)
            ∙ rw e (listen_then_signal c.close before after (record s { attempt = 0 }) t h))
          refl
