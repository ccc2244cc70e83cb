-- ===== src/Consumer/Main/Ends.antt =====
-- How `main` of consumer/main.py ends.
use crypto_streaming_lakehou.Base.{
  ◌≡◌, refl, ap, ◌∙◌, Bool, true, Option, none, some, List, [], ◌∷◌, Try, ok, if◌then◌else◌, inl,
  inr, Bool-cases, arith, ℕ,
}
use crypto_streaming_lakehou.Base.Json.{Json}
use crypto_streaming_lakehou.Shared.Metrics.{Servers}
use crypto_streaming_lakehou.Consumer.Threads.{Shared}
use crypto_streaming_lakehou.Consumer.Buffer.{
  Timer, pending, fired, stopped, skips_flush, wants_flush, append,
}
use crypto_streaming_lakehou.Consumer.Threads.Sequential.{flush, add_message, flush-in_order}
use crypto_streaming_lakehou.Consumer.Worker.Settlement.{
  settlements, object_of, store, on_message_settles,
}
use crypto_streaming_lakehou.Consumer.Service.{
  Event, signal, time_out, deliver, Service, all_of, fire_if_pending, buffered_insert, handle,
  consume, shut_down,
}
use crypto_streaming_lakehou.Consumer.Service.Shutdown.{shut_down_lem}
use crypto_streaming_lakehou.Consumer.Service.Deliveries.{
  messages, settled, ChannelWorks, ChannelWorks-head, consume-cons, consume-HandlesWell,
}
use crypto_streaming_lakehou.Consumer.Main.{
  Setup, finished, start_metrics_server, prepare, fresh_service, close_both, close_worker,
  wind_down, then_pika, prepared, with_metrics, main, start,
}

pub flush-flushing :
    {M : Type 0} (success : Bool) (s : Shared M)
    → (flush success s).object.flushing ≡ s.object.flushing
unfolding flush skips_flush
flush-flushing success s = ground (arith)

add_message-flushing :
    {M : Type 0} (success : Bool) (m : M) (s : Shared M)
    → (add_message success m s).object.flushing ≡ s.object.flushing
unfolding add_message append
add_message-flushing success m s = elim (Bool-cases (wants_flush m s.object)) [
  | inl e ↦ rw e (unfold append in flush-flushing success _)
  | inr e ↦ rw e refl
]

fire-flushing :
    (success : Bool) (t : Timer) (s : Shared Json)
    → (fire_if_pending success t s).object.flushing ≡ s.object.flushing
unfolding fire_if_pending
fire-flushing success pending s = flush-flushing success _
fire-flushing success stopped s = refl
fire-flushing success fired s = refl

stored_all : (kept : Bool) (s : Service) → all_of (shut_down kept s).shared ≡ all_of s.shared
unfolding shut_down
stored_all kept s = flush-in_order kept s.shared

module _ {Bytes : Type 0} (loads : Bytes → Try Json) where
  store-flushing :
      (success : Bool) (o : Option Json) (s : Shared Json)
      → (store loads (buffered_insert success) o s).1.object.flushing ≡ s.object.flushing
  unfolding buffered_insert
  store-flushing success none s = refl
  store-flushing success (some m) s = add_message-flushing success m s

  handle-flushing :
      (e : Event Bytes) (s : Service)
      → ChannelWorks loads (e ∷ [])
      → (handle loads e s).1.shared.object.flushing ≡ s.shared.object.flushing
  unfolding handle
  handle-flushing signal s w = refl
  handle-flushing (time_out success) s w = fire-flushing success s.shared.object.timer s.shared
  handle-flushing (deliver m success) s w =
      let (sent, next, done) =
        on_message_settles loads (buffered_insert success) m s.shared w.0 w.1 in
      ap (λ x. x.object.flushing) next ∙ store-flushing success (object_of (loads m.body)) s.shared

  handled :
      (e : Event Bytes) (s : Service) → ChannelWorks loads (e ∷ []) → (handle loads e s).0 ≡ ok tt
  unfolding handle
  handled signal s w = refl
  handled (time_out success) s w = refl
  handled (deliver m success) s w =
      (on_message_settles loads (buffered_insert success) m s.shared w.0 w.1).2

  consume-flushing :
      (events : List (Event Bytes)) (s : Service)
      → ChannelWorks loads events
      → (consume loads events s).1.shared.object.flushing ≡ s.shared.object.flushing
  unfolding consume
  consume-flushing [] s w = refl
  consume-flushing (e ∷ rest) s w =
      let (one, others) = ChannelWorks-head loads e rest w in
      rw (consume-cons loads e rest s (handled e s one))
        (consume-flushing rest (handle loads e s).1 others ∙ handle-flushing e s one)

  -- What the process has done with these events: it has settled each delivery, and the messages
  -- are, in order, those stored and those left in the buffer, which is empty if the last insert
  -- went through.
  pub record Accounts (setup : Setup) (events : List (Event Bytes)) (s : Service) : Type 0 where
    pub settles : settlements s.effects ≡ settled loads events
    pub accounted : all_of s.shared ≡ messages loads events
    pub stored : setup.last_insert ≡ true → s.shared.stored ≡ messages loads events
    pub timer : s.shared.object.timer ≡ stopped

  shut_down-Accounts :
      (setup : Setup) (events : List (Event Bytes)) (size : ℕ)
      → ChannelWorks loads events
      → Accounts setup events
          (shut_down setup.last_insert (consume loads events (fresh_service size)).1)
  shut_down-Accounts setup events size w =
      let s = (consume loads events (fresh_service size)).1 in
      let (done, sent, kept) = consume-HandlesWell loads events (fresh_service size) w in
      let (stored, left, stop) =
        shut_down_lem setup.last_insert s (consume-flushing events (fresh_service size) w) in
      record {
        settles = unfold shut_down in sent;
        accounted = stored_all setup.last_insert s ∙ kept;
        stored = λ h. stored ∙ ap (λ b. if b then all_of s.shared else s.shared.stored) h ∙ kept;
        timer = stop;
      }

  -- If all that comes before the loop goes through and the channel works, `main` ends with the
  -- outcome of pika or of the closing, and each delivery has been acknowledged if its body is a
  -- JSON object and rejected if not. If the last insert of the shutdown goes through, the inserts
  -- that returned have had exactly the acknowledged messages, each once and in order, whatever
  -- inserts failed before; if it does not, those still in the buffer are lost, though they were
  -- acknowledged.
  pub main-Accounts :
      (setup : Setup) (events : List (Event Bytes)) (servers listening : Servers) (size : ℕ)
      → start_metrics_server setup.metrics_port setup.serve servers ≡ (ok tt, listening)
      → prepare setup ≡ ok size
      → setup.basic_consume ≡ ok tt
      → ChannelWorks loads events
      → (s : Service) × (main loads setup events servers ≡ (
        finished
            (close_both setup.pika_ends
              (close_worker setup.is_open setup.close_rabbitmq)
              setup.close_database)
            s,
        listening,
      ))
        × Accounts setup events s
  unfolding main
  main-Accounts setup events servers listening size served ready starts w =
      let r = consume loads events (fresh_service size) in
      let (done, sent, kept) = consume-HandlesWell loads events (fresh_service size) w in
      (
        shut_down setup.last_insert r.1,
        ap (λ m. with_metrics loads m setup events) served
            ∙ ap (λ p. (prepared loads p setup events, listening)) ready
            ∙ ap
                (λ b. (
                  wind_down setup (start loads b setup.pika_ends events (fresh_service size)),
                  listening,
                ))
                starts
            ∙ ap (λ x. (wind_down setup (then_pika setup.pika_ends (x, r.1)), listening)) done,
        shut_down-Accounts setup events size w,
      )
