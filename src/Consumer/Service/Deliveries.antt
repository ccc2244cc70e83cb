-- ===== src/Consumer/Service/Deliveries.antt =====
-- What the process of consumer/main.py does with the deliveries.
use crypto_streaming_lakehou.Base.{
  ◌≡◌, refl, sym, ap, ◌∙◌, Bool, true, false, Option, none, some, List, [], ◌∷◌, ◌++◌, append-nil,
  append_assoc, is_some, Try, ok, if◌then◌else◌,
}
use crypto_streaming_lakehou.Base.Json.{Json}
use crypto_streaming_lakehou.Consumer.Threads.{Shared}
use crypto_streaming_lakehou.Consumer.Buffer.{Timer, pending, fired, stopped}
use crypto_streaming_lakehou.Consumer.Threads.Sequential.{add_message-in_order, flush-in_order}
use crypto_streaming_lakehou.Consumer.Worker.{Effect, ack, nack, log, observe}
use crypto_streaming_lakehou.Consumer.Worker.Settlement.{
  settlements, object_of, store, on_message_settles,
}
use crypto_streaming_lakehou.Consumer.Service.{
  Event, signal, time_out, fire_if_pending, deliver, Service, all_of, buffered_insert, handle,
  consume,
}

abbrev pub prepend : Option Json → List Json → List Json
prepend none rest = rest
prepend (some message) rest = message ∷ rest

pub settlements-append :
    (xs ys : List Effect) → settlements (xs ++ ys) ≡ settlements xs ++ settlements ys
settlements-append [] ys = refl
settlements-append (observe d ∷ xs) ys = settlements-append xs ys
settlements-append (ack t ∷ xs) ys = ap (λ l. ack t ∷ l) (settlements-append xs ys)
settlements-append (nack t ∷ xs) ys = ap (λ l. nack t ∷ l) (settlements-append xs ys)
settlements-append (log st t ∷ xs) ys = settlements-append xs ys

pub one_of : (b : Bool) (x y : Effect) → (if b then x ∷ [] else y ∷ []) ≡ (if b then x else y) ∷ []
one_of true x y = refl
one_of false x y = refl

pub prepend-append : (o : Option Json) (l : List Json) → prepend o [] ++ l ≡ prepend o l
prepend-append none l = refl
prepend-append (some m) l = refl

module _ {Bytes : Type 0} (loads : Bytes → Try Json) where
  -- The messages that reach the buffer: the bodies that are JSON objects.
  abbrev pub messages : List (Event Bytes) → List Json
  messages [] = []
  messages (signal ∷ rest) = messages rest
  messages (time_out _ ∷ rest) = messages rest
  messages (deliver m _ ∷ rest) = prepend (object_of (loads m.body)) (messages rest)

  -- The settlements that these deliveries should get, whatever the database does.
  abbrev pub settled : List (Event Bytes) → List Effect
  settled [] = []
  settled (signal ∷ rest) = settled rest
  settled (time_out _ ∷ rest) = settled rest
  settled (deliver m _ ∷ rest) =
      (if is_some (object_of (loads m.body)) then ack m.delivery_tag else nack m.delivery_tag)
      ∷ settled rest

  -- The channel works throughout.
  abbrev pub ChannelWorks : List (Event Bytes) → Type 0
  ChannelWorks [] = Unit
  ChannelWorks (signal ∷ rest) = ChannelWorks rest
  ChannelWorks (time_out _ ∷ rest) = ChannelWorks rest
  ChannelWorks (deliver m _ ∷ rest) =
      (m.ack_works ≡ true) × (m.nack_works ≡ true) × ChannelWorks rest

  -- One event: it settles what it should, and keeps the messages in order.
  abbrev HandlesWell : List (Event Bytes) → Service → Try (Unit {0}) × Service → Type 0
  HandlesWell events s (res, s') =
      (res ≡ ok tt)
      × (settlements s'.effects ≡ settlements s.effects ++ settled events)
      × (all_of s'.shared ≡ all_of s.shared ++ messages events)

  store_buffered :
      (success : Bool) (o : Option Json) (s : Shared Json)
      → let (stored, s') = store loads (buffered_insert success) o s in
        (stored ≡ is_some o) × (all_of s' ≡ all_of s ++ prepend o [])
  unfolding buffered_insert
  store_buffered success none s = (refl, sym (append-nil _))
  store_buffered success (some m) s = (refl, add_message-in_order success m s)

  fire-in_order :
      (success : Bool) (t : Timer) (s : Shared Json)
      → all_of (fire_if_pending success t s) ≡ all_of s
  unfolding fire_if_pending
  fire-in_order success pending s =
      flush-in_order success (record s { object = record s.object { timer = fired } })
  fire-in_order success stopped s = refl
  fire-in_order success fired s = refl

  handle-HandlesWell :
      (e : Event Bytes) (s : Service)
      → ChannelWorks (e ∷ [])
      → HandlesWell (e ∷ []) s (handle loads e s)
  unfolding handle
  handle-HandlesWell signal s w = (refl, sym (append-nil _), sym (append-nil _))
  handle-HandlesWell (time_out success) s w = (
    refl,
    sym (append-nil _),
    fire-in_order success s.shared.object.timer s.shared ∙ sym (append-nil _),
  )
  handle-HandlesWell (deliver m success) s w =
      let o = object_of (loads m.body) in
      let (sent, next, done) =
        on_message_settles loads (buffered_insert success) m s.shared w.0 w.1 in
      let (stored, kept) = store_buffered success o s.shared in
      (
        done,
        settlements-append s.effects _
            ∙ ap (λ l. settlements s.effects ++ l)
                (sent ∙ rw stored (one_of (is_some o) (ack m.delivery_tag) (nack m.delivery_tag))),
        ap all_of next ∙ kept,
      )

  settled-cons :
      (e : Event Bytes) (rest : List (Event Bytes))
      → settled (e ∷ []) ++ settled rest ≡ settled (e ∷ rest)
  settled-cons signal rest = refl
  settled-cons (time_out _) rest = refl
  settled-cons (deliver m success) rest = refl

  messages-cons :
      (e : Event Bytes) (rest : List (Event Bytes))
      → messages (e ∷ []) ++ messages rest ≡ messages (e ∷ rest)
  messages-cons signal rest = refl
  messages-cons (time_out _) rest = refl
  messages-cons (deliver m success) rest = prepend-append (object_of (loads m.body)) (messages rest)

  pub ChannelWorks-head :
      (e : Event Bytes) (rest : List (Event Bytes))
      → ChannelWorks (e ∷ rest)
      → ChannelWorks (e ∷ []) × ChannelWorks rest
  ChannelWorks-head signal rest w = (tt, w)
  ChannelWorks-head (time_out _) rest w = (tt, w)
  ChannelWorks-head (deliver m success) rest w = ((w.0, w.1, tt), w.2)

  pub consume-cons :
      (e : Event Bytes) (rest : List (Event Bytes)) (s : Service)
      → (handle loads e s).0 ≡ ok tt
      → consume loads (e ∷ rest) s ≡ consume loads rest (handle loads e s).1
  unfolding consume
  consume-cons e rest s h = rw (h, consume) refl

  -- While the channel works, the worker handles every delivery, with signals and flushes by the
  -- timer anywhere between them. Each body that is a JSON object is acknowledged and each other
  -- one is rejected, in the order of the deliveries and whether or not the database takes the
  -- messages; what is stored and what is buffered are, in order, the earlier messages and then
  -- those of these deliveries.
  pub consume-HandlesWell :
      (events : List (Event Bytes)) (s : Service)
      → ChannelWorks events
      → let (res, s') = consume loads events s in
        (res ≡ ok tt)
        × (settlements s'.effects ≡ settlements s.effects ++ settled events)
        × (all_of s'.shared ≡ all_of s.shared ++ messages events)
  unfolding consume
  consume-HandlesWell [] s w = (refl, sym (append-nil _), sym (append-nil _))
  consume-HandlesWell (e ∷ rest) s w =
      let (one, others) = ChannelWorks-head e rest w in
      let (done, sent, kept) = handle-HandlesWell e s one in
      let (all_done, all_sent, all_kept) = consume-HandlesWell rest (handle loads e s).1 others in
      rw (consume-cons e rest s done) (
        all_done,
        all_sent
            ∙ ap (λ l. l ++ settled rest) sent
            ∙ append_assoc (settlements s.effects) (settled (e ∷ [])) (settled rest)
            ∙ ap (λ l. settlements s.effects ++ l) (settled-cons e rest),
        all_kept
            ∙ ap (λ l. l ++ messages rest) kept
            ∙ append_assoc (all_of s.shared) (messages (e ∷ [])) (messages rest)
            ∙ ap (λ l. all_of s.shared ++ l) (messages-cons e rest),
      )
