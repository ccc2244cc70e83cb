-- ===== src/Consumer/Storing/Persisted.antt =====
-- From the delivery to the row: consumer/consumer.py, consumer/batch_buffer.py and
-- consumer/repository.py together.
use crypto_streaming_lakehou.Base.{
  ℕ, ◌≡◌, refl, sym, ap, ◌∙◌, subst, String, false, Option, none, some, List, [], ◌∷◌, ◌++◌,
  append-nil, append_assoc, is_some, Try, ok, raised,
}
use crypto_streaming_lakehou.Base.Json.{Json}
use crypto_streaming_lakehou.Consumer.Bronze.{Table}
use crypto_streaming_lakehou.Consumer.Repository.Redelivery.{Identified}
use crypto_streaming_lakehou.Consumer.Buffer.{Timer, pending, fired, stopped}
use crypto_streaming_lakehou.Consumer.Worker.{ack, nack}
use crypto_streaming_lakehou.Consumer.Worker.Settlement.{
  settlements, object_of, store, on_message_settles,
}
use crypto_streaming_lakehou.Consumer.Service.Deliveries.{
  prepend, prepend-append, settlements-append, one_of,
}
use crypto_streaming_lakehou.Consumer.Repository.Committing.{CommitWorks}
use crypto_streaming_lakehou.Consumer.Repository.Connection.{Driver}
use crypto_streaming_lakehou.Consumer.Storing.{Store, flush_batch}
use crypto_streaming_lakehou.Consumer.Storing.InTable.{
  InTable, all_trades, Follows, flush_batch-Follows, add_trade-Follows,
}
use crypto_streaming_lakehou.Consumer.Storing.Consuming.{
  Happening, delivered, timed_out, Process, store_one, fire_batch, unless_escaped, handle_into,
  consume_into, messages_of, settled_of, AckWorks,
}
use crypto_streaming_lakehou.Consumer.Storing.Held.{
  HaveRows, InTable-HaveRows, flush_batch-flushing, add_trade-flushing, flush_batch_empties,
}

module _ {trade_id_of : Json → Option String} (d : Driver trade_id_of) {Bytes : Type 0}
    (loads : Bytes → Try Json) (first : Table Json) (works : CommitWorks d) where
  abbrev Well : List (Happening Bytes) → Process d → Try (Unit {0}) × Process d → Type 0
  Well hs p (res, q) =
      (res ≡ ok tt)
      × (settlements q.effects ≡ settlements p.effects ++ settled_of loads hs)
      × Follows d first (all_trades d p.store ++ messages_of loads hs) q.store
      × (q.store.shared.object.flushing ≡ p.store.shared.object.flushing)

  fire_batch-Follows :
      (now : ℕ) (t : Timer) (s : Store d)
      → InTable d first s
      → Follows d first (all_trades d s ++ []) (fire_batch d now t s)
        × ((fire_batch d now t s).shared.object.flushing ≡ s.shared.object.flushing)
  unfolding fire_batch
  fire_batch-Follows now pending s x =
      let s' : Store d = record s {
        shared = record s.shared { object = record s.shared.object { timer = fired } };
      } in
      let f = flush_batch-Follows d first now s' works (record {
        rows = x.rows;
        payloads = x.payloads;
        table = x.table;
        counted = x.counted;
        settled = x.settled;
      }) in
      ((f.0, f.1 ∙ sym (append-nil _)), flush_batch-flushing d now s')
  fire_batch-Follows now stopped s x = ((x, sym (append-nil _)), refl)
  fire_batch-Follows now fired s x = ((x, sym (append-nil _)), refl)

  store_one-Follows :
      (now : ℕ) (o : Option Json) (s : Store d)
      → InTable d first s
      → let (stored, s') = store loads (store_one d now) o s in
        (stored ≡ is_some o)
        × Follows d first (all_trades d s ++ prepend o []) s'
        × (s'.shared.object.flushing ≡ s.shared.object.flushing)
  unfolding store_one
  store_one-Follows now none s x = (refl, (x, sym (append-nil _)), refl)
  store_one-Follows now (some m) s x =
      (refl, add_trade-Follows d first now m s works x, add_trade-flushing d now m s)

  handle_into-Well :
      (h : Happening Bytes) (p : Process d)
      → AckWorks loads (h ∷ [])
      → InTable d first p.store
      → Well (h ∷ []) p (handle_into d loads h p)
  unfolding handle_into
  handle_into-Well (timed_out now) p w x =
      let f = fire_batch-Follows now p.store.shared.object.timer p.store x in
      (refl, sym (append-nil _), f.0, f.1)
  handle_into-Well (delivered now m) p w x =
      let o = object_of (loads m.body) in
      let (sent, next, done) = on_message_settles loads (store_one d now) m p.store w.0 w.1 in
      let (stored, follows, same) = store_one-Follows now o p.store x in
      (
        done,
        settlements-append p.effects _
            ∙ ap (λ l. settlements p.effects ++ l)
                (sent ∙ rw stored (one_of (is_some o) (ack m.delivery_tag) (nack m.delivery_tag))),
        subst (Follows d first (all_trades d p.store ++ prepend o [])) (sym next) follows,
        ap (λ s. s.shared.object.flushing) next ∙ same,
      )

  unless_escaped-ok :
      (r : Try (Unit {0}) × Process d) (next : Process d → Try (Unit {0}) × Process d)
      → r.0 ≡ ok tt
      → unless_escaped d r next ≡ next r.1
  unless_escaped-ok (ok u, p) next e = refl
  unless_escaped-ok (raised x, p) next e = cc

  consume_into-cons :
      (h : Happening Bytes) (rest : List (Happening Bytes)) (p : Process d)
      → (handle_into d loads h p).0 ≡ ok tt
      → consume_into d loads (h ∷ rest) p ≡ consume_into d loads rest (handle_into d loads h p).1
  unfolding consume_into
  consume_into-cons h rest p e =
      unless_escaped-ok (handle_into d loads h p) (consume_into d loads rest) e

  settled_of-cons :
      (h : Happening Bytes) (rest : List (Happening Bytes))
      → settled_of loads (h ∷ []) ++ settled_of loads rest ≡ settled_of loads (h ∷ rest)
  settled_of-cons (timed_out now) rest = refl
  settled_of-cons (delivered now m) rest = refl

  messages_of-cons :
      (h : Happening Bytes) (rest : List (Happening Bytes))
      → messages_of loads (h ∷ []) ++ messages_of loads rest ≡ messages_of loads (h ∷ rest)
  messages_of-cons (timed_out now) rest = refl
  messages_of-cons (delivered now m) rest = prepend-append (object_of (loads m.body)) _

  AckWorks-head :
      (h : Happening Bytes) (rest : List (Happening Bytes))
      → AckWorks loads (h ∷ rest)
      → AckWorks loads (h ∷ []) × AckWorks loads rest
  AckWorks-head (timed_out now) rest w = (tt, w)
  AckWorks-head (delivered now m) rest w = ((w.0, w.1, tt), w.2)

  consume_into-Well :
      (hs : List (Happening Bytes)) (p : Process d)
      → AckWorks loads hs
      → InTable d first p.store
      → Well hs p (consume_into d loads hs p)
  unfolding consume_into
  consume_into-Well [] p w x = (refl, sym (append-nil _), (x, sym (append-nil _)), refl)
  consume_into-Well (h ∷ rest) p w x =
      let (one, others) = AckWorks-head h rest w in
      let (done, sent, (y, kept), same) = handle_into-Well h p one x in
      let (all_done, all_sent, (z, all_kept), all_same) =
        consume_into-Well rest (handle_into d loads h p).1 others y in
      subst (Well (h ∷ rest) p) (sym (consume_into-cons h rest p done)) (
        all_done,
        all_sent
            ∙ ap (λ l. l ++ settled_of loads rest) sent
            ∙ append_assoc (settlements p.effects) _ _
            ∙ ap (λ l. settlements p.effects ++ l) (settled_of-cons h rest),
        (
          z,
          all_kept
              ∙ ap (λ l. l ++ messages_of loads rest) kept
              ∙ append_assoc (all_trades d p.store) _ _
              ∙ ap (λ l. all_trades d p.store ++ l) (messages_of-cons h rest),
        ),
        all_same ∙ same,
      )

  open d use {aborted, committed}

  -- From `p`, before the happenings, to `q`, after them, and the store after the last flush.
  pub record Persisted (hs : List (Happening Bytes)) (p q : Process d) (last : Store d)
      : Type 0 where
    pub settles : settlements q.effects ≡ settlements p.effects ++ settled_of loads hs
    pub stored : last.shared.stored ≡ all_trades d p.store ++ messages_of loads hs
    pub table : InTable d first last
    pub held :
        HaveRows trade_id_of
          (all_trades d p.store ++ messages_of loads hs)
          (committed last.repository.conn)

  -- From the delivery to the row: the worker runs over the buffer and the repository, with flushes
  -- by the timer anywhere between the deliveries, and ends with a flush. The channel works, each
  -- COMMIT goes through, the table and the stored trades are in step at the start, no other flush
  -- is active, every message has a trade_id, and the connection has no failed transaction at the
  -- end. Then no exception leaves the callback, and each delivery is acknowledged if its body is a
  -- JSON object and rejected if not. The repository has stored, in order, the earlier messages and
  -- those of the deliveries; the table is what the INSERT makes of them, one by one, and each of
  -- them has a row with its trade_id.
  pub consume_into-Persisted :
      (hs : List (Happening Bytes)) (p : Process d) (later : ℕ)
      → AckWorks loads hs
      → InTable d first p.store
      → p.store.shared.object.flushing ≡ false
      → Identified trade_id_of (all_trades d p.store ++ messages_of loads hs)
      → aborted (flush_batch d later (consume_into d loads hs p).1.store).repository.conn ≡ false
      → let (res, q) = consume_into d loads hs p in
        (res ≡ ok tt) × Persisted hs p q (flush_batch d later q.store)
  consume_into-Persisted hs p later w x off ids healthy =
      let q = (consume_into d loads hs p).1 in
      let (done, sent, (y, kept), same) = consume_into-Well hs p w x in
      let (z, order) = flush_batch-Follows d first later q.store works y in
      let empty = flush_batch_empties d first later q.store works y (same ∙ off) healthy in
      let all =
        sym (append-nil _)
        ∙ ap (λ l. (flush_batch d later q.store).shared.stored ++ l) (sym empty)
        ∙ order
        ∙ kept in
      (
        done,
        record {
          settles = sent;
          stored = all;
          table = z;
          held =
              subst
                (λ l.
                  HaveRows trade_id_of l (committed (flush_batch d later q.store).repository.conn))
                all
                (InTable-HaveRows d first (flush_batch d later q.store) z
                  (subst (Identified trade_id_of) (sym all) ids));
        },
      )
