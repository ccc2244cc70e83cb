-- ===== src/Journey/Rows.antt =====
-- The trades that producer/main.py has published and consumer/main.py has stored.
use crypto_streaming_lakehou.Base.{
  ℕ, ◌≡◌, refl, sym, ap, ◌∙◌, subst, String, true, false, inl, inr, is_some, Option, some, List, [],
  ◌∷◌, ◌++◌, All, Try, if◌then◌else◌,
}
use crypto_streaming_lakehou.Base.Json.{Json, object}
use crypto_streaming_lakehou.Consumer.Bronze.{Table, conflicts}
use crypto_streaming_lakehou.Consumer.Bronze.Rows.{IsDistinct, insert_rows-IsDistinct}
use crypto_streaming_lakehou.Consumer.Worker.{ack, nack, Delivery}
use crypto_streaming_lakehou.Consumer.Service.Deliveries.{prepend}
use crypto_streaming_lakehou.Consumer.Worker.Settlement.{settlements, object_of}
use crypto_streaming_lakehou.Consumer.Repository.Committing.{CommitWorks}
use crypto_streaming_lakehou.Consumer.Repository.Connection.{Driver}
use crypto_streaming_lakehou.Consumer.Repository.Redelivery.{Identified}
use crypto_streaming_lakehou.Consumer.Storing.{flush_batch}
use crypto_streaming_lakehou.Consumer.Storing.InTable.{InTable, all_trades}
use crypto_streaming_lakehou.Consumer.Storing.Held.{HaveRows}
use crypto_streaming_lakehou.Consumer.Storing.Consuming.{
  Happening, delivered, timed_out, Process, consume_into, messages_of, settled_of, AckWorks,
}
use crypto_streaming_lakehou.Consumer.Storing.Persisted.{consume_into-Persisted}
use crypto_streaming_lakehou.Producer.Trade.{TradeMessage, Pydantic}
use crypto_streaming_lakehou.Producer.Publisher.{Confirm, Publisher}
use crypto_streaming_lakehou.Producer.Stream.Boundary.{IsCleanDump, HoldsClean}
use crypto_streaming_lakehou.Journey.{ReadsBack, IsColumn, Among, bodies, all_acked, HasRow}

among : {A : Type 0} (P : A → Type 0) (x : A) (ys : List A) → Among x ys → All P ys → P x
among P x [] h all = absurd h
among P x (y ∷ ys) (inl e) all = subst P (sym e) all.0
among P x (y ∷ ys) (inr h) all = among P x ys h all.1

module _ {Bytes : Type 0} (loads : Bytes → Try Json) (dump : TradeMessage → Bytes)
    (trade_id_of : Json → Option String) (reads : ReadsBack loads dump)
    (column : IsColumn trade_id_of) where
  -- The bytes of some trade
  abbrev IsDump : Bytes → Type 0
  IsDump m = (t : TradeMessage) × (m ≡ dump t)

  object_of-dump :
      (m : Bytes)
      → IsDump m
      → (message : Json) × (object_of (loads m) ≡ some message)
        × (is_some (trade_id_of message) ≡ true)
  object_of-dump m (t, e) =
      let x = reads t in
      (
        object x.fields,
        ap (λ b. object_of (loads b)) e ∙ ap object_of x.is_object,
        ap is_some (column x.fields t.trade_id x.trade_id),
      )

  HasRow-dump :
      (m : Bytes) (table : Table Json) (message : Json)
      → IsDump m
      → object_of (loads m) ≡ some message
      → conflicts trade_id_of (trade_id_of message) table ≡ true
      → HasRow dump trade_id_of table m
  HasRow-dump m table message (t, e) h held =
      let x = reads t in
      let same : message ≡ object x.fields =
        cc (h, ap (λ b. object_of (loads b)) e ∙ ap object_of x.is_object) in
      (
        t,
        e,
        ap (λ k. conflicts trade_id_of k table)
              (sym (ap trade_id_of same ∙ column x.fields t.trade_id x.trade_id))
            ∙ held,
      )

  settled_of-dumps :
      (hs : List (Happening Bytes)) → All IsDump (bodies hs) → settled_of loads hs ≡ all_acked hs
  settled_of-dumps [] h = refl
  settled_of-dumps (timed_out now ∷ rest) h = settled_of-dumps rest h
  settled_of-dumps (delivered now m ∷ rest) h =
      let (message, e, _) = object_of-dump m.body h.0 in
      ap
        (λ o.
          (if is_some o then ack m.delivery_tag else nack m.delivery_tag) ∷ settled_of loads rest)
        e
      ∙ ap (λ l. ack m.delivery_tag ∷ l) (settled_of-dumps rest h.1)

  messages_of-delivered :
      (now : ℕ) (m : Delivery Bytes) (rest : List (Happening Bytes)) (message : Json)
      → object_of (loads m.body) ≡ some message
      → messages_of loads (delivered now m ∷ rest) ≡ message ∷ messages_of loads rest
  messages_of-delivered now m rest message e = ap (λ o. prepend o (messages_of loads rest)) e

  Identified-dumps :
      (hs : List (Happening Bytes))
      → All IsDump (bodies hs)
      → Identified trade_id_of (messages_of loads hs)
  Identified-dumps [] h = tt
  Identified-dumps (timed_out now ∷ rest) h = Identified-dumps rest h
  Identified-dumps (delivered now m ∷ rest) h =
      let (message, e, some_id) = object_of-dump m.body h.0 in
      subst (Identified trade_id_of) (sym (messages_of-delivered now m rest message e))
        (some_id, Identified-dumps rest h.1)

  HasRow-dumps :
      (hs : List (Happening Bytes)) (table : Table Json)
      → All IsDump (bodies hs)
      → HaveRows trade_id_of (messages_of loads hs) table
      → All (HasRow dump trade_id_of table) (bodies hs)
  HasRow-dumps [] table h held = tt
  HasRow-dumps (timed_out now ∷ rest) table h held = HasRow-dumps rest table h held
  HasRow-dumps (delivered now m ∷ rest) table h held =
      let (message, e, _) = object_of-dump m.body h.0 in
      let both =
        subst (λ l. HaveRows trade_id_of l table) (messages_of-delivered now m rest message e)
          held in
      (HasRow-dump m.body table message h.0 e both.0, HasRow-dumps rest table h.1 both.1)

  module _ (pydantic : Pydantic) (broker : ℕ → Confirm) (d : Driver trade_id_of)
      (works : CommitWorks d) where
    open d use {aborted, committed}

    IsDump-Among :
        (confirmed : List Bytes) (ms : List Bytes)
        → All (IsCleanDump pydantic dump broker) confirmed
        → All (λ m. Among m confirmed) ms
        → All IsDump ms
    IsDump-Among confirmed [] clean h = tt
    IsDump-Among confirmed (m ∷ ms) clean h =
        let (t, _, e) = among (IsCleanDump pydantic dump broker) m confirmed h.0 clean in
        ((t, e), IsDump-Among confirmed ms clean h.1)

    -- The consumer starts with nothing buffered or stored, and its connection is in order.
    pub record IsFresh (first : Table Json) (p : Process d) : Type 0 where
      pub in_table : InTable d first p.store
      pub nothing_taken : all_trades d p.store ≡ []
      pub nothing_done : p.effects ≡ []
      pub no_flush : p.store.shared.object.flushing ≡ false

    -- From the producer to the table: what the broker has confirmed are bytes of clean trades, as
    -- they are after any messages of the producer, and it delivers confirmed messages, in any order
    -- and however often. The channel works, each COMMIT goes through, the consumer starts afresh
    -- over a table with distinct trade_ids, and its connection has no failed transaction after the
    -- last flush. Then each delivery is acknowledged, each delivered message is that of a trade
    -- whose trade_id the table holds, and no two rows have the same trade_id. json.loads is assumed
    -- to read what model_dump_json wrote, and the generated column to be its trade_id.
    pub confirmed-HasRow :
        (published : Publisher Bytes) (first : Table Json) (hs : List (Happening Bytes))
        (p : Process d) (later : ℕ)
        → HoldsClean pydantic dump broker published
        → All (λ m. Among m published.confirmed) (bodies hs)
        → AckWorks loads hs
        → IsFresh first p
        → IsDistinct trade_id_of first
        → aborted (flush_batch d later (consume_into d loads hs p).1.store).repository.conn ≡ false
        → let q = (consume_into d loads hs p).1 in
          let table = committed (flush_batch d later q.store).repository.conn in
          (settlements q.effects ≡ all_acked hs)
          × All (HasRow dump trade_id_of table) (bodies hs)
          × IsDistinct trade_id_of table
    confirmed-HasRow published first hs p later clean sent w x distinct healthy =
        let dumps = IsDump-Among published.confirmed (bodies hs) clean.0 sent in
        let table =
          committed (flush_batch d later (consume_into d loads hs p).1.store).repository.conn in
        let nothing = ap (λ l. l ++ messages_of loads hs) x.nothing_taken in
        let (_, y) =
          consume_into-Persisted d loads first works hs p later w x.in_table x.no_flush
            (subst (Identified trade_id_of) (sym nothing) (Identified-dumps hs dumps)) healthy in
        (
          y.settles
              ∙ ap (λ l. settlements l ++ settled_of loads hs) x.nothing_done
              ∙ settled_of-dumps hs dumps,
          HasRow-dumps hs table dumps (subst (λ l. HaveRows trade_id_of l table) nothing y.held),
          subst (IsDistinct trade_id_of) (sym y.table.table)
              (insert_rows-IsDistinct trade_id_of y.table.rows first distinct),
        )
