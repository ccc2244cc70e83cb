-- ===== src/Journey/Tests.antt =====
-- A run from the producer to the table.
use crypto_streaming_lakehou.Base.{
  ℕ, String, ◌≡◌, refl, arith, true, false, inl, Option, none, some, List, [], ◌∷◌, All, Try, ok,
}
use crypto_streaming_lakehou.Base.Int.{pos, negsuc}
use crypto_streaming_lakehou.Base.Json.{Json, string, object, field, end, get, get_field}
use crypto_streaming_lakehou.Producer.Trade.{TradeMessage, Pydantic, buy}
use crypto_streaming_lakehou.Producer.Trade.Validation.{IsClean}
use crypto_streaming_lakehou.Producer.Publisher.{Confirm, Publisher, acked}
use crypto_streaming_lakehou.Producer.Stream.Boundary.{HoldsClean}
use crypto_streaming_lakehou.Consumer.Tests.Memory.{memory_of}
use crypto_streaming_lakehou.Consumer.Bronze.{insert_rows, insert_row, conflicts, same_id}
use crypto_streaming_lakehou.Consumer.Bronze.Rows.{IsDistinct}
use crypto_streaming_lakehou.Consumer.Worker.{Delivery, ack}
use crypto_streaming_lakehou.Consumer.Worker.Settlement.{settlements}
use crypto_streaming_lakehou.Consumer.Buffer.{init}
use crypto_streaming_lakehou.Consumer.Repository.{
  insert_batch, after_execute_values, commit_and_count,
}
use crypto_streaming_lakehou.Consumer.Repository.Connection.{Driver}
use crypto_streaming_lakehou.Consumer.Storing.{flush_batch}
use crypto_streaming_lakehou.Consumer.Storing.Consuming.{
  Happening, delivered, timed_out, Process, consume_into,
}
use crypto_streaming_lakehou.Journey.{ReadsBack, IsColumn, HasRow}
use crypto_streaming_lakehou.Journey.Rows.{IsFresh, confirmed-HasRow}

abbrev traded : TradeMessage
traded = record {
  trade_id = "t1";
  price = record { coefficient = pos 15; exponent = negsuc 0 };
  size = record { coefficient = pos 15; exponent = negsuc 0 };
  side = buy;
  time = record { wall_clock = pos 9000; utc_offset = some (pos 0) };
}

-- The bytes of a message are its trade_id here.
abbrev dump : TradeMessage → String
dump t = t.trade_id

abbrev loads : String → Try Json
loads s = ok (object (field "trade_id" (string s) end))

reads : ReadsBack loads dump
unfolding get_field
reads t = record {
  fields = field "trade_id" (string t.trade_id) end;
  is_object = refl;
  trade_id = refl;
}

abbrev text_of : Try (Option Json) → Option String
text_of (ok (some (string s))) = some s
text_of _ = none

abbrev trade_id_in : Json → Option String
trade_id_in payload = text_of (get "trade_id" payload)

column : IsColumn trade_id_in
unfolding get
column fields s h = rw h refl

abbrev pydantic : Pydantic
pydantic = record { to_decimal = λ v. none; to_datetime = λ v. none }

abbrev up : ℕ → Confirm
up i = acked

abbrev published : Publisher String
published = record { retry_queue = []; calls = 1; confirmed = "t1" ∷ [] }

traded-IsClean : IsClean traded
traded-IsClean = record {
  has_id = λ h. cc;
  price_positive = omega arith;
  size_positive = omega arith;
  in_utc = refl;
}

published-HoldsClean : HoldsClean pydantic dump up published
published-HoldsClean = (((traded, traded-IsClean, refl), tt), tt)

abbrev json_memory : Driver trade_id_in
json_memory = memory_of trade_id_in (λ m. false)

abbrev starting : Process json_memory
starting = record {
  effects = [];
  store = record {
    shared = record { object = init 2; stored = [] };
    repository = record {
      conn = record { committed = []; visible = []; aborted = false };
      duplicates_skipped = 0;
    };
  };
}

starting-IsFresh :
    IsFresh loads dump trade_id_in reads column pydantic up json_memory (λ c h. refl) [] starting
unfolding insert_rows
starting-IsFresh = record {
  in_table = record {
    rows = [];
    payloads = refl;
    table = refl;
    counted = refl;
    settled = inl (record { nothing_pending = refl; healthy = refl });
  };
  nothing_taken = refl;
  nothing_done = refl;
  no_flush = refl;
}

abbrev body : ℕ → Delivery String
body tag = record {
  delivery_tag = tag;
  body = "t1";
  started = 10;
  inserted = 12;
  failed = 13;
  ack_works = true;
  nack_works = true;
}

-- The message is delivered twice.
abbrev twice : List (Happening String)
twice = delivered 20 (body 1) ∷ timed_out 22 ∷ delivered 23 (body 2) ∷ []

in_order :
    (flush_batch json_memory 30
      (consume_into json_memory loads twice starting).1.store).repository.conn.aborted
    ≡ false
unfolding consume_into flush_batch insert_batch after_execute_values commit_and_count insert_rows
    insert_row conflicts same_id get get_field
in_order = refl

confirmed-HasRow_example :
    let q = (consume_into json_memory loads twice starting).1 in
    let table = (flush_batch json_memory 30 q.store).repository.conn.committed in
    (settlements q.effects ≡ ack 1 ∷ ack 2 ∷ [])
    × All (HasRow dump trade_id_in table) ("t1" ∷ "t1" ∷ [])
    × IsDistinct trade_id_in table
confirmed-HasRow_example =
    confirmed-HasRow loads dump trade_id_in reads column pydantic up json_memory (λ c h. refl)
      published [] twice starting 30 published-HoldsClean (inl refl, (inl refl, tt))
      (refl, refl, (refl, refl, tt)) starting-IsFresh tt in_order
