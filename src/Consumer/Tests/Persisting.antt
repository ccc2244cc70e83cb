-- ===== src/Consumer/Tests/Persisting.antt =====
-- A run of the buffer of consumer/batch_buffer.py over a connection that keeps the table in memory.
use crypto_streaming_lakehou.Base.{String, ◌≡◌, refl, inl, List, [], ◌∷◌}
use crypto_streaming_lakehou.Base.{ℕ, true, false, Option, none, some, Try, ok}
use crypto_streaming_lakehou.Base.Json.{Json, string, get, get_field}
use crypto_streaming_lakehou.Consumer.Repository.Connection.{Driver}
use crypto_streaming_lakehou.Consumer.Tests.Working.{trade, loads, delivery}
use crypto_streaming_lakehou.Consumer.Tests.Memory.{memory_of}
use crypto_streaming_lakehou.Consumer.Storing.{flush_batch}
use crypto_streaming_lakehou.Consumer.Storing.Consuming.{
  Happening, delivered, timed_out, Process, consume_into,
}
use crypto_streaming_lakehou.Consumer.Storing.Persisted.{Persisted, consume_into-Persisted}
use crypto_streaming_lakehou.Consumer.Bronze.{insert_rows, insert_row, conflicts, same_id}
use crypto_streaming_lakehou.Consumer.Buffer.{init}
use crypto_streaming_lakehou.Consumer.Repository.{
  insert_batch, after_execute_values, commit_and_count,
}
use crypto_streaming_lakehou.Consumer.Storing.{BufferCall, call_add, call_flush, Store, perform_all}
use crypto_streaming_lakehou.Consumer.Storing.InTable.{InTable, all_trades, perform_all-InTable}
use crypto_streaming_lakehou.Consumer.Tests.Memory.{memory, with_a, stored_a, idle}

abbrev fresh_store : Store memory
fresh_store = record { shared = record { object = init 2; stored = [] }; repository = with_a }

fresh_store-InTable : InTable memory stored_a fresh_store
unfolding insert_rows
fresh_store-InTable = record {
  rows = [];
  payloads = refl;
  table = refl;
  counted = refl;
  settled = inl idle;
}

-- "a" is in the table; the first batch goes through, the second one is refused, and so is the last.
abbrev calls : List (BufferCall String)
calls = call_add 5 "a" ∷ call_add 6 "b" ∷ call_add 7 "NUL" ∷ call_flush 8 ∷ call_add 9 "c" ∷ []

abbrev after_calls : Store memory
after_calls = perform_all memory calls fresh_store

b_stored :
    after_calls.repository.conn.committed
    ≡ record { payload = "a"; received_at = 1 } ∷ record { payload = "b"; received_at = 6 } ∷ []
unfolding perform_all insert_batch after_execute_values commit_and_count insert_rows insert_row
    conflicts same_id
b_stored = refl

others_buffered : after_calls.shared.object.buffer ≡ "NUL" ∷ "c" ∷ []
unfolding perform_all insert_batch after_execute_values commit_and_count insert_rows insert_row
    conflicts same_id
others_buffered = refl

perform_all-InTable_example :
    InTable memory stored_a after_calls
    × (all_trades memory after_calls ≡ "a" ∷ "b" ∷ "NUL" ∷ "c" ∷ [])
perform_all-InTable_example =
    perform_all-InTable memory stored_a calls fresh_store (λ c h. refl) fresh_store-InTable

-- payload ->> 'trade_id', of a text
abbrev text_of : Try (Option Json) → Option String
text_of (ok (some (string s))) = some s
text_of _ = none

abbrev trade_id_in : Json → Option String
trade_id_in payload = text_of (get "trade_id" payload)

abbrev json_memory : Driver trade_id_in
json_memory = memory_of trade_id_in (λ m. false)

abbrev empty_process : Process json_memory
empty_process = record {
  effects = [];
  store = record {
    shared = record { object = init 2; stored = [] };
    repository = record {
      conn = record { committed = []; visible = []; aborted = false };
      duplicates_skipped = 0;
    };
  };
}

empty_process-InTable : InTable json_memory [] empty_process.store
unfolding insert_rows
empty_process-InTable = record {
  rows = [];
  payloads = refl;
  table = refl;
  counted = refl;
  settled = inl (record { nothing_pending = refl; healthy = refl });
}

-- A trade, a body that is no JSON, the timer, and the trade again
abbrev happenings : List (Happening ℕ)
happenings =
    delivered 20 (delivery 1 1 true)
    ∷ delivered 21 (delivery 2 0 true)
    ∷ timed_out 22
    ∷ delivered 23 (delivery 3 1 true)
    ∷ []

abbrev consumed : Process json_memory
consumed = (consume_into json_memory loads happenings empty_process).1

one_row :
    (flush_batch json_memory 30 consumed.store).repository.conn.committed
    ≡ record { payload = trade; received_at = 22 } ∷ []
unfolding consume_into flush_batch insert_batch after_execute_values commit_and_count insert_rows
    insert_row conflicts same_id get get_field
one_row = refl

in_order : (flush_batch json_memory 30 consumed.store).repository.conn.aborted ≡ false
unfolding consume_into flush_batch insert_batch after_execute_values commit_and_count insert_rows
    insert_row conflicts same_id get get_field
in_order = refl

consume_into-Persisted_example :
    ((consume_into json_memory loads happenings empty_process).0 ≡ ok tt)
    × Persisted json_memory loads []
        (λ c h. refl)
        happenings
        empty_process
        consumed
        (flush_batch json_memory 30 consumed.store)
unfolding get get_field
consume_into-Persisted_example =
    consume_into-Persisted json_memory loads [] (λ c h. refl) happenings empty_process 30
      (refl, refl, (refl, refl, (refl, refl, tt))) empty_process-InTable refl (refl, (refl, tt))
      in_order
