-- ===== src/Consumer/Tests/Storage.antt =====
-- Runs of consumer/repository.py over a connection that keeps the table in memory.
use crypto_streaming_lakehou.Base.{
  ◌+◌, String, ◌≡◌, refl, ◌⊎◌, List, [], ◌∷◌, map, ok, raised, psycopg_error,
}
use crypto_streaming_lakehou.Consumer.Bronze.{
  Table, row_count, insert_row, insert_rows, conflicts, same_id,
}
use crypto_streaming_lakehou.Consumer.Bronze.Rows.{IsDistinct}
use crypto_streaming_lakehou.Consumer.Repository.{
  row_at, insert_one, insert_batch, after_execute_values, commit_and_count,
}
use crypto_streaming_lakehou.Consumer.Tests.Memory.{memory, stored_a, with_a, idle, id_of}
use crypto_streaming_lakehou.Consumer.Repository.Batches.{Stored, insert_batch-Stored}
use crypto_streaming_lakehou.Consumer.Repository.Failures.{
  one, batch, call_all, no_insert_after_error,
}
use crypto_streaming_lakehou.Consumer.Repository.Redelivery.{
  insert_batch_again, insert_each, insert_batch-eq-insert_each,
}
use crypto_streaming_lakehou.Consumer.Repository.Atomicity.{
  insert_batch-AllOrNothing, insert_batch-IsDistinct,
}

abbrev two : List String
two = "a" ∷ "b" ∷ []

abbrev stored_two : Table String
stored_two =
    record { payload = "a"; received_at = 1 } ∷ record { payload = "b"; received_at = 5 } ∷ []

two_returns : (insert_batch memory 5 two with_a).0 ≡ ok tt
unfolding insert_batch after_execute_values commit_and_count insert_rows insert_row conflicts
    same_id
two_returns = refl

two_again_returns : (insert_batch memory 9 two (insert_batch memory 5 two with_a).1).0 ≡ ok tt
unfolding insert_batch after_execute_values commit_and_count insert_rows insert_row conflicts
    same_id
two_again_returns = refl

two_stores_b : (insert_batch memory 5 two with_a).1.conn.committed ≡ stored_two
unfolding insert_batch after_execute_values commit_and_count insert_rows insert_row conflicts
    same_id
two_stores_b = refl

two_counts : (insert_batch memory 5 two with_a).1.duplicates_skipped ≡ 1
unfolding insert_batch after_execute_values commit_and_count insert_rows insert_row conflicts
    same_id
two_counts = refl

insert_batch_again_example :
    let first = insert_batch memory 5 two with_a in
    let second = insert_batch memory 9 two first.1 in
    (second.1.conn.committed ≡ first.1.conn.committed)
    × (second.1.duplicates_skipped ≡ first.1.duplicates_skipped + 2)
insert_batch_again_example =
    insert_batch_again memory 5 9 two with_a idle (refl, (refl, tt)) two_returns two_again_returns

insert_batch-Stored_instance :
    Stored memory (map (row_at 5) two) with_a (insert_batch memory 5 two with_a).1
insert_batch-Stored_instance = insert_batch-Stored memory 5 two with_a idle two_returns

insert_batch-AllOrNothing_example :
    ((insert_batch memory 5 ("b" ∷ "NUL" ∷ []) with_a).1.conn.committed ≡ stored_a)
    ⊎ ((insert_batch memory 5 ("b" ∷ "NUL" ∷ []) with_a).1.conn.committed
        ≡ (insert_rows id_of (map (row_at 5) ("b" ∷ "NUL" ∷ [])) stored_a).0)
insert_batch-AllOrNothing_example =
    insert_batch-AllOrNothing memory 5 ("b" ∷ "NUL" ∷ []) with_a idle

insert_batch-IsDistinct_instance :
    IsDistinct id_of (insert_batch memory 5 two with_a).1.conn.committed
unfolding conflicts
insert_batch-IsDistinct_instance = insert_batch-IsDistinct memory 5 two with_a idle (refl, tt)

each_returns : (insert_each memory 5 two with_a).0 ≡ ok tt
unfolding insert_each insert_one commit_and_count row_count insert_row conflicts same_id
each_returns = refl

insert_batch-eq-insert_each_instance :
    let batch = (insert_batch memory 5 two with_a).1 in
    let each = (insert_each memory 5 two with_a).1 in
    (batch.conn.committed ≡ each.conn.committed)
    × (batch.duplicates_skipped ≡ each.duplicates_skipped)
insert_batch-eq-insert_each_instance =
    insert_batch-eq-insert_each memory 5 two with_a idle two_returns each_returns

no_insert_after_error_example :
    let (res, r') = insert_batch memory 5 ("NUL" ∷ []) with_a in
    let (results, last) = call_all memory (one 6 "b" ∷ batch 7 "c" [] ∷ []) r' in
    (res ≡ raised psycopg_error)
    × (results ≡ raised psycopg_error ∷ raised psycopg_error ∷ [])
    × (last.conn.committed ≡ stored_a)
no_insert_after_error_example =
    no_insert_after_error memory 5 "NUL" [] with_a psycopg_error refl
      (one 6 "b" ∷ batch 7 "c" [] ∷ [])
