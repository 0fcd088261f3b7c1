-- ===== src/Tests/Server.antt =====
-- The service on a sample stream.
use mathlib.Core.List.{Sublistᴰ}
use hannah_logcollector.Prelude.{ℕ, ◌≡◌, refl, List, [], ◌∷◌, ◌++◌, All, length, none, arith, pos}
use hannah_logcollector.Text.{codes, equal}
use hannah_logcollector.Store.{Entry}
use hannah_logcollector.Store.Sql.{ok}
use hannah_logcollector.Store.Queries.{find, upsert_source, insert_entries, insert_each}
use hannah_logcollector.Store.Writer.{
  Writer, entry_of, sync_of, new_writer, add, send_sync, handle_request, flush,
}
use hannah_logcollector.Store.Writer.Steps
use hannah_logcollector.Store.Writer.Stored.{AllStored, table}
use hannah_logcollector.Server.Ship.{
  message, end_of_stream, hello, entry, Hello, LogEntry, Call, opened, receive, answered, finished,
  acknowledged,
}
use hannah_logcollector.Server.Ship.Steps.{Reach, here, next, receives, writes, gets_answer}
use hannah_logcollector.Server.Ship.Durable.{acknowledged_entries_are_stored}
use hannah_logcollector.Tests.Store.{engine, start}

abbrev greeting_of : Hello
greeting_of = record { component = codes "core"; instance_name = []; version = codes "1.0" }

abbrev line : LogEntry
line = record {
  timestamp_ms = pos 7000;
  level = pos 2;
  logger = [];
  message = codes "up";
  category = pos 1;
}

abbrev fresh : Writer
fresh = new_writer 2 start none

abbrev greeted : Call × Writer
greeted = receive engine (message (hello greeting_of)) opened fresh

abbrev shipped_one : Call × Writer
shipped_one = receive engine (message (entry line)) greeted.0 greeted.1

abbrev ended : Call × Writer
ended = receive engine end_of_stream shipped_one.0 shipped_one.1

abbrev entry_of_line : Entry
entry_of_line = record {
  source_id = 2;
  timestamp_ms = pos 7000;
  level = pos 2;
  logger = [];
  message = codes "up";
  category = pos 1;
}

abbrev taken : Writer
taken =
    handle_request engine (entry_of entry_of_line) (record (ended.1) { requests = sync_of 1 ∷ [] })

abbrev synced : Writer
synced = handle_request engine (sync_of 1) (record taken { requests = [] })

abbrev done : Call
done = answered 1 (ok tt) ended.0

done-Reach : Reach engine opened fresh done synced
unfolding receive upsert_source find equal add send_sync new_writer handle_request flush
    insert_entries insert_each
done-Reach =
    next
      (next
        (next
          (next
            (next (next here (receives (message (hello greeting_of)) (omega arith)))
              (receives (message (entry line)) (omega arith)))
            (receives end_of_stream (omega arith)))
          (writes taken (Steps.receiving (entry_of entry_of_line) (sync_of 1 ∷ []) refl)))
        (writes synced (Steps.receiving (sync_of 1) [] refl)))
      (gets_answer 1 1 (ok tt) [] [] refl refl)

synced-AllStored : AllStored synced.flushes
unfolding receive upsert_source find equal add send_sync new_writer handle_request flush
    insert_entries insert_each
synced-AllStored = (refl, tt)

done_phase : done.phase ≡ finished (acknowledged 1)
unfolding receive upsert_source find equal add send_sync new_writer
done_phase = refl

acknowledged_entries_are_stored_example :
    (length done.shipped ≡ 1)
    × ((id : ℕ) × All (λ e. e.source_id ≡ id) done.shipped)
    × ((stored : List Entry) × (table synced.store ≡ table start ++ stored)
        × Sublistᴰ done.shipped stored)
acknowledged_entries_are_stored_example =
    acknowledged_entries_are_stored engine 2 start none 1 (omega arith) done-Reach synced-AllStored
      done_phase
