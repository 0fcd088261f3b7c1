-- ===== src/Tests/Writer.antt =====
-- The batching writer on a sample schedule.
use hannah_logcollector.Prelude.{◌≡◌, ◌≤◌, refl, List, [], ◌∷◌, ◌++◌, All, length, none, arith}
use hannah_logcollector.Store.{Entry}
use hannah_logcollector.Store.Writer.{
  entry_of, sync_of, Writer, new_writer, add, send_sync, handle_request, flush, stop,
}
use hannah_logcollector.Store.Writer.Steps.{Reach, here, next, adding, syncing, receiving}
use hannah_logcollector.Store.Writer.Account.{running_writer-Accounts}
use hannah_logcollector.Store.Writer.Ledger.{flushed, queued}
use hannah_logcollector.Store.Writer.Stored.{AllStored, table, synced_entries_are_stored}
use hannah_logcollector.Store.Writer.Shutdown.{drained_answers, stop_flushes_all}
use hannah_logcollector.Tests.Samples.{warning}
use hannah_logcollector.Store.Queries.{insert_entries, insert_each}
use hannah_logcollector.Tests.Store.{engine, start}

abbrev fresh : Writer
fresh = new_writer 2 start none

abbrev called : Writer
called = send_sync (add warning fresh)

called-Reach : Reach engine fresh called
unfolding add new_writer
called-Reach = next (next here (adding warning (omega arith))) (syncing (omega arith))

-- The entry taken out of the queue, and the sync answered.
abbrev taken : Writer
taken = handle_request engine (entry_of warning) (record called { requests = sync_of 1 ∷ [] })

abbrev synced : Writer
synced = handle_request engine (sync_of 1) (record taken { requests = [] })

synced-Reach : Reach engine fresh synced
unfolding add send_sync new_writer handle_request
synced-Reach =
    next (next called-Reach (receiving (entry_of warning) (sync_of 1 ∷ []) refl))
      (receiving (sync_of 1) [] refl)

synced-AllStored : AllStored synced.flushes
unfolding add send_sync new_writer handle_request flush insert_entries insert_each
synced-AllStored = (refl, tt)

synced_entries_are_stored_example :
    (stored : List Entry) × (table synced.store ≡ table start ++ stored)
    × (synced.accepted ≡ stored ++ (synced.batch ++ queued synced.requests))
    × All (λ a. a.before ≤ length stored) synced.answers
synced_entries_are_stored_example =
    synced_entries_are_stored engine 2 start none (omega arith) synced-Reach synced-AllStored

stop_flushes_all_example :
    ((stop engine called).requests ≡ [])
    × ((stop engine called).batch ≡ [])
    × (flushed (stop engine called).flushes ≡ called.accepted)
    × ((stop engine called).answers ≡ called.answers ++ drained_answers called.requests)
stop_flushes_all_example =
    stop_flushes_all engine called
      (running_writer-Accounts engine 2 start none (omega arith) called-Reach)
