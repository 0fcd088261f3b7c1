-- ===== src/Store/Writer.antt =====
-- internal/store/writer.go: the entries of all streams are written in batches.
pub mod Steps
pub mod Ledger
pub mod Account
pub mod Stored
pub mod Shutdown
pub mod Growth
use hannah_logcollector.Prelude.{
  ℕ, ◌+◌, Bool, true, false, List, [], ◌∷◌, ◌++◌, Option, leb, if◌then◌else◌, length,
}
use mathlib.Core.Option
use hannah_logcollector.Store.{Entry}
use hannah_logcollector.Store.Sql.{Engine, State, Result, ok, failed}
use hannah_logcollector.Store.Queries.{insert_entries}
use hannah_logcollector.Forward.Queue.{Ring, offer}

-- `writeRequest`: `Add` sends an entry, `Sync` a channel for its answer. A call of `Sync` is told by
-- the number of entries that were accepted before it.
pub data Request : Type 0 where
  entry_of : Entry → Request
  sync_of : ℕ → Request

-- A call of `InsertEntries`, and whether it stored the batch.
pub record Flush : Type 0 where
  pub batch : List Entry
  pub stored : Bool

-- What `Sync` returned to a call.
pub record Answer : Type 0 where
  pub before : ℕ
  pub result : Result (Unit {0})

-- `Writer` and the variables of `Run`. The queue is the buffered channel, of capacity `batch_size`.
-- `accepted`, `flushes` and `answers` are the history: what `Add` has queued, what `Run` has
-- written, and what it has answered. The tap is the forwarder's `Offer`, if there is a forwarder.
pub record Writer : Type 0 where
  pub batch_size : ℕ
  pub requests : List Request
  pub batch : List Entry
  pub store : State
  pub tap : Option Ring
  pub accepted : List Entry
  pub flushes : List Flush
  pub answers : List Answer

-- `NewWriter`, and the start of `Run`.
unfoldable pub new_writer : ℕ → State → Option Ring → Writer
new_writer batch_size store tap = record {
  batch_size = batch_size;
  requests = [];
  batch = [];
  store = store;
  tap = tap;
  accepted = [];
  flushes = [];
  answers = [];
}

-- `Add`, once the channel has room.
unfoldable pub add : Entry → Writer → Writer
add e w = record w {
  requests = w.requests ++ entry_of e ∷ [];
  tap = Option.map (λ f. offer f e) w.tap;
  accepted = w.accepted ++ e ∷ [];
}

-- The sending half of `Sync`, once the channel has room.
unfoldable pub send_sync : Writer → Writer
send_sync w = record w { requests = w.requests ++ sync_of (length w.accepted) ∷ [] }

abbrev pub answer : ℕ → Result (Unit {0}) → Writer → Writer
answer before r w = record w { answers = w.answers ++ record { before = before; result = r } ∷ [] }

abbrev pub is_ok : Result (Unit {0}) → Bool
is_ok (ok _) = true
is_ok failed = false

-- `batch = append(batch, *req.entry)`
abbrev pub push : Entry → Writer → Writer
push e w = record w { batch = w.batch ++ e ∷ [] }

module _ (g : Engine) where
  abbrev pub flush_batch : List Entry → Writer → Result (Unit {0}) × Writer
  flush_batch [] w = (ok tt, w)
  flush_batch (e ∷ es) w =
      let (r, s) = insert_entries g (e ∷ es) w.store in
      (
        r,
        record w {
          batch = [];
          store = s;
          flushes = w.flushes ++ record { batch = e ∷ es; stored = is_ok r } ∷ [];
        },
      )

  -- `flush`: the batch is emptied whether it could be stored or not.
  unfoldable pub flush : Writer → Result (Unit {0}) × Writer
  flush w = flush_batch w.batch w

  -- `case req := <-w.requests`
  unfoldable pub handle_request : Request → Writer → Writer
  handle_request (entry_of e) w =
      if leb w.batch_size (length w.batch + 1) then (flush (push e w)).1 else push e w
  handle_request (sync_of before) w = let (r, w') = flush w in answer before r w'

  -- `drain`: a `Sync` is answered at once.
  unfoldable pub drain : List Request → Writer → Writer
  drain [] w = w
  drain (entry_of e ∷ rest) w = drain rest (push e w)
  drain (sync_of before ∷ rest) w = drain rest (answer before (ok tt) w)

  -- `case <-ctx.Done()`
  unfoldable pub stop : Writer → Writer
  stop w = (flush (drain w.requests (record w { requests = [] }))).1
