-- ===== src/Store/Writer/Stored.antt =====
-- What the store holds of the entries that were accepted.
use hannah_logcollector.Prelude.{
  ℕ, ◌+◌, ◌≡◌, ◌<◌, ◌≤◌, refl, sym, ◌∙◌, true, List, [], ◌∷◌, ◌++◌, append_assoc, append-nil, ◌⊎◌,
  map, Option, if◌then◌else◌, leb, inl, inr, All, length, Bool-cases,
}
use hannah_logcollector.Store.{Entry}
use hannah_logcollector.Store.Sql.{Row, Engine, State, Result, ok, failed}
use hannah_logcollector.Store.Queries.{insert_entries}
use hannah_logcollector.Store.Queries.Inserts.{added_by, stored_or_not, SomeFailed}
use hannah_logcollector.Forward.Queue.{Ring}
use hannah_logcollector.Store.Writer.{
  Request, entry_of, sync_of, Flush, Writer, new_writer, add, send_sync, is_ok, flush, flush_batch,
  push, handle_request,
}
use hannah_logcollector.Store.Writer.Account.{running_writer-Accounts}
use hannah_logcollector.Store.Writer.Ledger.{flushed, queued}
use hannah_logcollector.Store.Writer.Steps.{
  Step, adding, syncing, receiving, ticking, Reach, here, next,
}

abbrev pub table : State → List Entry
table s = map (λ (r : Row). r.entry) s.db.entries

-- The entries of the flushes that could be stored.
abbrev pub stored_by : List Flush → List Entry
stored_by [] = []
stored_by (f ∷ fs) = (if f.stored then f.batch else []) ++ stored_by fs

stored_by-append : (fs gs : List Flush) → stored_by (fs ++ gs) ≡ stored_by fs ++ stored_by gs
stored_by-append [] gs = refl
stored_by-append (f ∷ fs) gs =
    rw (stored_by-append fs gs)
      (sym (append_assoc (if f.stored then f.batch else []) (stored_by fs) (stored_by gs)))

-- The table holds what it held at the start, and the stored flushes.
abbrev pub Holds : List Entry → Writer → Type 0
Holds base w = table w.store ≡ base ++ stored_by w.flushes

added_if_ok :
    (r : Result (Unit {0})) (es : List Entry) → added_by r es ≡ (if is_ok r then es else [])
added_if_ok (ok _) es = refl
added_if_ok failed es = refl

module _ (g : Engine) (base : List Entry) where
  flush_batch-Holds :
      (b : List Entry) (w : Writer) → Holds base w → Holds base (flush_batch g b w).1
  flush_batch-Holds [] w h = h
  flush_batch-Holds (e ∷ es) w h =
      let r = (insert_entries g (e ∷ es) w.store).0 in
      stored_or_not g (e ∷ es) w.store
      ∙ rw (
        h,
        added_if_ok r (e ∷ es),
        stored_by-append w.flushes (record { batch = e ∷ es; stored = is_ok r } ∷ []),
        append-nil (if is_ok r then e ∷ es else []),
        append_assoc base (stored_by w.flushes) (if is_ok r then e ∷ es else []),
      )

  flush-Holds : (w : Writer) → Holds base w → Holds base (flush g w).1
  unfolding flush
  flush-Holds w h = flush_batch-Holds w.batch w h

  handle_request-Holds :
      (req : Request) (w : Writer) → Holds base w → Holds base (handle_request g req w)
  unfolding handle_request
  handle_request-Holds (entry_of e) w h =
      elim (Bool-cases (leb w.batch_size (length w.batch + 1))) [
        | inl full ↦ rw full (flush-Holds (push e w) h)
        | inr room ↦ rw room h
      ]
  handle_request-Holds (sync_of before) w h = flush-Holds w h

pub Step-Holds :
    {g : Engine} {w v : Writer} (base : List Entry) → Step g w v → Holds base w → Holds base v
unfolding add send_sync
Step-Holds base (adding e room) h = h
Step-Holds base (syncing room) h = h
Step-Holds {g} {w} base (receiving req rest q) h =
    handle_request-Holds g base req (record w { requests = rest }) h
Step-Holds {g} {w} base ticking h = flush-Holds g base w h

Reach-Holds :
    {g : Engine} {w v : Writer} (base : List Entry) → Reach g w v → Holds base w → Holds base v
Reach-Holds base here h = h
Reach-Holds base (next r st) h = Step-Holds base st (Reach-Holds base r h)

pub new_writer-Holds :
    (size : ℕ) (s : State) (tap : Option Ring) → Holds (table s) (new_writer size s tap)
unfolding new_writer
new_writer-Holds size s tap = sym (append-nil (table s))

-- No flush has failed so far.
abbrev pub AllStored : List Flush → Type 0
AllStored = All (λ f. f.stored ≡ true)

pub stored_by-flushed : (fs : List Flush) → AllStored fs → stored_by fs ≡ flushed fs
stored_by-flushed [] h = refl
stored_by-flushed (f ∷ fs) h = rw (h.0, stored_by-flushed fs h.1)

-- A batch is only lost with a statement of the database that failed.
abbrev pub Excused : Engine → List Flush → Type 0
Excused g = All (λ f. (f.stored ≡ true) ⊎ SomeFailed g)

-- From a new writer with a batch size above zero, and while no flush fails, the table holds what
-- it held at the start and then the accepted entries in order, but for those that still are in
-- the batch and the queue; and every entry that was accepted before an answered `Sync` is in the
-- table. (What else changes the table, such as the retention, does not run between.)
pub synced_entries_are_stored :
    (g : Engine) (size : ℕ) (s : State) (tap : Option Ring) {w : Writer}
    → 0 < size
    → Reach g (new_writer size s tap) w
    → AllStored w.flushes
    → (stored : List Entry) × (table w.store ≡ table s ++ stored)
      × (w.accepted ≡ stored ++ (w.batch ++ queued w.requests))
      × All (λ a. a.before ≤ length stored) w.answers
synced_entries_are_stored g size s tap {w} pos r fine =
    let a = running_writer-Accounts g size s tap pos r in
    (
      flushed w.flushes,
      Reach-Holds (table s) r (new_writer-Holds size s tap) ∙ rw (stored_by-flushed w.flushes fine),
      a.whole,
      a.answered,
    )
