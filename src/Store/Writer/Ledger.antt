-- ===== src/Store/Writer/Ledger.antt =====
-- What the writer has accepted, and where it is: in the flushes, the batch or the queue.
use hannah_logcollector.Prelude.{
  ℕ, ◌+◌, ◌<◌, ◌≤◌, ◌≡◌, refl, sym, ap, List, [], ◌∷◌, ◌++◌, append_assoc, append-nil, arith, All,
  length, length-append,
}
use hannah_logcollector.Store.{Entry}
use hannah_logcollector.Store.Sql.{Engine}
use hannah_logcollector.Store.Queries.{insert_entries}
use hannah_logcollector.Store.Writer.{
  Request, entry_of, sync_of, Flush, Writer, add, send_sync, is_ok, flush, flush_batch,
}

-- The entries of all flushes, in order.
abbrev pub flushed : List Flush → List Entry
flushed [] = []
flushed (f ∷ fs) = f.batch ++ flushed fs

-- The entries that wait in the queue.
abbrev pub queued : List Request → List Entry
queued [] = []
queued (entry_of e ∷ rest) = e ∷ queued rest
queued (sync_of _ ∷ rest) = queued rest

-- Each waiting `Sync` stands behind all entries that were accepted before it, of which `k` are out
-- of the queue.
abbrev pub InPlace : ℕ → List Request → Type 0
InPlace k [] = Unit
InPlace k (entry_of e ∷ rest) = InPlace (k + 1) rest
InPlace k (sync_of before ∷ rest) = (before ≡ k) × InPlace k rest

-- The writer's invariant.
pub record Accounts (w : Writer) : Type 0 where
  pub whole : w.accepted ≡ flushed w.flushes ++ (w.batch ++ queued w.requests)
  pub in_place : InPlace (length (flushed w.flushes) + length w.batch) w.requests
  pub answered : All (λ a. a.before ≤ length (flushed w.flushes)) w.answers
  pub queue_fits : length w.requests ≤ w.batch_size
  pub batch_fits : length w.batch < w.batch_size

flushed-append : (fs gs : List Flush) → flushed (fs ++ gs) ≡ flushed fs ++ flushed gs
flushed-append [] gs = refl
flushed-append (f ∷ fs) gs =
    rw (flushed-append fs gs) (sym (append_assoc f.batch (flushed fs) (flushed gs)))

queued-append : (qs rs : List Request) → queued (qs ++ rs) ≡ queued qs ++ queued rs
queued-append [] rs = refl
queued-append (entry_of e ∷ qs) rs = ap (◌∷◌ e) (queued-append qs rs)
queued-append (sync_of b ∷ qs) rs = queued-append qs rs

InPlace-entry :
    (k : ℕ) (qs : List Request) (e : Entry) → InPlace k qs → InPlace k (qs ++ entry_of e ∷ [])
InPlace-entry k [] e h = tt
InPlace-entry k (entry_of _ ∷ qs) e h = InPlace-entry (k + 1) qs e h
InPlace-entry k (sync_of b ∷ qs) e h = (h.0, InPlace-entry k qs e h.1)

InPlace-sync :
    (k b : ℕ) (qs : List Request)
    → InPlace k qs
    → b ≡ k + length (queued qs)
    → InPlace k (qs ++ sync_of b ∷ [])
InPlace-sync k b [] h e = (omega arith, tt)
InPlace-sync k b (entry_of _ ∷ qs) h e = InPlace-sync (k + 1) b qs h (omega arith)
InPlace-sync k b (sync_of _ ∷ qs) h e = (h.0, InPlace-sync k b qs h.1 e)

pub add-Accounts :
    (e : Entry) (w : Writer) → length w.requests < w.batch_size → Accounts w → Accounts (add e w)
unfolding add
add-Accounts e w room a = record {
  whole = rw (
    a.whole,
    queued-append w.requests (entry_of e ∷ []),
    append_assoc (flushed w.flushes) (w.batch ++ queued w.requests) (e ∷ []),
    append_assoc w.batch (queued w.requests) (e ∷ []),
  );
  in_place = InPlace-entry _ w.requests e a.in_place;
  answered = a.answered;
  queue_fits = omega (arith, length-append w.requests (entry_of e ∷ []));
  batch_fits = a.batch_fits;
}

pub send_sync-Accounts :
    (w : Writer) → length w.requests < w.batch_size → Accounts w → Accounts (send_sync w)
unfolding send_sync
send_sync-Accounts w room a = record {
  whole =
      rw
        (
          queued-append w.requests (sync_of (length w.accepted) ∷ []),
          append-nil (queued w.requests),
        )
        a.whole;
  in_place = InPlace-sync _ (length w.accepted) w.requests a.in_place (
      omega (
        arith,
        ap length a.whole,
        length-append (flushed w.flushes) (w.batch ++ queued w.requests),
        length-append w.batch (queued w.requests),
      ));
  answered = a.answered;
  queue_fits = omega (arith, length-append w.requests (sync_of (length w.accepted) ∷ []));
  batch_fits = a.batch_fits;
}

-- What a flush does: the batch goes to the flushes, and nothing else but the store changes.
pub record Flushed (w w' : Writer) : Type 0 where
  pub emptied : w'.batch ≡ []
  pub moved : flushed w'.flushes ≡ flushed w.flushes ++ w.batch
  pub requests_same : w'.requests ≡ w.requests
  pub accepted_same : w'.accepted ≡ w.accepted
  pub answers_same : w'.answers ≡ w.answers
  pub size_same : w'.batch_size ≡ w.batch_size

flush_batch-Flushed :
    (g : Engine) (b : List Entry) (w : Writer) → w.batch ≡ b → Flushed w (flush_batch g b w).1
flush_batch-Flushed g [] w h = record {
  emptied = h;
  moved = rw (h, append-nil (flushed w.flushes));
  requests_same = refl;
  accepted_same = refl;
  answers_same = refl;
  size_same = refl;
}
flush_batch-Flushed g (e ∷ es) w h = record {
  emptied = refl;
  moved = rw (
    flushed-append w.flushes
        (record { batch = e ∷ es; stored = is_ok (insert_entries g (e ∷ es) w.store).0 } ∷ []),
    h,
    append-nil (e ∷ es),
  );
  requests_same = refl;
  accepted_same = refl;
  answers_same = refl;
  size_same = refl;
}

pub flush-Flushed : (g : Engine) (w : Writer) → Flushed w (flush g w).1
unfolding flush
flush-Flushed g w = flush_batch-Flushed g w.batch w refl

-- The invariant where the entry or the sync at hand is out of the queue: `batch` may be full.
pub record Between (w : Writer) : Type 0 where
  pub whole : w.accepted ≡ flushed w.flushes ++ (w.batch ++ queued w.requests)
  pub in_place : InPlace (length (flushed w.flushes) + length w.batch) w.requests
  pub answered : All (λ a. a.before ≤ length (flushed w.flushes)) w.answers
  pub queue_fits : length w.requests ≤ w.batch_size
