-- ===== src/Store/Writer/Growth.antt =====
-- What was accepted stays accepted, and what was flushed stays flushed.
use hannah_logcollector.Prelude.{
  ◌≡◌, refl, sym, ◌∙◌, ◌+◌, List, [], ◌∷◌, ◌++◌, append-nil, inl, inr, Bool-cases, leb, length,
}
use hannah_logcollector.Store.{Entry}
use hannah_logcollector.Store.Sql.{Engine, State}
use hannah_logcollector.Store.Writer.{
  Request, entry_of, sync_of, Writer, add, send_sync, flush, handle_request, push,
}
use hannah_logcollector.Store.Writer.Steps.{Step, adding, syncing, receiving, ticking}
use hannah_logcollector.Store.Writer.Ledger.{flushed, flush-Flushed}

pub record Grows (w v : Writer) : Type 0 where
  pub added : List Entry
  pub accepted_more : v.accepted ≡ w.accepted ++ added
  pub written : List Entry
  pub flushed_more : flushed v.flushes ≡ flushed w.flushes ++ written

Grows-refl : (w : Writer) → Grows w w
Grows-refl w = record {
  added = [];
  accepted_more = sym (append-nil w.accepted);
  written = [];
  flushed_more = sym (append-nil (flushed w.flushes));
}

pub store-Grows : (w : Writer) (s : State) → Grows w (record w { store = s })
store-Grows w s = record {
  added = [];
  accepted_more = sym (append-nil w.accepted);
  written = [];
  flushed_more = sym (append-nil (flushed w.flushes));
}

flush-Grows : (g : Engine) (w : Writer) → Grows w (flush g w).1
flush-Grows g w =
    let f = flush-Flushed g w in
    record {
      added = [];
      accepted_more = f.accepted_same ∙ sym (append-nil w.accepted);
      written = w.batch;
      flushed_more = f.moved;
    }

handle_request-Grows : (g : Engine) (req : Request) (w : Writer) → Grows w (handle_request g req w)
unfolding handle_request
handle_request-Grows g (entry_of e) w = elim (Bool-cases (leb w.batch_size (length w.batch + 1))) [
  | inl full ↦ rw full (
      let f = flush-Grows g (push e w) in
      record {
        added = f.added;
        accepted_more = f.accepted_more;
        written = f.written;
        flushed_more = f.flushed_more;
      })
  | inr room ↦ rw room (
      let f = Grows-refl w in
      record {
        added = f.added;
        accepted_more = f.accepted_more;
        written = f.written;
        flushed_more = f.flushed_more;
      })
]
handle_request-Grows g (sync_of before) w =
    let f = flush-Grows g w in
    record {
      added = f.added;
      accepted_more = f.accepted_more;
      written = f.written;
      flushed_more = f.flushed_more;
    }

pub Step-Grows : {g : Engine} {w v : Writer} → Step g w v → Grows w v
unfolding add send_sync
Step-Grows {w} (adding e room) = record {
  added = e ∷ [];
  accepted_more = refl;
  written = [];
  flushed_more = sym (append-nil (flushed w.flushes));
}
Step-Grows {w} (syncing room) =
    let f = Grows-refl w in
    record {
      added = f.added;
      accepted_more = f.accepted_more;
      written = f.written;
      flushed_more = f.flushed_more;
    }
Step-Grows {g} {w} (receiving req rest q) =
    let f = handle_request-Grows g req (record w { requests = rest }) in
    record {
      added = f.added;
      accepted_more = f.accepted_more;
      written = f.written;
      flushed_more = f.flushed_more;
    }
Step-Grows {g} {w} ticking = flush-Grows g w
