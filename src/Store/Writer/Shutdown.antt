-- ===== src/Store/Writer/Shutdown.antt =====
-- The end of `Run`: what the writer still does when its context is cancelled.
use hannah_logcollector.Prelude.{◌≡◌, refl, sym, ◌∙◌, List, [], ◌∷◌, ◌++◌, append_assoc, append-nil}
use hannah_logcollector.Store.Sql.{Engine, ok}
use hannah_logcollector.Store.Writer.{
  Request, entry_of, sync_of, Answer, Writer, answer, push, drain, stop,
}
use hannah_logcollector.Store.Writer.Ledger.{flushed, queued, Accounts, flush-Flushed}

-- The answers that `drain` gives.
abbrev pub drained_answers : List Request → List Answer
drained_answers [] = []
drained_answers (entry_of _ ∷ rest) = drained_answers rest
drained_answers (sync_of before ∷ rest) =
    record { before = before; result = ok tt } ∷ drained_answers rest

record Drained (qs : List Request) (w w' : Writer) : Type 0 where
  batch_is : w'.batch ≡ w.batch ++ queued qs
  answers_are : w'.answers ≡ w.answers ++ drained_answers qs
  requests_same : w'.requests ≡ w.requests
  flushes_same : w'.flushes ≡ w.flushes
  accepted_same : w'.accepted ≡ w.accepted

drain-Drained : (g : Engine) (qs : List Request) (w : Writer) → Drained qs w (drain g qs w)
unfolding drain
drain-Drained g [] w = record {
  batch_is = sym (append-nil w.batch);
  answers_are = sym (append-nil w.answers);
  requests_same = refl;
  flushes_same = refl;
  accepted_same = refl;
}
drain-Drained g (entry_of e ∷ qs) w =
    let d = drain-Drained g qs (push e w) in
    record {
      batch_is = d.batch_is ∙ append_assoc w.batch (e ∷ []) (queued qs);
      answers_are = d.answers_are;
      requests_same = d.requests_same;
      flushes_same = d.flushes_same;
      accepted_same = d.accepted_same;
    }
drain-Drained g (sync_of b ∷ qs) w =
    let d = drain-Drained g qs (answer b (ok tt) w) in
    record {
      batch_is = d.batch_is;
      answers_are =
          d.answers_are
          ∙ append_assoc w.answers (record { before = b; result = ok tt } ∷ [])
              (drained_answers qs);
      requests_same = d.requests_same;
      flushes_same = d.flushes_same;
      accepted_same = d.accepted_same;
    }

-- On the shutdown of a writer whose accounts are right, the queue and the batch are emptied into
-- a last flush, so that every entry ever accepted has been in a flush, in order. Every `Sync`
-- that still waits is told that all is well, whatever becomes of that flush, which runs behind
-- the answers.
pub stop_flushes_all :
    (g : Engine) (w : Writer)
    → Accounts w
    → ((stop g w).requests ≡ [])
      × ((stop g w).batch ≡ [])
      × (flushed (stop g w).flushes ≡ w.accepted)
      × ((stop g w).answers ≡ w.answers ++ drained_answers w.requests)
unfolding stop
stop_flushes_all g w a =
    let w' : Writer = record w { requests = [] } in
    let d = drain-Drained g w.requests w' in
    let f = flush-Flushed g (drain g w.requests w') in
    (
      f.requests_same ∙ d.requests_same,
      f.emptied,
      f.moved ∙ rw (d.flushes_same, d.batch_is) (sym a.whole),
      f.answers_same ∙ d.answers_are,
    )
