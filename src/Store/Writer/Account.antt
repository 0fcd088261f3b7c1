-- ===== src/Store/Writer/Account.antt =====
-- Every accepted entry is accounted for, and what `Sync` may promise.
use mathlib.Core.Path.{subst}
use hannah_logcollector.Prelude.{
  ℕ, ◌+◌, ◌<◌, ◌≤◌, ◌≡◌, refl, sym, ap, ◌∙◌, List, [], ◌∷◌, ◌++◌, append_assoc, Option, arith, leb,
  All, All-append, length, length-append, Bool-cases, inl, inr,
}
use hannah_logcollector.Store.{Entry}
use hannah_logcollector.Store.Sql.{Engine, State}
use hannah_logcollector.Store.Writer.{
  Request, entry_of, sync_of, Answer, Writer, new_writer, flush, push, handle_request,
}
use hannah_logcollector.Forward.Queue.{Ring}
use hannah_logcollector.Store.Writer.Steps.{
  Step, adding, syncing, receiving, ticking, Reach, here, next,
}
use hannah_logcollector.Store.Writer.Ledger.{
  flushed, queued, InPlace, Accounts, add-Accounts, send_sync-Accounts, flush-Flushed, Between,
}

answered_later :
    (xs : List Answer) (m n : ℕ) → m ≤ n → All (λ a. a.before ≤ m) xs → All (λ a. a.before ≤ n) xs
answered_later [] m n h all = tt
answered_later (x ∷ xs) m n h all = (omega arith, answered_later xs m n h all.1)

flush-Accounts : (g : Engine) (w : Writer) → 0 < w.batch_size → Between w → Accounts (flush g w).1
flush-Accounts g w pos b =
    let f = flush-Flushed g w in
    let count = length-append (flushed w.flushes) w.batch in
    record {
      whole =
          rw
            (
              f.accepted_same,
              f.moved,
              f.emptied,
              f.requests_same,
              append_assoc (flushed w.flushes) w.batch (queued w.requests),
            )
            b.whole;
      in_place =
          rw (f.moved, f.emptied, f.requests_same)
            (subst (λ k. InPlace k w.requests) (omega arith) b.in_place);
      answered =
          rw (f.moved, f.answers_same)
            (answered_later w.answers (length (flushed w.flushes)) _ (omega arith) b.answered);
      queue_fits = rw (f.requests_same, f.size_same) b.queue_fits;
      batch_fits = rw (f.emptied, f.size_same) pos;
    }

-- Taking an entry out of the queue into the batch.
push-Between :
    (e : Entry) (rest : List Request) (w : Writer)
    → w.requests ≡ entry_of e ∷ rest
    → Accounts w
    → Between (push e (record w { requests = rest }))
push-Between e rest w q a =
    let count = length-append w.batch (e ∷ []) in
    let at_front = subst (InPlace (length (flushed w.flushes) + length w.batch)) q a.in_place in
    record {
      whole =
          a.whole
          ∙ rw q (
              ap (λ t. flushed w.flushes ++ t) (sym (append_assoc w.batch (e ∷ []) (queued rest))));
      in_place = subst (λ k. InPlace k rest) (omega arith) at_front;
      answered = a.answered;
      queue_fits = omega (arith, a.queue_fits, ap length q);
    }

handle_entry-Accounts :
    (g : Engine) (e : Entry) (rest : List Request) (w : Writer)
    → w.requests ≡ entry_of e ∷ rest
    → Accounts w
    → Accounts (handle_request g (entry_of e) (record w { requests = rest }))
unfolding handle_request
handle_entry-Accounts g e rest w q a =
    let b = push-Between e rest w q a in
    let w' : Writer = push e (record w { requests = rest }) in
    elim (Bool-cases (leb w.batch_size (length w.batch + 1))) [
      | inl full ↦ rw full (flush-Accounts g w' (omega (arith, a.batch_fits)) b)
      | inr room ↦ rw room (record {
        whole = b.whole;
        in_place = b.in_place;
        answered = b.answered;
        queue_fits = b.queue_fits;
        batch_fits =
            let below : length w.batch + 1 < w.batch_size = ground arith in
            omega (arith, length-append w.batch (e ∷ []));
      })
    ]

handle_sync-Accounts :
    (g : Engine) (before : ℕ) (rest : List Request) (w : Writer)
    → w.requests ≡ sync_of before ∷ rest
    → Accounts w
    → Accounts (handle_request g (sync_of before) (record w { requests = rest }))
unfolding handle_request
handle_sync-Accounts g before rest w q a =
    let w' : Writer = record w { requests = rest } in
    let at_front = subst (InPlace (length (flushed w.flushes) + length w.batch)) q a.in_place in
    let b : Between w' = record {
      whole = a.whole ∙ rw q refl;
      in_place = at_front.1;
      answered = a.answered;
      queue_fits = omega (arith, a.queue_fits, ap length q);
    } in
    let done = flush-Accounts g w' (omega (arith, a.batch_fits)) b in
    let moved = (flush-Flushed g w').moved in
    record {
      whole = done.whole;
      in_place = done.in_place;
      answered = All-append _ (flush g w').1.answers _ done.answered (
        omega (arith, at_front.0, ap length moved, length-append (flushed w.flushes) w.batch),
        tt,
      );
      queue_fits = done.queue_fits;
      batch_fits = done.batch_fits;
    }

pub Step-Accounts : {g : Engine} {w v : Writer} → Step g w v → Accounts w → Accounts v
Step-Accounts {w} (adding e room) a = add-Accounts e w room a
Step-Accounts {w} (syncing room) a = send_sync-Accounts w room a
Step-Accounts {g} {w} (receiving (entry_of e) rest q) a = handle_entry-Accounts g e rest w q a
Step-Accounts {g} {w} (receiving (sync_of before) rest q) a =
    handle_sync-Accounts g before rest w q a
Step-Accounts {g} {w} ticking a = flush-Accounts g w (omega (arith, a.batch_fits)) (record {
  whole = a.whole;
  in_place = a.in_place;
  answered = a.answered;
  queue_fits = a.queue_fits;
})

Reach-Accounts : {g : Engine} {w v : Writer} → Reach g w v → Accounts w → Accounts v
Reach-Accounts here a = a
Reach-Accounts (next r st) a = Step-Accounts st (Reach-Accounts r a)

pub new_writer-Accounts :
    (size : ℕ) (s : State) (tap : Option Ring) → 0 < size → Accounts (new_writer size s tap)
unfolding new_writer
new_writer-Accounts size s tap h = record {
  whole = refl;
  in_place = tt;
  answered = tt;
  queue_fits = omega arith;
  batch_fits = h;
}

-- However the calls and the loop interleave from a new writer with a batch size above zero, as
-- long as it runs: the accepted entries are those of the flushes so far, the batch and the queue,
-- in this order, none lost or doubled; a `Sync` that was answered has all entries accepted before
-- it in the flushes; and neither the queue nor the batch outgrows the batch size.
pub running_writer-Accounts :
    (g : Engine) (size : ℕ) (s : State) (tap : Option Ring) {w : Writer}
    → 0 < size
    → Reach g (new_writer size s tap) w
    → Accounts w
running_writer-Accounts g size s tap h r = Reach-Accounts r (new_writer-Accounts size s tap h)
