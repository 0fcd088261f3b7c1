-- ===== src/Server/Ship/Durable.antt =====
-- What an acknowledgement of `Ship` promises.
use mathlib.Core.List.{Sublistᴰ}
use mathlib.Core.List.Sublistᴰ
use mathlib.Core.Path.{subst}
use hannah_logcollector.Prelude.{
  ℕ, ◌<◌, ◌≤◌, ◌≡◌, refl, ◌∙◌, List, [], ◌∷◌, ◌++◌, All, All-append, length, length-append, take,
  Option, arith, Bool-cases, inl, inr,
}
use hannah_logcollector.Prelude.Perm.{All-of_append}
use hannah_logcollector.Text.{is_empty}
use hannah_logcollector.Forward.Queue.{Ring}
use hannah_logcollector.Store.{Entry}
use hannah_logcollector.Store.Sql.{Engine, State, Result, ok, failed}
use hannah_logcollector.Store.Queries.{upsert_source, insert_gap}
use hannah_logcollector.Store.Writer.{Writer, Answer, new_writer, add, send_sync}
use hannah_logcollector.Store.Writer.Steps
use hannah_logcollector.Store.Writer.Account.{Step-Accounts, new_writer-Accounts}
use hannah_logcollector.Store.Writer.Ledger.{flushed}
use hannah_logcollector.Store.Writer.Stored.{
  table, AllStored, stored_by-flushed, Step-Holds, new_writer-Holds,
}
use hannah_logcollector.Server.Ship.{
  Received, message, end_of_stream, broken, hello, entry, gap, unknown, Hello, acknowledged, Phase,
  greeting, shipping, syncing, finished, Call, opened, receive, registered, register, greet,
  take_in, receive_in, answered, cancel, cancel_in, invalid_argument, internal, disconnected,
  cancelled, entry_from, gap_from,
}
use hannah_logcollector.Server.Ship.Steps.{
  HasRoomFor, MayGoOn, Step, receives, gets_answer, cancels, writes, elsewhere, Reach, here, next,
}
use hannah_logcollector.Server.Ship.Inv.{
  InPhase, take-length, take-Sublist, Safe, table-insert_gap, table-upsert_source, store-Safe,
  writes-Safe, move_to-Safe,
}

module _ (g : Engine) (base : List Entry) where
  registered-Safe :
      (out : Result ℕ × State) (c : Call) (w : Writer)
      → c.shipped ≡ []
      → table out.1 ≡ table w.store
      → Safe base c w
      → Safe base (registered out c w).0 (registered out c w).1
  registered-Safe (failed, s) c w none_yet same h =
      move_to-Safe (finished internal) tt (store-Safe base c w s same h)
  registered-Safe (ok id, s) c w none_yet same h =
      move_to-Safe (shipping id 0)
        (rw none_yet (Sublistᴰ.nil-sublist w.accepted), rw none_yet refl, rw none_yet tt)
        (store-Safe base c w s same h)

  register-Safe :
      (h : Hello) (c : Call) (w : Writer)
      → c.shipped ≡ []
      → Safe base c w
      → Safe base (register g h c w).0 (register g h c w).1
  register-Safe h c w none_yet s = elim (Bool-cases (is_empty h.component)) [
    | inl nameless ↦ rw nameless (move_to-Safe (finished invalid_argument) tt s)
    | inr fine ↦ rw fine (
        registered-Safe (upsert_source g h.component h.instance_name h.version w.store) c w none_yet
          (table-upsert_source g h w.store) s)
  ]

  greet-Safe :
      (r : Received) (c : Call) (w : Writer)
      → c.shipped ≡ []
      → Safe base c w
      → Safe base (greet g r c w).0 (greet g r c w).1
  greet-Safe end_of_stream c w none_yet s =
      move_to-Safe (finished (acknowledged 0))
        (
          rw none_yet (Sublistᴰ.nil-sublist (flushed w.flushes)),
          rw none_yet refl,
          (0, rw none_yet tt),
        )
        s
  greet-Safe broken c w none_yet s = move_to-Safe (finished disconnected) tt s
  greet-Safe (message (hello h)) c w none_yet s = register-Safe h c w none_yet s
  greet-Safe (message (entry _)) c w none_yet s = move_to-Safe (finished invalid_argument) tt s
  greet-Safe (message (gap _)) c w none_yet s = move_to-Safe (finished invalid_argument) tt s
  greet-Safe (message unknown) c w none_yet s = move_to-Safe (finished invalid_argument) tt s

  take_in-Safe :
      (id n : ℕ) (r : Received) (c : Call) (w : Writer)
      → HasRoomFor r w
      → c.phase ≡ shipping id n
      → InPhase (shipping id n) c.shipped w
      → Safe base c w
      → Safe base (take_in g id n r c w).0 (take_in g id n r c w).1
  take_in-Safe id n end_of_stream c w room ph (s, count, named) h =
      let h' = writes-Safe {g = g} base c (Steps.syncing room) h in
      move_to-Safe (syncing (length w.accepted) n)
        (unfold send_sync in (rw (take-length w.accepted) s, count, omega arith, (id, named))) h'
  take_in-Safe id n broken c w room ph h s = move_to-Safe (finished disconnected) tt s
  take_in-Safe id n (message (entry e)) c w room ph (s, count, named) h = record {
    accounts = Step-Accounts {g = g} (Steps.adding (entry_from id e) room) h.accounts;
    holds = Step-Holds {g = g} base (Steps.adding (entry_from id e) room) h.holds;
    in_phase =
        unfold add in
        (
          Sublistᴰ.append s (Sublistᴰ.refl (entry_from id e ∷ [])),
          omega (arith, length-append c.shipped (entry_from id e ∷ [])),
          All-append (λ e. e.source_id ≡ id) c.shipped (entry_from id e ∷ []) named (refl, tt),
        );
  }
  take_in-Safe id n (message (gap x)) c w room ph in_ph s =
      store-Safe base c w (insert_gap g (gap_from id x) w.store).1
        (table-insert_gap g (gap_from id x) w.store) s
  take_in-Safe id n (message (hello _)) c w room ph in_ph s = s
  take_in-Safe id n (message unknown) c w room ph in_ph s = s

  receive_in-Safe :
      (at_phase : Phase) (r : Received) (c : Call) (w : Writer)
      → MayGoOn at_phase r w
      → c.phase ≡ at_phase
      → Safe base c w
      → Safe base (receive_in g at_phase r c w).0 (receive_in g at_phase r c w).1
  receive_in-Safe greeting r c w room ph s =
      greet-Safe r c w (subst (λ t. InPhase t c.shipped w) ph s.in_phase) s
  receive_in-Safe (shipping id n) r c w room ph s =
      take_in-Safe id n r c w room ph (subst (λ t. InPhase t c.shipped w) ph s.in_phase) s
  receive_in-Safe (syncing _ _) r c w room ph s = s
  receive_in-Safe (finished _) r c w room ph s = s

  answered-Safe :
      (before n : ℕ) (result : Result (Unit {0})) (earlier later : List Answer) (c : Call)
      (w : Writer)
      → c.phase ≡ syncing before n
      → w.answers ≡ earlier ++ record { before = before; result = result } ∷ later
      → Safe base c w
      → Safe base (answered n result c) w
  answered-Safe before n failed earlier later c w ph e s = move_to-Safe (finished internal) tt s
  answered-Safe before n (ok _) earlier later c w ph e s =
      let (sub, count, reached, named) : InPhase (syncing before n) c.shipped w =
        subst (λ t. InPhase t c.shipped w) ph s.in_phase in
      let written =
        (All-of_append _ earlier _
          (subst (All (λ a. a.before ≤ length (flushed w.flushes))) e s.accounts.answered)).1.0 in
      move_to-Safe (finished (acknowledged n))
        (
          Sublistᴰ.trans (subst (λ l. Sublistᴰ c.shipped (take before l)) s.accounts.whole sub)
              (take-Sublist before (flushed w.flushes) _ written),
          count,
          named,
        )
        s

cancel_in-Safe :
    {base : List Entry} (ph : Phase) (c : Call) (w : Writer)
    → Safe base c w
    → Safe base (cancel_in ph c) w
cancel_in-Safe greeting c w s = s
cancel_in-Safe (shipping _ _) c w s = move_to-Safe (finished cancelled) tt s
cancel_in-Safe (syncing _ _) c w s = move_to-Safe (finished internal) tt s
cancel_in-Safe (finished _) c w s = s

Step-Safe :
    {g : Engine} (base : List Entry) {c d : Call} {w v : Writer}
    → Step g c w d v
    → Safe base c w
    → Safe base d v
unfolding receive cancel
Step-Safe {g} base {c} {w = w} (receives r room) s =
    receive_in-Safe g base c.phase r c w room refl s
Step-Safe {g} base {c} {w = w} (gets_answer before n result earlier later ph e) s =
    answered-Safe g base before n result earlier later c w ph e s
Step-Safe base {c} {w = w} cancels s = cancel_in-Safe c.phase c w s
Step-Safe base {c} (writes v st) s = writes-Safe base c st s
Step-Safe base {c} {w = w} (elsewhere t e) s = store-Safe base c w t e s

Reach-Safe :
    {g : Engine} (base : List Entry) {c : Call} {w : Writer} {d : Call} {v : Writer}
    → Reach g c w d v
    → Safe base c w
    → Safe base d v
Reach-Safe base here s = s
Reach-Safe base (next r st) s = Step-Safe base st (Reach-Safe base r s)

-- From a new writer with a batch size above zero, whatever else it is given and however the calls
-- and its loop interleave, and while no flush has failed: when `Ship` has acknowledged `n` entries,
-- `n` is the number of the entries it gave to the writer, these have the id of one source, and all
-- of them are in the table, in the order in which they came, behind the entries that were there at
-- first. (The retention does not run between.)
pub acknowledged_entries_are_stored :
    (g : Engine) (size : ℕ) (s : State) (tap : Option Ring) (n : ℕ) {c : Call} {w : Writer}
    → 0 < size
    → Reach g opened (new_writer size s tap) c w
    → AllStored w.flushes
    → c.phase ≡ finished (acknowledged n)
    → (length c.shipped ≡ n)
      × ((id : ℕ) × All (λ e. e.source_id ≡ id) c.shipped)
      × ((stored : List Entry) × (table w.store ≡ table s ++ stored) × Sublistᴰ c.shipped stored)
acknowledged_entries_are_stored g size s tap n {c} {w} pos r fine ph =
    let safe = Reach-Safe (table s) r (record {
      accounts = new_writer-Accounts size s tap pos;
      holds = new_writer-Holds size s tap;
      in_phase = refl;
    }) in
    let (sub, count, named) : InPhase (finished (acknowledged n)) c.shipped w =
      subst (λ t. InPhase t c.shipped w) ph safe.in_phase in
    (
      count,
      named,
      (flushed w.flushes, safe.holds ∙ rw (stored_by-flushed w.flushes fine) refl, sub),
    )
