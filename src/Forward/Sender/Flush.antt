-- ===== src/Forward/Sender/Flush.antt =====
-- `flush` of internal/forward/forwarder.go, which `Run` defers to its end.
use mathlib.Core.List.{flatten}
use hannah_logcollector.Prelude.{
  ℕ, zero, suc, ◌+◌, ◌<◌, ◌≡◌, ◌≢◌, refl, sym, ap, ◌∙◌, ◌⊎◌, inl, inr, true, false, List, [], ◌∷◌,
  ◌++◌, append-nil, append_assoc, Option, none, some, Bool-cases, arith, length,
}
use hannah_logcollector.Text.{Bytes}
use hannah_logcollector.Proto.{Proto}
use hannah_logcollector.Store.{Source, Entry}
use hannah_logcollector.Store.Sql.{Result}
use hannah_logcollector.Forward.Queue.{Ring, take_batch}
use hannah_logcollector.Forward.Queue.Inv.{IsValid, take_batch-IsValid}
use hannah_logcollector.Forward.Queue.Refine.{contents, take_batch_refines}
use hannah_logcollector.Forward.Queue.History.{take_count, length-contents}
use hannah_logcollector.Forward.Encode.{Settings, encode}
use hannah_logcollector.Forward.Encode.Lines.{Agrees, Answers, lines_by, encode_lem}
use hannah_logcollector.Forward.Sender.{max_batch, Network, Sent, send_each, send, Sender}
use hannah_logcollector.Forward.Sender.Account.{flatten-append, lines_by-append}

module _ {S : Type 0} (net : Network) (all_sources : S → Result (List Source) × S) (p : Proto)
    (f : Settings) where
  -- A batch behind `encode`, with what `send` did with it.
  abbrev pub send_batch : List Entry → Ring → Sender S → Sent × Sender S
  send_batch batch ring w =
      let out = encode all_sources p f batch w.known w.sources in
      let sent = send net f out.lines w.clock in
      (
        sent,
        record w {
          ring = ring;
          known = out.known;
          sources = out.sources;
          clock = sent.clock;
          taken = w.taken ++ batch;
          encoded = w.encoded ++ out.lines;
          wire = w.wire ++ sent.written;
        },
      )

  -- `send` in the loop; an error ends it, otherwise the loop goes on.
  abbrev pub after_batch : (Sender S → Option (Sender S)) → Sent × Sender S → Option (Sender S)
  after_batch again (sent, w) = elim sent.fine [ true ↦ again w | false ↦ some w ]

  -- The body of the loop, with a batch from `take`.
  abbrev pub flush_round :
      (Sender S → Option (Sender S)) → List Entry → Ring → Sender S → Option (Sender S)
  flush_round again [] ring w = some (record w { ring = ring })
  flush_round again (e ∷ batch) ring w = after_batch again (send_batch (e ∷ batch) ring w)

  -- `flush`, with fuel for its rounds.
  unfoldable pub flush : ℕ → Sender S → Option (Sender S)
  flush zero w = none
  flush (suc fuel) w =
      let (batch, ring) = take_batch w.ring max_batch in flush_round (flush fuel) batch ring w

  -- The write with the number just before `clock` failed.
  abbrev pub LastFailed : ℕ → Type 0
  LastFailed clock = (k : ℕ) × (k + 1 ≡ clock) × (net.fails k ≡ true)

  -- `send` has written all the lines, or its last write failed.
  abbrev Sends : List Bytes → Sent → Type 0
  Sends lines out =
      (out.fine ≡ true) × (flatten out.written ≡ flatten lines)
      ⊎ (out.fine ≡ false) × LastFailed out.clock

  send_each-Sends : (lines : List Bytes) (k : ℕ) → Sends lines (send_each net lines k)
  unfolding send_each flatten
  send_each-Sends [] k = inl (refl, refl)
  send_each-Sends (line ∷ lines) k = elim (Bool-cases (net.fails k)) [
    | inl broken ↦ rw broken (inr (refl, (k, refl, broken)))
    | inr fine ↦ elim (send_each-Sends lines (k + 1)) [
      | inl (ok, same) ↦ rw fine (inl (ok, ap (λ t. line ++ t) same))
      | inr how ↦ rw fine (inr how)
    ]
  ]

  send-Sends : (lines : List Bytes) (k : ℕ) → Sends lines (send net f lines k)
  unfolding send flatten
  send-Sends lines k = elim (Bool-cases f.is_tcp) [
    | inl tcp ↦ elim (Bool-cases (net.fails k)) [
      | inl broken ↦ rw (tcp, broken) (inr (refl, (k, refl, broken)))
      | inr fine ↦ rw (tcp, fine) (inl (refl, append-nil (flatten lines)))
    ]
    | inr udp ↦ rw udp (send_each-Sends lines k)
  ]

  module _ (table : List Source) where
    -- What `flush` leaves: the entries it took are the oldest, in order, and none is lost or taken
    -- twice. It has stopped at a write that failed, or all went out.
    pub record Flushed (w v : Sender S) : Type 0 where
      pub in_order : v.taken ++ contents v.ring ≡ w.taken ++ contents w.ring
      pub ends :
          LastFailed v.clock
          ⊎ (contents v.ring ≡ [])
            × (flatten v.wire ≡ flatten w.wire ++ flatten (lines_by p f table (contents w.ring)))

    none_left : (xs : List Entry) → length xs ≡ 0 → xs ≡ []
    none_left [] e = refl
    none_left (x ∷ xs) e = absurd (omega (arith, e))

    some_left : (xs : List Entry) → xs ≢ [] → 0 < length xs
    some_left [] h = absurd (h refl)
    some_left (x ∷ xs) h = omega arith

    -- A round that empties the queue.
    emptied :
        (ring : Ring) (w : Sender S)
        → contents w.ring ≡ contents ring
        → length (contents ring) ≡ 0
        → Flushed w (record w { ring = ring })
    unfolding lines_by flatten
    emptied ring w same empty = record {
      in_order = ap (λ t. w.taken ++ t) (sym same);
      ends = inr (
        none_left (contents ring) empty,
        rw (same, none_left (contents ring) empty) (sym (append-nil (flatten w.wire))),
      );
    }

    -- A round whose lines all went out, and what follows it.
    went_on :
        (batch : List Entry) (ring : Ring) (w v : Sender S)
        → contents w.ring ≡ batch ++ contents ring
        → Answers all_sources table
        → Agrees w.known table
        → let (sent, u) = send_batch batch ring w in
          flatten sent.written ≡ flatten (encode all_sources p f batch w.known w.sources).lines
          → Flushed u v
          → Flushed w v
    went_on batch ring w v splits ans ag wrote r =
        let (same, _) = encode_lem all_sources table p f batch w.known w.sources ans ag in
        let (sent, u) = send_batch batch ring w in
        record {
          in_order =
              r.in_order
              ∙ append_assoc w.taken batch (contents ring)
              ∙ ap (λ t. w.taken ++ t) (sym splits);
          ends = elim r.ends [
            | inl broken ↦ inl broken
            | inr (empty, out) ↦ inr (
              empty,
              out
                  ∙ ap (λ t. t ++ flatten (lines_by p f table (contents ring)))
                      (flatten-append w.wire sent.written
                        ∙ ap (λ t. flatten w.wire ++ t) (wrote ∙ ap flatten same))
                  ∙ append_assoc (flatten w.wire) (flatten (lines_by p f table batch)) _
                  ∙ ap (λ t. flatten w.wire ++ t)
                      (sym (flatten-append (lines_by p f table batch) _)
                        ∙ ap flatten (
                            sym (lines_by-append p f table batch (contents ring))
                            ∙ ap (lines_by p f table) (sym splits))),
            )
          ];
        }

    -- A round whose last write failed.
    broken_off :
        (batch : List Entry) (ring : Ring) (w : Sender S)
        → contents w.ring ≡ batch ++ contents ring
        → LastFailed (send_batch batch ring w).1.clock
        → Flushed w (send_batch batch ring w).1
    broken_off batch ring w splits broken = record {
      in_order = append_assoc w.taken batch (contents ring) ∙ ap (λ t. w.taken ++ t) (sym splits);
      ends = inl broken;
    }

    -- What the rounds behind this one do.
    abbrev GoesOn : (Sender S → Option (Sender S)) → Ring → Type 0
    GoesOn again ring =
        (u : Sender S)
        → u.ring ≡ ring
        → Agrees u.known table
        → (v : Sender S) × (again u ≡ some v) × Flushed u v

    flush_round-Flushed :
        (again : Sender S → Option (Sender S)) (batch : List Entry) (ring : Ring) (w : Sender S)
        → contents w.ring ≡ batch ++ contents ring
        → (batch ≡ [] → length (contents ring) ≡ 0)
        → Answers all_sources table
        → Agrees w.known table
        → (batch ≢ [] → GoesOn again ring)
        → (v : Sender S) × (flush_round again batch ring w ≡ some v) × Flushed w v
    flush_round-Flushed again [] ring w splits empty ans ag on =
        (_, refl, emptied ring w splits (empty refl))
    flush_round-Flushed again (e ∷ batch) ring w splits empty ans ag on =
        let (_, still) = encode_lem all_sources table p f (e ∷ batch) w.known w.sources ans ag in
        let (sent, u) = send_batch (e ∷ batch) ring w in
        elim (send-Sends (encode all_sources p f (e ∷ batch) w.known w.sources).lines w.clock) [
          | inl (fine, wrote) ↦
              let (v, runs, r) = on (λ h. grind arith) u refl still in
              (v, rw fine runs, went_on (e ∷ batch) ring w v splits ans ag wrote r)
          | inr (bad, broken) ↦ (u, rw bad refl, broken_off (e ∷ batch) ring w splits broken)
        ]

    -- If the sources answer with one table and the map of known sources says nothing else, `flush`
    -- on a valid queue ends, within one round more than entries wait. The entries that it took and
    -- those that still wait are those that waited, in order. Either its last write failed, or the
    -- queue is empty and what was written is the lines of all the entries that waited, each once
    -- and in order, without those that have no text or no source, over TCP and over UDP.
    pub flush_drains :
        (fuel : ℕ) (w : Sender S)
        → IsValid w.ring
        → w.ring.n < fuel
        → Answers all_sources table
        → Agrees w.known table
        → (v : Sender S) × (flush fuel w ≡ some v) × Flushed w v
    unfolding flush
    flush_drains zero w valid enough ans ag = absurd (omega arith)
    flush_drains (suc fuel) w valid enough ans ag =
        let (batch, ring) = take_batch w.ring max_batch in
        let (splits, count, _) = take_batch_refines w.ring max_batch valid in
        let counted = take_count w.ring max_batch valid in
        flush_round-Flushed (flush fuel) batch ring w splits
          (λ h. omega (arith, ap length h, count, counted, length-contents ring)) ans ag
          (λ more u same ag'.
            flush_drains fuel u (rw same (take_batch-IsValid max_batch valid))
              (rw same (omega (arith, some_left batch more, counted))) ans ag')
