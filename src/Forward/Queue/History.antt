-- ===== src/Forward/Queue/History.antt =====
-- Any sequence of calls on the queue, however the goroutines interleave: what comes out of it.
use mathlib.Core.List.{Sublistᴰ}
use mathlib.Core.List.Sublistᴰ
use hannah_logcollector.Prelude.{
  ℕ, ◌+◌, ◌^◌, ◌<◌, ◌≡◌, List, [], ◌∷◌, ◌++◌, append_assoc, append-nil, Option, none, some, arith,
  length, length-append, drop, inl, inr, Bool-cases, ◌==◌, ap,
}
use hannah_logcollector.Store.{Entry}
use hannah_logcollector.Forward.Queue.{Ring, offer, take_batch, report_drops}
use hannah_logcollector.Forward.Queue.Inv.{
  IsValid, offer-IsValid, take_batch-IsValid, report_drops-IsValid,
}
use hannah_logcollector.Forward.Queue.Refine.{
  contents, length-window, offer_to, offer_refines, take_batch_refines,
}

pub data Call : Type 0 where
  offering : Entry → Call
  taking : ℕ → Call
  reporting : ℕ → ℕ → Call

-- What a sequence of calls gave: the entries taken, the drops reported, and the queue behind it.
pub record Outcome : Type 0 where
  pub taken : List Entry
  pub reported : ℕ
  pub final : Ring

abbrev pub count_of : Option ℕ → ℕ
count_of none = 0
count_of (some k) = k

unfoldable pub run : List Call → Ring → Outcome
run [] f = record { taken = []; reported = 0; final = f }
run (offering e ∷ calls) f = run calls (offer f e)
run (taking limit ∷ calls) f =
    let (out, f') = take_batch f limit in
    let rest = run calls f' in record rest { taken = out ++ rest.taken }
run (reporting since now ∷ calls) f =
    let (said, f') = report_drops since now f in
    let rest = run calls f' in record rest { reported = count_of said + rest.reported }

abbrev pub offered : List Call → List Entry
offered [] = []
offered (offering e ∷ calls) = e ∷ offered calls
offered (taking _ ∷ calls) = offered calls
offered (reporting _ _ ∷ calls) = offered calls

pub run-IsValid : (calls : List Call) {f : Ring} → IsValid f → IsValid (run calls f).final
unfolding run
run-IsValid [] v = v
run-IsValid (offering e ∷ calls) v = run-IsValid calls (offer-IsValid e v)
run-IsValid (taking limit ∷ calls) v = run-IsValid calls (take_batch-IsValid limit v)
run-IsValid (reporting since now ∷ calls) v = run-IsValid calls (report_drops-IsValid since now v)

offer_to-sublist :
    (size : ℕ) (q : List Entry) (e : Entry) → Sublistᴰ (offer_to size q e) (q ++ e ∷ [])
unfolding offer_to
offer_to-sublist size q e = elim (Bool-cases (length q == size)) [
  | inl full ↦ rw full (Sublistᴰ.append (drop-sublist q) (Sublistᴰ.refl (e ∷ [])))
  | inr room ↦ rw room (Sublistᴰ.refl (q ++ e ∷ []))
]
  where
    drop-sublist : (q : List Entry) → Sublistᴰ (drop 1 q) q
    drop-sublist [] = Sublistᴰ.slnil
    drop-sublist (x ∷ xs) = Sublistᴰ.cons (Sublistᴰ.refl xs)

contents-report : (since now : ℕ) (f : Ring) → contents (report_drops since now f).1 ≡ contents f
unfolding report_drops
contents-report since now f = ground arith

-- From a valid queue, over any calls, nothing is made up, repeated or reordered: what was taken,
-- followed by what still waits, is a subsequence of what the queue held and was offered.
pub run_keeps_order :
    (calls : List Call) (f : Ring)
    → IsValid f
    → Sublistᴰ ((run calls f).taken ++ contents (run calls f).final) (contents f ++ offered calls)
unfolding run
run_keeps_order [] f v = rw append-nil (Sublistᴰ.refl (contents f))
run_keeps_order (offering e ∷ calls) f v =
    let ih = run_keeps_order calls (offer f e) (offer-IsValid e v) in
    Sublistᴰ.trans ih (
      rw ((offer_refines f e v).0, ← append_assoc (contents f) (e ∷ []) (offered calls))
        (Sublistᴰ.append (offer_to-sublist (length f.ring) (contents f) e)
          (Sublistᴰ.refl (offered calls))))
run_keeps_order (taking limit ∷ calls) f v =
    let ih = run_keeps_order calls (take_batch f limit).1 (take_batch-IsValid limit v) in
    let (out, f') = take_batch f limit in
    let rest = run calls f' in
    rw
      (
        (take_batch_refines f limit v).0,
        append_assoc out rest.taken (contents rest.final),
        append_assoc out (contents f') (offered calls),
      )
      (Sublistᴰ.append (Sublistᴰ.refl (take_batch f limit).0) ih)
run_keeps_order (reporting since now ∷ calls) f v =
    rw (← contents-report since now f)
      (run_keeps_order calls (report_drops since now f).1 (report_drops-IsValid since now v))

abbrev waiting : Ring → ℕ
waiting f = length (contents f)

offer_count :
    (f : Ring) (e : Entry)
    → IsValid f
    → f.dropped + 1 < 2 ^ 64
    → (offer f e).n + (offer f e).dropped ≡ f.n + f.dropped + 1
unfolding offer
offer_count f e v small = ground arith

pub length-contents : (f : Ring) → length (contents f) ≡ f.n
length-contents f = length-window f.ring (length f.ring) f.head f.n

pub take_count :
    (f : Ring) (limit : ℕ)
    → IsValid f
    → length (take_batch f limit).0 + (take_batch f limit).1.n ≡ f.n
take_count f limit v =
    let (splits, _, _) = take_batch_refines f limit v in
    omega (
      arith,
      ap length splits,
      length-append (take_batch f limit).0 (contents (take_batch f limit).1),
      length-contents f,
      length-contents (take_batch f limit).1,
    )

n-report : (since now : ℕ) (f : Ring) → (report_drops since now f).1.n ≡ f.n
unfolding report_drops
n-report since now f = ground arith

report_count :
    (since now : ℕ) (f : Ring)
    → count_of (report_drops since now f).0 + (report_drops since now f).1.dropped ≡ f.dropped
unfolding report_drops
report_count since now f = ground arith

-- From a valid queue, over any calls, every entry is accounted for: as many entries as the queue
-- held and was offered were taken, still wait, or were counted as dropped, reported or not, as
-- long as the counter stays below 2^64.
pub run_counts :
    (calls : List Call) (f : Ring)
    → IsValid f
    → f.dropped + length (offered calls) < 2 ^ 64
    → let o = run calls f in
      length o.taken + o.final.n + (o.reported + o.final.dropped)
      ≡ f.n + f.dropped + length (offered calls)
unfolding run
run_counts [] f v small = omega arith
run_counts (offering e ∷ calls) f v small =
    let counted = offer_count f e v (omega arith) in
    let (_, drops, _) = offer_refines f e v in
    omega (arith, run_counts calls (offer f e) (offer-IsValid e v) (ground arith))
run_counts (taking limit ∷ calls) f v small =
    let (_, _, same) = take_batch_refines f limit v in
    omega (
      arith,
      take_count f limit v,
      length-append (take_batch f limit).0 (run calls (take_batch f limit).1).taken,
      run_counts calls (take_batch f limit).1 (take_batch-IsValid limit v) (rw same small),
    )
run_counts (reporting since now ∷ calls) f v small =
    let counted = report_count since now f in
    let same = n-report since now f in
    omega (
      arith,
      run_counts calls (report_drops since now f).1 (report_drops-IsValid since now v)
          (omega arith),
    )
