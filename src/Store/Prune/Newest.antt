-- ===== src/Store/Prune/Newest.antt =====
-- `Prune` as a whole: it ends, keeps the newest entries, and keeps both limits.
use mathlib.Core.List.{map-append}
use mathlib.Core.List.Permᴰ
use mathlib.Core.Path.{subst}
use mathlib.Core.Option
use hannah_logcollector.Prelude.{
  ℕ, suc, ◌+◌, ◌-◌, ◌≡◌, refl, sym, ap, ◌∙◌, ◌⊎◌, inl, inr, true, List, [], map, some, arith, ℤ,
  leb_ℤ, All, length, keep_if,
}
use hannah_logcollector.Prelude.Perm.{
  Distinct, Distinct-perm, All-perm, All-of_append, keep_if-holds,
}
use hannah_logcollector.Store.Sql.{Row, Db, entry_ids, Engine, State, ok, failed}
use hannah_logcollector.Store.Prune.{
  is_young, is_young_gap, cutoff_of, delete_aged, delete_gaps, Done, Pruned, vacuum, prune_size,
  prune,
}
use hannah_logcollector.Store.Prune.Order.{
  Splits, length-Splits, Splits-refl, Splits-trans, young-Splits,
}
use hannah_logcollector.Store.Prune.Rounds.{used_at, Needed, Rounded, rounds_lem, Distinct-right}

abbrev pub kept_of : ℤ → State → List Row
kept_of cutoff s = keep_if (is_young cutoff) s.db.entries

delete_aged_lem :
    (g : Engine) (cutoff : ℤ) (s : State)
    → ((delete_aged g cutoff s).0 ≡ failed) × ((delete_aged g cutoff s).1.db ≡ s.db)
      ⊎ ((delete_aged g cutoff s).0 ≡ ok (length s.db.entries - length (kept_of cutoff s)))
        × ((delete_aged g cutoff s).1.db ≡ record (s.db) { entries = kept_of cutoff s })
unfolding delete_aged
delete_aged_lem g cutoff s = ground arith

delete_gaps_lem :
    (g : Engine) (cutoff : ℤ) (s : State)
    → ((delete_gaps g cutoff s).0 ≡ failed) × ((delete_gaps g cutoff s).1.db ≡ s.db)
      ⊎ ((delete_gaps g cutoff s).0 ≡ ok tt)
        × ((delete_gaps g cutoff s).1.db
            ≡ record (s.db) { gaps = keep_if (is_young_gap cutoff) s.db.gaps })
unfolding delete_gaps
delete_gaps_lem g cutoff s = ground arith

vacuum_lem :
    (g : Engine) (by_age : ℕ) (d : Done)
    → ((vacuum g by_age d).state.db ≡ d.state.db)
      × ((vacuum g by_age d).res.by_age ≡ by_age)
      × ((vacuum g by_age d).res.by_size ≡ d.count)
      × (((vacuum g by_age d).result ≡ failed)
          ⊎ ((vacuum g by_age d).result ≡ ok tt) × (d.result ≡ ok tt))
vacuum_lem g by_age d = ground arith

-- What `Prune` leaves. Each entry it removed is older than every entry it kept, the counts say how
-- many it removed, and no source is touched. What it removed is beyond the age, or was removed while
-- the data did not fit. If no statement failed, no entry and no gap beyond the
-- age is left, no younger gap is gone, and the data fits or no entry is left.
pub record Retained (g : Engine) (cutoff limit : ℤ) (s : State) (p : Pruned) : Type 0 where
  pub split : Splits s.db.entries p.state.db.entries
  pub counted : p.res.by_age + p.res.by_size + length p.state.db.entries ≡ length s.db.entries
  pub same_sources : p.state.db.sources ≡ s.db.sources
  pub needed :
      (p.state.db.entries ≡ s.db.entries)
      ⊎ Needed g limit p.state.db (keep_if (is_young cutoff) s.db.entries) p.state.db.entries
  pub complete :
      (p.result ≡ failed)
      ⊎ (p.result ≡ ok tt)
        × All (λ r. is_young cutoff r ≡ true) p.state.db.entries
        × (p.state.db.gaps ≡ keep_if (is_young_gap cutoff) s.db.gaps)
        × (((c : ℕ) × (leb_ℤ (used_at g c p.state.db) limit ≡ true)) ⊎ (p.state.db.entries ≡ []))

module _ (g : Engine) (now max_age limit : ℤ) (s : State) where
  abbrev cutoff : ℤ
  cutoff = cutoff_of now max_age

  abbrev s1 : State
  s1 = (delete_aged g cutoff s).1

  abbrev s2 : State
  s2 = (delete_gaps g cutoff s1).1

  unaged :
      (delete_aged g cutoff s).0 ≡ failed
      → prune g now max_age limit s
        ≡ some (record { res = record { by_age = 0; by_size = 0 }; result = failed; state = s1 })
  unfolding prune
  unaged e = ground arith

  module _ (n : ℕ) (aged : (delete_aged g cutoff s).0 ≡ ok n) where
    ungapped :
        (delete_gaps g cutoff s1).0 ≡ failed
        → prune g now max_age limit s
          ≡ some (record { res = record { by_age = n; by_size = 0 }; result = failed; state = s2 })
    unfolding prune
    ungapped e = ground arith

    sized :
        (delete_gaps g cutoff s1).0 ≡ ok tt → prune g now max_age limit s ≡ prune_size g limit n s2
    unfolding prune
    sized e = ground arith

-- The tables behind both deletions by age.
abbrev aged_db : ℤ → State → Db
aged_db cutoff s = record (s.db) {
  entries = kept_of cutoff s;
  gaps = keep_if (is_young_gap cutoff) s.db.gaps;
}

-- The space in use depends on the other tables only.
in-Needed :
    (g : Engine) (limit : ℤ) (db db' : Db) (rows kept : List Row)
    → db'.sources ≡ db.sources
    → db'.gaps ≡ db.gaps
    → Needed g limit db rows kept
    → Needed g limit db' rows kept
in-Needed g limit db db' rows kept same same' (inl none_gone) = inl none_gone
in-Needed g limit db db' rows kept same same' (inr (before, c, later, over, last, few)) =
    inr (before, c, later, rw (same, same') over, last, few)

-- What the loop and the vacuum leave, seen from the start of `Prune`.
finish :
    (g : Engine) (cutoff limit : ℤ) (s s' : State) (n : ℕ) (d : Done)
    → s'.db ≡ aged_db cutoff s
    → n + length (kept_of cutoff s) ≡ length s.db.entries
    → Rounded g limit 0 s' d
    → Retained g cutoff limit s (vacuum g n d)
finish g cutoff limit s s' n d e counted r =
    let (same, by_age, by_size, how) = vacuum_lem g n d in
    let later : Splits (kept_of cutoff s) d.state.db.entries =
      subst (λ (t : Db). Splits t.entries d.state.db.entries) e r.split in
    let young =
      (All-of_append _ later.gone d.state.db.entries
        (All-perm _ later.whole (keep_if-holds (is_young cutoff) s.db.entries))).1 in
    record {
      split = rw same (Splits-trans (young-Splits cutoff s.db.entries) later);
      counted =
          rw (same, by_age, by_size)
            (omega (arith, r.counted, counted, ap (λ (t : Db). length t.entries) e));
      same_sources = rw same (r.same_sources ∙ ap (λ (t : Db). t.sources) e);
      needed = inr (
          rw same (
            in-Needed g limit s'.db d.state.db (kept_of cutoff s) d.state.db.entries r.same_sources
              r.same_gaps
              (subst (λ l. Needed g limit s'.db l d.state.db.entries) (ap (λ (t : Db). t.entries) e)
                r.needed)));
      complete = elim how [
        | inl bad ↦ inl bad
        | inr (fine, loop_fine) ↦ inr (
          fine,
          rw same young,
          rw same (r.same_gaps ∙ ap (λ (t : Db). t.gaps) e),
          rw same (ended loop_fine r.ends),
        )
      ];
    }
  where
    ended :
        d.result ≡ ok tt
        → (d.result ≡ failed)
          ⊎ (d.result ≡ ok tt)
            × (((c : ℕ) × (leb_ℤ (used_at g c d.state.db) limit ≡ true))
                ⊎ (d.state.db.entries ≡ []))
        → ((c : ℕ) × (leb_ℤ (used_at g c d.state.db) limit ≡ true)) ⊎ (d.state.db.entries ≡ [])
    ended fine (inl bad) = cc
    ended fine (inr (_, how)) = how

-- `Prune` ends, and keeps the newest entries: each entry removed, for its age or for the size, is
-- older than every entry kept, by timestamp and then rowid. No entry within the age is removed but
-- in deletions that found the data above the limit: either all of them are kept, or at most 1000
-- fewer than there were when the data last was above it. The counts account for every entry
-- removed and the sources stay as they are. If it reports no error, nothing beyond the age is left,
-- no gap within the age is gone, and the data fits into the limit or no entry is left. The rowids of
-- the entries are taken to be distinct.
pub prune_keeps_newest :
    (g : Engine) (now max_age limit : ℤ) (s : State)
    → Distinct (entry_ids s.db)
    → (p : Pruned) × (prune g now max_age limit s ≡ some p)
      × Retained g (cutoff_of now max_age) limit s p
prune_keeps_newest g now max_age limit s d =
    let cutoff = cutoff_of now max_age in
    let s1 = (delete_aged g cutoff s).1 in
    let s2 = (delete_gaps g cutoff s1).1 in
    let n = length s.db.entries - length (kept_of cutoff s) in
    let first = young-Splits cutoff s.db.entries in
    let counted = length-Splits first in
    elim (delete_aged_lem g cutoff s) [
      | inl (e, same) ↦ (
        _,
        unaged g now max_age limit s e,
        record {
          split = rw same (Splits-refl s.db.entries);
          counted = rw same (omega arith);
          same_sources = rw same refl;
          needed = inl (rw same refl);
          complete = inl refl;
        },
      )
      | inr (e, aged) ↦ elim (delete_gaps_lem g cutoff s1) [
        | inl (e', same) ↦ (
          _,
          ungapped g now max_age limit s n e e',
          record {
            split = rw (same, aged) first;
            counted = rw (same, aged) (omega arith);
            same_sources = rw (same, aged) refl;
            needed = inr (inl (rw (same, aged) refl));
            complete = inl refl;
          },
        )
        | inr (e', gaps) ↦
            let both : s2.db ≡ aged_db cutoff s =
              gaps
              ∙ ap (λ (t : Db). record t { gaps = keep_if (is_young_gap cutoff) t.gaps }) aged in
            let distinct =
              Distinct-right (map (λ (r : Row). r.id) first.gone) (entry_ids (aged_db cutoff s))
                (rw map-append at (Distinct-perm (Permᴰ.map (λ (r : Row). r.id) first.whole) d)) in
            let (done, runs, r) =
              rounds_lem g (suc (length s2.db.entries)) limit 0 s2 (omega arith)
                (subst (λ (t : Db). Distinct (entry_ids t)) (sym both) distinct) in
            (
              vacuum g n done,
              sized g now max_age limit s n e e' ∙ ap (Option.map (vacuum g n)) runs,
              finish g cutoff limit s s2 n done both (omega arith) r,
            )
      ]
    ]
