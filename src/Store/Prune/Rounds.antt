-- ===== src/Store/Prune/Rounds.antt =====
-- The loop of `Prune`: it ends, and what it leaves.
use mathlib.Core.List.{map-append}
use mathlib.Core.List.Permᴰ
use mathlib.Core.Path.{subst}
use hannah_logcollector.Prelude.{
  ℕ, zero, suc, ◌+◌, ◌-◌, ◌≤◌, ◌<◌, ◌≡◌, refl, sym, ap, ◌∙◌, ◌⊎◌, inl, inr, true, false, List, [],
  ◌∷◌, ◌++◌, map, some, arith, ◌==◌, ℤ, pos, leb_ℤ, ◌-ℤ◌, scale_ℤ, length, ==_iff, Bool-cases,
  length-take,
}
use hannah_logcollector.Prelude.Perm.{Distinct, Distinct-perm, length-perm}
use hannah_logcollector.Prelude.Sort.{sort, sort-perm}
use hannah_logcollector.Store.Sql.{Row, Db, entry_ids, Engine, State, Result, ok, failed}
use hannah_logcollector.Store.Prune.{
  older, oldest, without, prune_batch, used_bytes, delete_oldest, Done, rounds,
}
use hannah_logcollector.Store.Prune.Order.{
  Splits, length-Splits, Splits-refl, Splits-trans, without-oldest-Splits,
}

-- The space in use as `UsedBytes` reads it when `c` statements have run before.
abbrev pub used_at : Engine → ℕ → Db → ℤ
used_at g c db = scale_ℤ (pos (g.page_count c db) -ℤ pos (g.freelist_count (c + 1) db)) g.page_size

-- The rows that a round leaves.
abbrev left : List Row → List Row
left rows = without (oldest prune_batch rows) rows

module _ (g : Engine) (s : State) where
  used_bytes_lem :
      ((used_bytes g s).1.db ≡ s.db)
      × (((used_bytes g s).0 ≡ failed) ⊎ ((used_bytes g s).0 ≡ ok (used_at g s.clock s.db)))
  unfolding used_bytes
  used_bytes_lem = ground arith

  delete_oldest_lem :
      ((delete_oldest g s).0 ≡ failed) × ((delete_oldest g s).1.db ≡ s.db)
      ⊎ ((delete_oldest g s).0 ≡ ok (length s.db.entries - length (left s.db.entries)))
        × ((delete_oldest g s).1.db ≡ record (s.db) { entries = left s.db.entries })
  unfolding delete_oldest
  delete_oldest_lem = ground arith

module _ (g : Engine) (fuel : ℕ) (limit : ℤ) (count : ℕ) (s : State) where
  unread :
      (used_bytes g s).0 ≡ failed
      → rounds g (suc fuel) limit count s
        ≡ some (record { count = count; result = failed; state = (used_bytes g s).1 })
  unfolding rounds
  unread e = ground arith

  module _ (u : ℤ) (read : (used_bytes g s).0 ≡ ok u) where
    fits :
        leb_ℤ u limit ≡ true
        → rounds g (suc fuel) limit count s
          ≡ some (record { count = count; result = ok tt; state = (used_bytes g s).1 })
    unfolding rounds
    fits h = ground arith

    module _ (over : leb_ℤ u limit ≡ false) where
      stays :
          (delete_oldest g (used_bytes g s).1).0 ≡ failed
          → rounds g (suc fuel) limit count s
            ≡ some (record {
              count = count;
              result = failed;
              state = (delete_oldest g (used_bytes g s).1).1;
            })
      unfolding rounds
      stays e = ground arith

      empty :
          (n : ℕ)
          → (delete_oldest g (used_bytes g s).1).0 ≡ ok n
          → n ≡ 0
          → rounds g (suc fuel) limit count s
            ≡ some (record {
              count = count;
              result = ok tt;
              state = (delete_oldest g (used_bytes g s).1).1;
            })
      unfolding rounds
      empty n e z = ground arith

      again :
          (n : ℕ)
          → (delete_oldest g (used_bytes g s).1).0 ≡ ok n
          → (n == 0) ≡ false
          → rounds g (suc fuel) limit count s
            ≡ rounds g fuel limit (count + n) (delete_oldest g (used_bytes g s).1).1
      unfolding rounds
      again n e z = ground arith

nil_of_length : {A : Type 0} (xs : List A) → length xs ≡ 0 → xs ≡ []
nil_of_length [] h = refl
nil_of_length (x ∷ xs) h = absurd (omega arith)

pub Distinct-right : {A : Type 0} (xs ys : List A) → Distinct (xs ++ ys) → Distinct ys
Distinct-right [] ys d = d
Distinct-right (x ∷ xs) ys d = Distinct-right xs ys d.1

-- A round keeps the rowids distinct, and takes nothing only where there is nothing.
record LeavesWell (rows : List Row) : Type 0 where
  split : Splits rows (left rows)
  distinct : Distinct (map (λ (r : Row). r.id) (left rows))
  fewer : length (left rows) ≤ length rows
  few : length rows ≤ length (left rows) + prune_batch
  none_left : length rows - length (left rows) ≡ 0 → rows ≡ []

left-LeavesWell : (rows : List Row) → Distinct (map (λ (r : Row). r.id) rows) → LeavesWell rows
left-LeavesWell rows d =
    let (s, front) = without-oldest-Splits prune_batch rows d in
    let ids = Permᴰ.map (λ (r : Row). r.id) s.whole in
    let counted = length-Splits s in
    record {
      split = s;
      distinct =
          Distinct-right (map (λ (r : Row). r.id) s.gone) (map (λ (r : Row). r.id) (left rows))
            (rw map-append at (Distinct-perm ids d));
      fewer = omega arith;
      few = omega (
        arith,
        ap length front,
        length-take prune_batch (sort older rows),
        length-perm (sort-perm older rows),
      );
      none_left = λ h. nil_of_length rows (
          omega (
            arith,
            ap length front,
            length-take prune_batch (sort older rows),
            length-perm (sort-perm older rows),
          ));
    }

-- The deletions from `rows` to `kept` were needed: there was none, or the data did not fit when the
-- last one, of at most `prune_batch` rows, was made.
abbrev pub Needed : Engine → ℤ → Db → List Row → List Row → Type 0
Needed g limit db rows kept =
    (kept ≡ rows)
    ⊎ ((before : List Row) × (c : ℕ) × Splits rows before
        × (leb_ℤ (used_at g c (record db { entries = before })) limit ≡ false)
        × Splits before kept
        × (length before ≤ length kept + prune_batch))

-- What the loop leaves: the rows it deleted are counted, their deletion was needed, and are older
-- than all that stay; nothing else changed; and unless a statement failed, the data fits or no
-- entry is left.
pub record Rounded (g : Engine) (limit : ℤ) (count : ℕ) (s : State) (d : Done) : Type 0 where
  pub split : Splits s.db.entries d.state.db.entries
  pub counted : d.count + length d.state.db.entries ≡ count + length s.db.entries
  pub same_sources : d.state.db.sources ≡ s.db.sources
  pub same_gaps : d.state.db.gaps ≡ s.db.gaps
  pub needed : Needed g limit s.db s.db.entries d.state.db.entries
  pub ends :
      (d.result ≡ failed)
      ⊎ (d.result ≡ ok tt)
        × (((c : ℕ) × (leb_ℤ (used_at g c d.state.db) limit ≡ true)) ⊎ (d.state.db.entries ≡ []))

abbrev Returns : Engine → ℕ → ℤ → ℕ → State → Type 0
Returns g fuel limit count s =
    (d : Done) × (rounds g fuel limit count s ≡ some d) × Rounded g limit count s d

module _ (g : Engine) (limit : ℤ) (count : ℕ) (s : State) where
  -- The loop ends where the database is as before.
  ends_unchanged :
      (r : Result (Unit {0})) (s' : State)
      → s'.db ≡ s.db
      → (r ≡ failed)
        ⊎ (r ≡ ok tt) × (((c : ℕ) × (leb_ℤ (used_at g c s.db) limit ≡ true)) ⊎ (s.db.entries ≡ []))
      → Rounded g limit count s (record { count = count; result = r; state = s' })
  ends_unchanged r s' same how = record {
    split = rw same (Splits-refl s.db.entries);
    counted = rw same refl;
    same_sources = rw same refl;
    same_gaps = rw same refl;
    needed = inl (rw same refl);
    ends = rw same how;
  }

  later-Needed :
      (c : ℕ)
      → leb_ℤ (used_at g c s.db) limit ≡ false
      → LeavesWell s.db.entries
      → (kept : List Row)
      → Needed g limit (record (s.db) { entries = left s.db.entries }) (left s.db.entries) kept
      → Needed g limit s.db s.db.entries kept
  later-Needed c over w kept (inl same) =
      inr (s.db.entries, c, Splits-refl s.db.entries, over, rw same w.split, rw same w.few)
  later-Needed c over w kept (inr (before, c', later, over', last, few)) =
      inr (before, c', Splits-trans w.split later, over', last, few)

  -- A deletion, and then the rest of the loop.
  ends_later :
      (n : ℕ) (s' : State) (d : Done)
      → LeavesWell s.db.entries
      → (c : ℕ) → leb_ℤ (used_at g c s.db) limit ≡ false
      → s'.db ≡ record (s.db) { entries = left s.db.entries }
      → n ≡ length s.db.entries - length (left s.db.entries)
      → Rounded g limit (count + n) s' d
      → Rounded g limit count s d
  ends_later n s' d w c over e counted r = record {
    split =
        Splits-trans w.split (subst (λ (t : Db). Splits t.entries d.state.db.entries) e r.split);
    counted = omega (arith, r.counted, ap (λ (t : Db). length t.entries) e, w.fewer);
    same_sources = r.same_sources ∙ ap (λ (t : Db). t.sources) e;
    same_gaps = r.same_gaps ∙ ap (λ (t : Db). t.gaps) e;
    needed =
        later-Needed c over w d.state.db.entries
          (subst (λ (t : Db). Needed g limit t t.entries d.state.db.entries) e r.needed);
    ends = r.ends;
  }

delete_after :
    (g : Engine) (s : State) (db : Db)
    → s.db ≡ db
    → ((delete_oldest g s).0 ≡ failed) × ((delete_oldest g s).1.db ≡ db)
      ⊎ ((delete_oldest g s).0 ≡ ok (length db.entries - length (left db.entries)))
        × ((delete_oldest g s).1.db ≡ record db { entries = left db.entries })
delete_after g s db e =
    subst
      (λ (t : Db).
        ((delete_oldest g s).0 ≡ failed) × ((delete_oldest g s).1.db ≡ t)
        ⊎ ((delete_oldest g s).0 ≡ ok (length t.entries - length (left t.entries)))
          × ((delete_oldest g s).1.db ≡ record t { entries = left t.entries }))
      e (delete_oldest_lem g s)

-- The loop ends within as many rounds as there are entries and one more.
pub rounds_lem :
    (g : Engine) (fuel : ℕ) (limit : ℤ) (count : ℕ) (s : State)
    → length s.db.entries < fuel
    → Distinct (entry_ids s.db)
    → Returns g fuel limit count s
rounds_lem g zero limit count s h d = absurd (omega arith)
rounds_lem g (suc fuel) limit count s h d =
    let s1 = (used_bytes g s).1 in
    let s2 = (delete_oldest g s1).1 in
    let (same, read) = used_bytes_lem g s in
    let w = left-LeavesWell s.db.entries d in
    let n = length s.db.entries - length (left s.db.entries) in
    elim read [
      | inl e ↦ (
        _,
        unread g fuel limit count s e,
        ends_unchanged g limit count s failed s1 same (inl refl),
      )
      | inr e ↦ elim (Bool-cases (leb_ℤ (used_at g s.clock s.db) limit)) [
        | inl f ↦ (
          _,
          fits g fuel limit count s _ e f,
          ends_unchanged g limit count s (ok tt) s1 same (inr (refl, inl (s.clock, f))),
        )
        | inr over ↦ elim (delete_after g s1 s.db same) [
          | inl (no_delete, same') ↦ (
            _,
            stays g fuel limit count s _ e over no_delete,
            ends_unchanged g limit count s failed s2 same' (inl refl),
          )
          | inr (deleted, changed) ↦ elim (Bool-cases (n == 0)) [
            | inl z ↦
                let nothing = (==_iff n 0).0 z in
                let bare = w.none_left nothing in
                (
                  _,
                  empty g fuel limit count s _ e over n deleted nothing,
                  ends_unchanged g limit count s (ok tt) s2
                      (changed
                        ∙ ap (λ (rows : List Row). record (s.db) { entries = rows })
                            (ap left bare ∙ sym bare))
                      (inr (refl, inr bare)),
                )
            | inr nz ↦
                let shrunk : length (left s.db.entries) < fuel = ground arith in
                let (done, runs, r) =
                  rounds_lem g fuel limit (count + n) s2
                    (subst (λ (t : Db). length t.entries < fuel) (sym changed) shrunk)
                    (subst (λ (t : Db). Distinct (entry_ids t)) (sym changed) w.distinct) in
                (
                  done,
                  again g fuel limit count s _ e over n deleted nz ∙ runs,
                  ends_later g limit count s n s2 done w s.clock over changed refl r,
                )
          ]
        ]
      ]
    ]
