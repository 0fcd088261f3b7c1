-- ===== src/Store/Prune.antt =====
-- `Prune` of internal/store/store.go: the retention by age and by size.
pub mod Order
pub mod Rounds
pub mod Newest
use mathlib.Core.Option
use hannah_logcollector.Prelude.{
  ℕ, zero, suc, ◌+◌, ◌-◌, Bool, true, false, not, ◌&&◌, ◌||◌, List, [], ◌∷◌, map, Option, none,
  some, ◌==◌, ltb, leb, if◌then◌else◌, ℤ, pos, ltb_ℤ, leb_ℤ, eq_ℤ, ◌-ℤ◌, ◌+ℤ◌, wrap, scale_ℤ,
  length, keep_if, take,
}
use hannah_logcollector.Prelude.Sort.{sort}
use hannah_logcollector.Store.{Gap}
use hannah_logcollector.Store.Sql.{
  Row, Db, Engine, State, Result, ok, failed, Sql, ◌>>=◌, statement, query, pure,
}
use hannah_logcollector.Time.{unix_milli}

abbrev pub prune_batch : ℕ
prune_batch = 1000

-- `PruneResult`
pub record PruneResult : Type 0 where
  pub by_age : ℕ
  pub by_size : ℕ

-- ORDER BY ts_ms, id
abbrev pub older : Row → Row → Bool
older a b =
    ltb_ℤ a.entry.timestamp_ms b.entry.timestamp_ms
    || (eq_ℤ a.entry.timestamp_ms b.entry.timestamp_ms && leb a.id b.id)

abbrev pub is_in : List ℕ → ℕ → Bool
is_in [] i = false
is_in (j ∷ js) i = j == i || is_in js i

-- SELECT id FROM entries ORDER BY ts_ms, id LIMIT n
unfoldable pub oldest : ℕ → List Row → List ℕ
oldest n rows = map (λ (r : Row). r.id) (take n (sort older rows))

-- DELETE FROM entries WHERE id IN …
abbrev pub without : List ℕ → List Row → List Row
without ids = keep_if (λ r. not (is_in ids r.id))

-- DELETE FROM entries WHERE ts_ms < cutoff, DELETE FROM gaps WHERE to_ms < cutoff
abbrev pub is_young : ℤ → Row → Bool
is_young cutoff r = not (ltb_ℤ r.entry.timestamp_ms cutoff)

abbrev pub is_young_gap : ℤ → Gap → Bool
is_young_gap cutoff gap = not (ltb_ℤ gap.to_ms cutoff)

-- `now.Add(-maxAge).UnixMilli()`; a duration is an int64 of nanoseconds, and so is its negation.
abbrev pub cutoff_of : ℤ → ℤ → ℤ
cutoff_of now max_age = unix_milli (now +ℤ wrap 64 (pos 0 -ℤ max_age))

-- What a part of `Prune` leaves: the rows counted so far, whether it went on to its end, the state.
pub record Done : Type 0 where
  pub count : ℕ
  pub result : Result (Unit {0})
  pub state : State

-- What `Prune` returns, and the state it leaves.
pub record Pruned : Type 0 where
  pub res : PruneResult
  pub result : Result (Unit {0})
  pub state : State

module _ (g : Engine) where
  -- `UsedBytes`
  unfoldable pub used_bytes : Sql ℤ
  used_bytes = do
    pages ← query g (λ s. g.page_count s.clock s.db)
    free ← query g (λ s. g.freelist_count s.clock s.db)
    size ← query g (λ _. g.page_size)
    pure (scale_ℤ (pos pages -ℤ pos free) size)

  -- A DELETE on `entries` that leaves `kept`, and how many rows it affects.
  abbrev pub delete_rows : (List Row → List Row) → Sql ℕ
  delete_rows kept = statement g (λ s. (
    length s.db.entries - length (kept s.db.entries),
    record (s.db) { entries = kept s.db.entries },
  ))

  unfoldable pub delete_oldest : Sql ℕ
  unfolding oldest
  delete_oldest = delete_rows (λ rows. without (oldest prune_batch rows) rows)

  unfoldable pub delete_aged : ℤ → Sql ℕ
  delete_aged cutoff = delete_rows (keep_if (is_young cutoff))

  unfoldable pub delete_gaps : ℤ → Sql (Unit {0})
  delete_gaps cutoff =
      statement g (λ s. (tt, record (s.db) { gaps = keep_if (is_young_gap cutoff) s.db.gaps }))

  -- The loop of `Prune`, with fuel for its rounds; `none` means that the fuel ran out.
  unfoldable pub rounds : ℕ → ℤ → ℕ → State → Option Done
  rounds zero limit count s = none
  rounds (suc fuel) limit count s =
      let (used, s1) = used_bytes s in
      elim used [
        | failed ↦ some (record { count = count; result = failed; state = s1 })
        | ok u ↦ elim (leb_ℤ u limit) [
          | true ↦ some (record { count = count; result = ok tt; state = s1 })
          | false ↦
              let (deleted, s2) = delete_oldest s1 in
              elim deleted [
                | failed ↦ some (record { count = count; result = failed; state = s2 })
                | ok n ↦ elim (n == 0) [
                  | true ↦ some (record { count = count; result = ok tt; state = s2 })
                  | false ↦ rounds fuel limit (count + n) s2
                ]
              ]
        ]
      ]

  abbrev pub needs_vacuum : ℕ → ℕ → Bool
  needs_vacuum by_age by_size = ltb 0 by_age || ltb 0 by_size

  -- PRAGMA incremental_vacuum gives free pages back and changes no row.
  abbrev pub vacuum : ℕ → Done → Pruned
  vacuum by_age d =
      let res : PruneResult = record { by_age = by_age; by_size = d.count } in
      elim d.result [
        | failed ↦ record { res = res; result = failed; state = d.state }
        | ok _ ↦ elim (needs_vacuum by_age d.count) [
          | false ↦ record { res = res; result = ok tt; state = d.state }
          | true ↦
              let (result, s) = query g (λ _. tt) d.state in
              record { res = res; result = result; state = s }
        ]
      ]

  -- `Prune` from the loop on.
  abbrev pub prune_size : ℤ → ℕ → State → Option Pruned
  prune_size limit by_age s =
      Option.map (vacuum by_age) (rounds (suc (length s.db.entries)) limit 0 s)

  -- `Prune`; every round but the last deletes a row, so there are at most as many rounds as rows and
  -- one more.
  unfoldable pub prune : ℤ → ℤ → ℤ → State → Option Pruned
  prune now max_age limit s =
      let cutoff = cutoff_of now max_age in
      let (aged, s1) = delete_aged cutoff s in
      elim aged [
        | failed ↦
            some (record { res = record { by_age = 0; by_size = 0 }; result = failed; state = s1 })
        | ok by_age ↦
            let (gaps, s2) = delete_gaps cutoff s1 in
            elim gaps [
              | failed ↦ some (record {
                res = record { by_age = by_age; by_size = 0 };
                result = failed;
                state = s2;
              })
              | ok _ ↦ prune_size limit by_age s2
            ]
      ]
