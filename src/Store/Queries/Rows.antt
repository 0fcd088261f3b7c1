-- ===== src/Store/Queries/Rows.antt =====
-- The rows that `EachEntry` hands out, and their order.
use mathlib.Core.List.{Permᴰ}
use mathlib.Core.Path.{subst}
use hannah_logcollector.Prelude.{
  ◌≡◌, ◌<◌, ◌≤◌, ◌<ℤ◌, eq_ℤ_iff, refl, sym, ◌⊎◌, inl, inr, Bool, true, false, List, [], ◌∷◌, map,
  Option, none, some, Bool-cases, keep_if, arith,
}
use hannah_logcollector.Prelude.Sort.{sort-perm, sort-IsSorted, Pairwise, IsSorted-Pairwise}
use hannah_logcollector.Store.{Source}
use hannah_logcollector.Store.Sql.{Row, Engine, State, ok, failed}
use hannah_logcollector.Store.Queries.{
  Filter, source_of, selected_by, selected, in_order, select_rows, each_entry,
}
use hannah_logcollector.Store.Queries.Filters.{passes, all_hold-passes}

in_order_total : (a b : Row) → in_order a b ≡ false → in_order b a ≡ true
in_order_total a b h = ground arith

in_order_trans : (a b c : Row) → in_order a b ≡ true → in_order b c ≡ true → in_order a c ≡ true
in_order_trans a b c h k = ground arith

-- The row's source is known, and the entry passes the filter.
abbrev pub passes_by : Filter → Row → Option Source → Bool
passes_by f r none = false
passes_by f r (some s) = passes f r.entry s.component

abbrev pub wanted : Filter → List Source → Row → Bool
wanted f sources r = passes_by f r (source_of r.entry.source_id sources)

selected_by-passes_by :
    (f : Filter) (r : Row) (src : Option Source) → selected_by f r src ≡ passes_by f r src
selected_by-passes_by f r none = refl
selected_by-passes_by f r (some s) = all_hold-passes f r.entry s.component

keep_if-wanted :
    (f : Filter) (sources : List Source) (rows : List Row)
    → keep_if (wanted f sources) rows ≡ keep_if (selected f sources) rows
keep_if-wanted f sources [] = refl
keep_if-wanted f sources (r ∷ rows) =
    rw
      (
        selected_by-passes_by f r (source_of r.entry.source_id sources),
        keep_if-wanted f sources rows,
      )
      refl

-- Which of two rows comes first: by source, then timestamp, then rowid.
abbrev pub Comes : Row → Row → Type 0
Comes a b =
    (a.entry.source_id < b.entry.source_id)
    ⊎ (a.entry.source_id ≡ b.entry.source_id)
      × ((a.entry.timestamp_ms <ℤ b.entry.timestamp_ms)
          ⊎ (a.entry.timestamp_ms ≡ b.entry.timestamp_ms) × (a.id ≤ b.id))

in_order-Comes : (a b : Row) → in_order a b ≡ true → Comes a b
in_order-Comes a b h = ground (arith, eq_ℤ_iff a.entry.timestamp_ms b.entry.timestamp_ms)

-- The query of `EachEntry` changes nothing; unless it fails, its rows, which `EachEntry` hands out as
-- far as it can read them, are the entries that pass the filter and have a source, each row once, by
-- source, then timestamp, then rowid.
pub each_entry-Pairwise :
    (g : Engine) (f : Filter) (s : State)
    → let (result, s') = each_entry g f s in
      (s'.db ≡ s.db)
      × ((result ≡ failed)
          ⊎ ((rows : List Row) × (result ≡ ok (map (λ (r : Row). r.entry) rows))
              × Permᴰ (keep_if (wanted f s.db.sources) s.db.entries) rows
              × Pairwise Comes rows))
unfolding each_entry select_rows
each_entry-Pairwise g f s = elim (Bool-cases (g.fails s.clock)) [
  | inl refused ↦ rw refused (refl, inl refl)
  | inr granted ↦ rw granted (
    refl,
    inr (
      select_rows f s.db,
      refl,
      subst (λ l. Permᴰ l (select_rows f s.db)) (sym (keep_if-wanted f s.db.sources s.db.entries))
          (sort-perm in_order (keep_if (selected f s.db.sources) s.db.entries)),
      IsSorted-Pairwise in_order Comes in_order-Comes (select_rows f s.db) (
          sort-IsSorted in_order in_order_total in_order_trans
            (keep_if (selected f s.db.sources) s.db.entries)),
    ),
  )
]
