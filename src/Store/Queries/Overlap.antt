-- ===== src/Store/Queries/Overlap.antt =====
-- The gaps that `Gaps` of internal/store/store.go finds, and their order.
use mathlib.Core.List.{Permᴰ}
use mathlib.Core.Path.{subst}
use hannah_logcollector.Prelude.{
  ◌≡◌, ◌<◌, ◌≤ℤ◌, refl, sym, ◌⊎◌, Bool, true, false, List, [], ◌∷◌, Option, none, some, keep_if,
  arith,
}
use hannah_logcollector.Prelude.Sort.{sort, sort-perm, sort-IsSorted, Pairwise, IsSorted-Pairwise}
use hannah_logcollector.Store.{Source, Gap}
use hannah_logcollector.Store.Sql.{Db}
use hannah_logcollector.Store.Queries.{Filter, source_of}
use hannah_logcollector.Store.Queries.Gaps.{
  gap_selected_by, gap_in_order, overlaps, gap_all_hold-overlaps,
}

-- The gap's source is known, and the gap overlaps the time range of the filter, which names its
-- component or none.
abbrev pub overlaps_by : Filter → Gap → Option Source → Bool
overlaps_by f g none = false
overlaps_by f g (some s) = overlaps f g s.component

abbrev pub gap_wanted : Filter → List Source → Gap → Bool
gap_wanted f sources gap = overlaps_by f gap (source_of gap.source_id sources)

-- Which of two gaps comes first: by source, then start.
abbrev pub Starts : Gap → Gap → Type 0
Starts a b = (a.source_id < b.source_id) ⊎ (a.source_id ≡ b.source_id) × (a.from_ms ≤ℤ b.from_ms)

-- The gaps that the filter selects.
abbrev pub gaps_for : Filter → Db → List Gap
gaps_for f db =
    sort gap_in_order
      (keep_if (λ gap. gap_selected_by f gap (source_of gap.source_id db.sources)) db.gaps)

gap_selected_by-overlaps_by :
    (f : Filter) (g : Gap) (src : Option Source) → gap_selected_by f g src ≡ overlaps_by f g src
gap_selected_by-overlaps_by f g none = refl
gap_selected_by-overlaps_by f g (some s) = gap_all_hold-overlaps f g s.component

keep_if-gap_wanted :
    (f : Filter) (sources : List Source) (gaps : List Gap)
    → keep_if (gap_wanted f sources) gaps
      ≡ keep_if (λ gap. gap_selected_by f gap (source_of gap.source_id sources)) gaps
keep_if-gap_wanted f sources [] = refl
keep_if-gap_wanted f sources (g ∷ gaps) =
    rw
      (
        gap_selected_by-overlaps_by f g (source_of g.source_id sources),
        keep_if-gap_wanted f sources gaps,
      )
      refl

gap_in_order_total : (a b : Gap) → gap_in_order a b ≡ false → gap_in_order b a ≡ true
gap_in_order_total a b h = ground arith

gap_in_order_trans :
    (a b c : Gap) → gap_in_order a b ≡ true → gap_in_order b c ≡ true → gap_in_order a c ≡ true
gap_in_order_trans a b c h k = ground arith

gap_in_order-Starts : (a b : Gap) → gap_in_order a b ≡ true → Starts a b
gap_in_order-Starts a b h = ground arith

pub gaps_for-perm :
    (f : Filter) (db : Db) → Permᴰ (keep_if (gap_wanted f db.sources) db.gaps) (gaps_for f db)
gaps_for-perm f db =
    subst (λ l. Permᴰ l (gaps_for f db)) (sym (keep_if-gap_wanted f db.sources db.gaps))
      (sort-perm gap_in_order _)

pub gaps_for-Pairwise : (f : Filter) (db : Db) → Pairwise Starts (gaps_for f db)
gaps_for-Pairwise f db =
    IsSorted-Pairwise gap_in_order Starts gap_in_order-Starts (gaps_for f db)
      (sort-IsSorted gap_in_order gap_in_order_total gap_in_order_trans _)
