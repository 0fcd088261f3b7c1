-- ===== src/Store/Queries/Gaps.antt =====
-- `Gaps` of internal/store/store.go: the gaps that overlap the time range of a filter.

use hannah_logcollector.Prelude.{
  ◌≡◌, refl, sym, ap, ◌∙◌, Bool, true, false, not, ◌&&◌, ◌||◌, List, [], ◌∷◌, ◌++◌, append-nil, map,
  Option, none, some, ◌==◌, leb, if◌then◌else◌, ℤ, leb_ℤ, length, keep_if, arith,
}
use hannah_logcollector.Prelude.Sort.{sort}
use hannah_logcollector.Text.{Bytes}
use hannah_logcollector.Store.{Source, Gap}
use hannah_logcollector.Store.Sql.{Engine, Sql, query}
use hannah_logcollector.Store.Queries.{
  Filter, Cond, at_least, at_most, component_in, category_not_in, Arg, num, str, when, is_positive,
  has_any, one_of, with_num, source_of,
}
use hannah_logcollector.Store.Queries.Filters.{named, one_of-map}

-- The conditions that `Gaps` puts together, and their arguments.
unfoldable pub gap_conds : Filter → List Cond
gap_conds f =
    when (is_positive f.since_ms) (at_least ∷ [])
    ++ (when (is_positive f.until_ms) (at_most ∷ [])
        ++ when (has_any f.components) (component_in (length f.components) ∷ []))

unfoldable pub gap_args : Filter → List Arg
gap_args f =
    when (is_positive f.since_ms) (num f.since_ms ∷ [])
    ++ (when (is_positive f.until_ms) (num f.until_ms ∷ []) ++ map str f.components)

-- "g.to_ms >= ?", "g.from_ms <= ?", "s.component IN (…)"
abbrev pub gap_cond_holds : Cond → Gap → Bytes → List Arg → Bool × List Arg
gap_cond_holds at_least g c given = with_num given (λ n. leb_ℤ n g.to_ms)
gap_cond_holds at_most g c given = with_num given (λ n. leb_ℤ g.from_ms n)
gap_cond_holds (component_in k) g c given = one_of c k given
gap_cond_holds (category_not_in k) g c given = (false, given)

unfoldable pub gap_all_hold : List Cond → Gap → Bytes → List Arg → Bool
gap_all_hold [] g c given = true
gap_all_hold (cond ∷ rest) g c given =
    let now = gap_cond_holds cond g c given in now.0 && gap_all_hold rest g c now.1

-- A gap joined with its source, if it has one.
abbrev pub gap_selected_by : Filter → Gap → Option Source → Bool
gap_selected_by f g none = false
gap_selected_by f g (some s) = gap_all_hold (gap_conds f) g s.component (gap_args f)

-- ORDER BY g.source_id, g.from_ms, which leaves the order of equal ones open.
abbrev pub gap_in_order : Gap → Gap → Bool
gap_in_order a b =
    if a.source_id == b.source_id then leb_ℤ a.from_ms b.from_ms else leb a.source_id b.source_id

-- `Gaps`
unfoldable pub gaps_of : Engine → Filter → Sql (List Gap)
gaps_of g f = query g (λ s.
    sort gap_in_order
      (keep_if (λ gap. gap_selected_by f gap (source_of gap.source_id s.db.sources)) s.db.gaps))

-- What a filter asks of a gap of a component: that it overlaps the time range.
unfoldable pub overlaps : Filter → Gap → Bytes → Bool
overlaps f g c =
    (not (is_positive f.since_ms) || leb_ℤ f.since_ms g.to_ms)
    && ((not (is_positive f.until_ms) || leb_ℤ g.from_ms f.until_ms)
        && (not (has_any f.components) || named c f.components))

hold_components :
    (g : Gap) (c : Bytes) (ds : List Bytes)
    → gap_all_hold (when (has_any ds) (component_in (length ds) ∷ [])) g c (map str ds)
      ≡ (not (has_any ds) || named c ds)
unfolding gap_all_hold
hold_components g c [] = refl
hold_components g c (d ∷ ds) =
    rw (sym (append-nil (map str ds))) (rw (one_of-map c ds []) (ground arith))

hold_range :
    (g : Gap) (c : Bytes) (b1 b2 : Bool) (since until : ℤ) (later : List Cond) (given : List Arg)
    → gap_all_hold
        (when b1 (at_least ∷ []) ++ (when b2 (at_most ∷ []) ++ later))
        g
        c
        (when b1 (num since ∷ []) ++ (when b2 (num until ∷ []) ++ given))
      ≡ ((not b1 || leb_ℤ since g.to_ms)
          && ((not b2 || leb_ℤ g.from_ms until) && gap_all_hold later g c given))
unfolding gap_all_hold
hold_range g c true true since until later given = refl
hold_range g c true false since until later given = refl
hold_range g c false true since until later given = refl
hold_range g c false false since until later given = refl

-- The conditions of `Gaps`, read with their arguments in order, hold of a gap exactly when it
-- overlaps the time range of the filter, and the filter names its component or none.
pub gap_all_hold-overlaps :
    (f : Filter) (g : Gap) (c : Bytes)
    → gap_all_hold (gap_conds f) g c (gap_args f) ≡ overlaps f g c
unfolding gap_conds gap_args overlaps
gap_all_hold-overlaps f g c =
    hold_range g c (is_positive f.since_ms) (is_positive f.until_ms) f.since_ms f.until_ms _ _
    ∙ ap
        (λ b.
          (not (is_positive f.since_ms) || leb_ℤ f.since_ms g.to_ms)
          && ((not (is_positive f.until_ms) || leb_ℤ g.from_ms f.until_ms) && b))
        (hold_components g c f.components)
