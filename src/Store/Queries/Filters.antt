-- ===== src/Store/Queries/Filters.antt =====
-- The WHERE clause and its arguments mean the filter: every placeholder gets its own argument.
use hannah_logcollector.Prelude.{
  ◌≡◌, refl, ap, ◌∙◌, Bool, true, false, not, ◌&&◌, ◌||◌, List, [], ◌∷◌, ◌++◌, map, arith, ℤ, leb_ℤ,
  eq_ℤ, length,
}
use hannah_logcollector.Text.{Bytes, equal}
use hannah_logcollector.Store.{Entry}
use hannah_logcollector.Store.Queries.{
  Filter, Cond, at_least, at_most, component_in, category_not_in, Arg, num, str, when, is_positive,
  has_any, conds, args, one_of, none_of, all_hold,
}

-- What a filter asks of an entry of a component, said without SQL: a bound that is not positive and
-- an empty list ask nothing.
abbrev pub named : Bytes → List Bytes → Bool
named c [] = false
named c (d ∷ ds) = equal d c || named c ds

abbrev pub excluded : ℤ → List ℤ → Bool
excluded c [] = false
excluded c (d ∷ ds) = eq_ℤ d c || excluded c ds

unfoldable pub passes : Filter → Entry → Bytes → Bool
passes f e c =
    (not (is_positive f.since_ms) || leb_ℤ f.since_ms e.timestamp_ms)
    && ((not (is_positive f.until_ms) || leb_ℤ e.timestamp_ms f.until_ms)
        && ((not (has_any f.components) || named c f.components)
            && not (excluded e.category f.exclude_categories)))

pub one_of-map :
    (c : Bytes) (ds : List Bytes) (rest : List Arg)
    → one_of c (length ds) (map str ds ++ rest) ≡ (named c ds, rest)
one_of-map c [] rest = refl
one_of-map c (d ∷ ds) rest = rw (one_of-map c ds rest)

none_of-map : (c : ℤ) (ds : List ℤ) → none_of c (length ds) (map num ds) ≡ (not (excluded c ds), [])
none_of-map c [] = refl
none_of-map c (d ∷ ds) = rw (none_of-map c ds) (ground arith)

and_true : (b : Bool) → (b && true) ≡ b
and_true true = refl
and_true false = refl

hold_categories :
    (ds : List ℤ) (e : Entry) (c : Bytes)
    → all_hold (when (has_any ds) (category_not_in (length ds) ∷ [])) e c (map num ds)
      ≡ not (excluded e.category ds)
unfolding all_hold
hold_categories [] e c = refl
hold_categories (d ∷ ds) e c =
    ap (λ (t : Bool × List Arg). t.0 && true) (none_of-map e.category (d ∷ ds))
    ∙ and_true (not (excluded e.category (d ∷ ds)))

hold_components :
    (cs : List Bytes) (later : List Cond) (given : List Arg) (e : Entry) (c : Bytes)
    → all_hold
        (when (has_any cs) (component_in (length cs) ∷ []) ++ later)
        e
        c
        (map str cs ++ given)
      ≡ ((not (has_any cs) || named c cs) && all_hold later e c given)
unfolding all_hold
hold_components [] later given e c = refl
hold_components (d ∷ ds) later given e c =
    ap (λ (t : Bool × List Arg). t.0 && all_hold later e c t.1) (one_of-map c (d ∷ ds) given)

module _ (later : List Cond) (given : List Arg) (e : Entry) (c : Bytes) where
  hold_since :
      (b : Bool) (n : ℤ)
      → all_hold (when b (at_least ∷ []) ++ later) e c (when b (num n ∷ []) ++ given)
        ≡ ((not b || leb_ℤ n e.timestamp_ms) && all_hold later e c given)
  unfolding all_hold
  hold_since true n = refl
  hold_since false n = refl

  hold_until :
      (b : Bool) (n : ℤ)
      → all_hold (when b (at_most ∷ []) ++ later) e c (when b (num n ∷ []) ++ given)
        ≡ ((not b || leb_ℤ e.timestamp_ms n) && all_hold later e c given)
  unfolding all_hold
  hold_until true n = refl
  hold_until false n = refl

-- The conditions of `where`, read with their arguments in order, hold of an entry exactly when it
-- passes the filter.
pub all_hold-passes :
    (f : Filter) (e : Entry) (c : Bytes) → all_hold (conds f) e c (args f) ≡ passes f e c
unfolding conds args passes
all_hold-passes f e c =
    hold_since _ _ e c (is_positive f.since_ms) f.since_ms
    ∙ ap (◌&&◌ (not (is_positive f.since_ms) || leb_ℤ f.since_ms e.timestamp_ms)) (
        hold_until _ _ e c (is_positive f.until_ms) f.until_ms
        ∙ ap (◌&&◌ (not (is_positive f.until_ms) || leb_ℤ e.timestamp_ms f.until_ms)) (
            hold_components f.components _ _ e c
            ∙ ap (◌&&◌ (not (has_any f.components) || named c f.components))
                (hold_categories f.exclude_categories e c)))
