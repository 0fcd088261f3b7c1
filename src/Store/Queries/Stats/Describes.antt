-- ===== src/Store/Queries/Stats/Describes.antt =====
-- What the statistics of one source say of its rows.
use mathlib.Core.Path.{subst}
use hannah_logcollector.Prelude.{
  ◌<◌, ◌≡◌, refl, sym, ◌⊎◌, inl, inr, List, [], ◌∷◌, ℤ, ◌≤ℤ◌, length, keep_if, All, arith,
}
use hannah_logcollector.Store.{Source}
use hannah_logcollector.Store.Sql.{Row}
use hannah_logcollector.Store.Queries.Stats.{SourceStats, of_source, min_ℤ, max_ℤ, grouped}

-- An entry of the rows has this timestamp.
abbrev pub Occurs : ℤ → List Row → Type 0
Occurs t [] = ⊥
Occurs t (r ∷ rows) = (r.entry.timestamp_ms ≡ t) ⊎ Occurs t rows

-- The statistics of a group of rows.
pub record Describes (rows : List Row) (st : SourceStats) : Type 0 where
  pub some_entry : 0 < st.entries
  pub counted : st.entries ≡ length rows
  pub oldest_first : All (λ (r : Row). st.oldest_ms ≤ℤ r.entry.timestamp_ms) rows
  pub newest_last : All (λ (r : Row). r.entry.timestamp_ms ≤ℤ st.newest_ms) rows
  pub oldest_there : Occurs st.oldest_ms rows
  pub newest_there : Occurs st.newest_ms rows

lower :
    (a b : ℤ) (rows : List Row)
    → a ≤ℤ b
    → All (λ (r : Row). b ≤ℤ r.entry.timestamp_ms) rows
    → All (λ (r : Row). a ≤ℤ r.entry.timestamp_ms) rows
lower a b [] h all = tt
lower a b (r ∷ rows) h (now, later) = (omega arith, lower a b rows h later)

higher :
    (a b : ℤ) (rows : List Row)
    → a ≤ℤ b
    → All (λ (r : Row). r.entry.timestamp_ms ≤ℤ a) rows
    → All (λ (r : Row). r.entry.timestamp_ms ≤ℤ b) rows
higher a b [] h all = tt
higher a b (r ∷ rows) h (now, later) = (omega arith, higher a b rows h later)

min_lem : (a b : ℤ) → (min_ℤ a b ≤ℤ a) × (min_ℤ a b ≤ℤ b) × ((min_ℤ a b ≡ a) ⊎ (min_ℤ a b ≡ b))
min_lem a b = ground arith

max_lem : (a b : ℤ) → (a ≤ℤ max_ℤ a b) × (b ≤ℤ max_ℤ a b) × ((max_ℤ a b ≡ a) ⊎ (max_ℤ a b ≡ b))
max_lem a b = ground arith

pub grouped-Describes :
    (s : Source) (r : Row) (rows : List Row) → Describes (r ∷ rows) (grouped s r rows)
unfolding grouped
grouped-Describes s r [] = record {
  some_entry = omega arith;
  counted = refl;
  oldest_first = (omega arith, tt);
  newest_last = (omega arith, tt);
  oldest_there = inl refl;
  newest_there = inl refl;
}
grouped-Describes s r (q ∷ rows) =
    let d = grouped-Describes s q rows in
    let (m1, m2, m3) = min_lem r.entry.timestamp_ms (grouped s q rows).oldest_ms in
    let (x1, x2, x3) = max_lem r.entry.timestamp_ms (grouped s q rows).newest_ms in
    record {
      some_entry = omega arith;
      counted = omega (arith, d.counted);
      oldest_first = (m1, lower _ _ (q ∷ rows) m2 d.oldest_first);
      newest_last = (x1, higher _ _ (q ∷ rows) x2 d.newest_last);
      oldest_there = elim m3 [
        | inl e ↦ inl (sym e)
        | inr e ↦ inr (subst (λ t. Occurs t (q ∷ rows)) (sym e) d.oldest_there)
      ];
      newest_there = elim x3 [
        | inl e ↦ inl (sym e)
        | inr e ↦ inr (subst (λ t. Occurs t (q ∷ rows)) (sym e) d.newest_there)
      ];
    }

-- One for each source that has entries.
abbrev pub Listed : List Row → SourceStats → Type 0
Listed rows st = Describes (keep_if (of_source st.source.id) rows) st

pub grouped-source : (s : Source) (r : Row) (rows : List Row) → (grouped s r rows).source ≡ s
unfolding grouped
grouped-source s r [] = refl
grouped-source s r (q ∷ rows) = refl
