-- ===== src/Store/Queries/Stats/Count.antt =====
-- The statistics describe the entries: every entry with a source is counted once, under its source.
use mathlib.Core.List.{Permᴰ}
use mathlib.Core.Path.{subst, fun_ext}
use hannah_logcollector.Prelude.{
  ℕ, ◌+◌, ◌≡◌, ◌≢◌, refl, sym, ap, ◌∙◌, ◌⊎◌, inl, inr, Bool, true, false, ◌||◌, List, [], ◌∷◌, map,
  if◌then◌else◌, length, keep_if, All, arith, Bool-cases,
}
use hannah_logcollector.Prelude.Perm.{Distinct, keep_if-perm, keep_if-All, Distinct-perm}
use hannah_logcollector.Prelude.Sort.{
  sort, sort-perm, sort-IsSorted, IsSorted, Pairwise, IsSorted-Pairwise,
}
use hannah_logcollector.Text.Laws.{
  NamedBefore, equal_iff, less_trans, less_total, less_irrefl, less_weak_trans,
}
use hannah_logcollector.Store.{Source}
use hannah_logcollector.Store.Sql.{Row, Engine, State, ok, failed}
use hannah_logcollector.Store.Queries.{has_any}
use hannah_logcollector.Store.Queries.Stats.{
  SourceStats, LogSource, of_source, grouped, group, groups, by_name, sources_of, log_source,
  get_sources,
}
use hannah_logcollector.Store.Queries.Stats.Describes.{grouped-Describes, Listed, grouped-source}

group-Listed :
    (rows : List Row) (s : Source) (mine : List Row) (others : List SourceStats)
    → keep_if (of_source s.id) rows ≡ mine
    → All (Listed rows) others
    → All (Listed rows) (group s mine others)
unfolding grouped
group-Listed rows s [] others e h = h
group-Listed rows s (r ∷ mine) others e h =
    (rw (grouped-source s r mine, e) (grouped-Describes s r mine), h)

groups-Listed : (rows : List Row) (sources : List Source) → All (Listed rows) (groups rows sources)
unfolding groups
groups-Listed rows [] = tt
groups-Listed rows (s ∷ sources) =
    group-Listed rows s (keep_if (of_source s.id) rows) (groups rows sources) refl
      (groups-Listed rows sources)

-- All entries that the statistics count.
abbrev pub total : List SourceStats → ℕ
total [] = 0
total (st ∷ stats) = st.entries + total stats

abbrev pub has_source : List Source → Row → Bool
has_source [] r = false
has_source (s ∷ sources) r = of_source s.id r || has_source sources r

total-group :
    (s : Source) (mine : List Row) (others : List SourceStats)
    → total (group s mine others) ≡ length mine + total others
total-group s [] others = omega arith
total-group s (r ∷ mine) others = omega (arith, (grouped-Describes s r mine).counted)

-- A source whose id no other has shares no entry with them.
apart :
    (s : Source) (sources : List Source) (r : Row)
    → All (λ (i : ℕ). s.id ≢ i) (map (λ (s : Source). s.id) sources)
    → of_source s.id r ≡ true
    → has_source sources r ≡ false
apart s [] r h e = refl
apart s (q ∷ sources) r (now, later) e = ground (arith, apart s sources r later e)

count_split :
    (s : Source) (sources : List Source) (rows : List Row)
    → All (λ (i : ℕ). s.id ≢ i) (map (λ (s : Source). s.id) sources)
    → length (keep_if (has_source (s ∷ sources)) rows)
      ≡ length (keep_if (of_source s.id) rows) + length (keep_if (has_source sources) rows)
count_split s sources [] h = refl
count_split s sources (r ∷ rows) h =
    ground (arith, count_split s sources rows h, apart s sources r h)

keep_if-nothing : (rows : List Row) → length (keep_if (has_source []) rows) ≡ 0
keep_if-nothing [] = refl
keep_if-nothing (r ∷ rows) = keep_if-nothing rows

total-groups :
    (rows : List Row) (sources : List Source)
    → Distinct (map (λ (s : Source). s.id) sources)
    → total (groups rows sources) ≡ length (keep_if (has_source sources) rows)
unfolding groups
total-groups rows [] d = sym (keep_if-nothing rows)
total-groups rows (s ∷ sources) (now, later) =
    total-group s (keep_if (of_source s.id) rows) (groups rows sources)
    ∙ ap (λ n. length (keep_if (of_source s.id) rows) + n) (total-groups rows sources later)
    ∙ sym (count_split s sources rows now)

-- The source has entries among the rows.
abbrev pub has_entries : List Row → Source → Bool
has_entries rows s = has_any (keep_if (of_source s.id) rows)

sources-group :
    (s : Source) (mine : List Row) (others : List SourceStats) (rest : List Source)
    → map (λ (st : SourceStats). st.source) others ≡ rest
    → map (λ (st : SourceStats). st.source) (group s mine others)
      ≡ (if has_any mine then s ∷ rest else rest)
sources-group s [] others rest e = e
sources-group s (r ∷ mine) others rest e = rw (grouped-source s r mine, e) refl

sources-groups :
    (rows : List Row) (sources : List Source)
    → map (λ (st : SourceStats). st.source) (groups rows sources)
      ≡ keep_if (has_entries rows) sources
unfolding groups
sources-groups rows [] = refl
sources-groups rows (s ∷ sources) =
    sources-group s (keep_if (of_source s.id) rows) (groups rows sources) _
      (sources-groups rows sources)

by_name_total : (a b : Source) → by_name a b ≡ false → by_name b a ≡ true
by_name_total a b h = grind (
  arith,
  less_total a.component b.component,
  less_total a.instance_name b.instance_name,
  less_irrefl a.instance_name,
  equal_iff a.component b.component,
  equal_iff b.component a.component,
  less_trans a.instance_name b.instance_name a.instance_name,
)

by_name_trans : (a b c : Source) → by_name a b ≡ true → by_name b c ≡ true → by_name a c ≡ true
by_name_trans a b c h k = grind (
  arith,
  less_trans a.component b.component c.component,
  equal_iff a.component b.component,
  equal_iff b.component c.component,
  equal_iff a.component c.component,
  less_weak_trans a.instance_name b.instance_name c.instance_name,
)

-- The order of the answer.
abbrev pub ListedBefore : Source → Source → Type 0
ListedBefore a b = NamedBefore a.component a.instance_name b.component b.instance_name

by_name-ListedBefore : (a b : Source) → by_name a b ≡ true → ListedBefore a b
by_name-ListedBefore a b h = grind (arith, equal_iff a.component b.component)

keep_if-IsSorted :
    (p : Source → Bool) (ss : List Source) → IsSorted by_name ss → IsSorted by_name (keep_if p ss)
keep_if-IsSorted p [] s = tt
keep_if-IsSorted p (x ∷ ss) (first, later) = elim (Bool-cases (p x)) [
  | inl e ↦ rw e (keep_if-All p (λ y. by_name x y ≡ true) ss first, keep_if-IsSorted p ss later)
  | inr e ↦ rw e (keep_if-IsSorted p ss later)
]

ids-perm :
    {xs ys : List Source}
    → Permᴰ xs ys
    → Permᴰ (map (λ (s : Source). s.id) xs) (map (λ (s : Source). s.id) ys)
ids-perm Permᴰ.nil = Permᴰ.nil
ids-perm (Permᴰ.cons e p) = Permᴰ.cons (ap (λ (s : Source). s.id) e) (ids-perm p)
ids-perm (Permᴰ.swap e f) = Permᴰ.swap (ap (λ (s : Source). s.id) e) (ap (λ (s : Source). s.id) f)
ids-perm (Permᴰ.trans p q) = Permᴰ.trans (ids-perm p) (ids-perm q)

has_source-perm : {xs ys : List Source} (r : Row) → Permᴰ xs ys → has_source xs r ≡ has_source ys r
has_source-perm r Permᴰ.nil = refl
has_source-perm r (Permᴰ.cons e p) =
    ground (arith, ap (λ (s : Source). s.id) e, has_source-perm r p)
has_source-perm r (Permᴰ.swap e f) =
    ground (arith, ap (λ (s : Source). s.id) e, ap (λ (s : Source). s.id) f)
has_source-perm r (Permᴰ.trans p q) = has_source-perm r p ∙ has_source-perm r q

-- What `GetSources` answers, against the statistics, field by field.
pub record Reports (stats : List SourceStats) (out : List LogSource) : Type 0 where
  pub components :
      map (λ (o : LogSource). o.component) out
      ≡ map (λ (st : SourceStats). st.source.component) stats
  pub instances :
      map (λ (o : LogSource). o.instance_name) out
      ≡ map (λ (st : SourceStats). st.source.instance_name) stats
  pub versions :
      map (λ (o : LogSource). o.version) out ≡ map (λ (st : SourceStats). st.source.version) stats
  pub oldest :
      map (λ (o : LogSource). o.oldest_ms) out ≡ map (λ (st : SourceStats). st.oldest_ms) stats
  pub newest :
      map (λ (o : LogSource). o.newest_ms) out ≡ map (λ (st : SourceStats). st.newest_ms) stats
  pub counts : map (λ (o : LogSource). o.entries) out ≡ map (λ (st : SourceStats). st.entries) stats

map_twice :
    {A : Type 0} (f : LogSource → A) (stats : List SourceStats)
    → map f (map log_source stats) ≡ map (λ st. f (log_source st)) stats
map_twice f [] = refl
map_twice f (st ∷ stats) = ap (◌∷◌ (f (log_source st))) (map_twice f stats)

log_source-Reports : (stats : List SourceStats) → Reports stats (map log_source stats)
log_source-Reports stats = record {
  components = map_twice (λ o. o.component) stats;
  instances = map_twice (λ o. o.instance_name) stats;
  versions = map_twice (λ o. o.version) stats;
  oldest = map_twice (λ o. o.oldest_ms) stats;
  newest = map_twice (λ o. o.newest_ms) stats;
  counts = map_twice (λ o. o.entries) stats;
}

-- `GetSources` changes nothing; unless it fails, it lists exactly the sources that have entries, by
-- component and instance, each with the number of its entries and the timestamps of its oldest and
-- its newest one; and if the ids of the sources are distinct, every entry with a source counts
-- once.
pub get_sources_describes :
    (g : Engine) (s : State)
    → Distinct (map (λ (s : Source). s.id) s.db.sources)
    → let (result, s') = get_sources g s in
      (s'.db ≡ s.db)
      × ((result ≡ failed)
          ⊎ ((stats : List SourceStats) × (out : List LogSource) × (result ≡ ok out)
              × Reports stats out
              × All (Listed s.db.entries) stats
              × Permᴰ
                  (keep_if (has_entries s.db.entries) s.db.sources)
                  (map (λ (st : SourceStats). st.source) stats)
              × Pairwise ListedBefore (map (λ (st : SourceStats). st.source) stats)
              × (total stats ≡ length (keep_if (has_source s.db.sources) s.db.entries))))
unfolding get_sources sources_of
get_sources_describes g s d =
    let sorted = sort by_name s.db.sources in
    let listed = sources-groups s.db.entries sorted in
    elim (Bool-cases (g.fails s.clock)) [
      | inl refused ↦ rw refused (refl, inl refl)
      | inr granted ↦ rw granted (
        refl,
        inr (
          groups s.db.entries sorted,
          map log_source (groups s.db.entries sorted),
          refl,
          log_source-Reports (groups s.db.entries sorted),
          groups-Listed s.db.entries sorted,
          subst (Permᴰ (keep_if (has_entries s.db.entries) s.db.sources)) (sym listed)
              (keep_if-perm (has_entries s.db.entries) (sort-perm by_name s.db.sources)),
          subst (Pairwise ListedBefore) (sym listed) (
              IsSorted-Pairwise by_name ListedBefore by_name-ListedBefore _ (
                keep_if-IsSorted (has_entries s.db.entries) sorted
                  (sort-IsSorted by_name by_name_total by_name_trans s.db.sources))),
          total-groups s.db.entries sorted
                (Distinct-perm (ids-perm (sort-perm by_name s.db.sources)) d)
              ∙ ap (λ p. length (keep_if p s.db.entries))
                  (sym (fun_ext λ r. has_source-perm r (sort-perm by_name s.db.sources))),
        ),
      )
    ]
