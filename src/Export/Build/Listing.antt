-- ===== src/Export/Build/Listing.antt =====
-- What the manifest says, for the sources that have an entry in it.
use mathlib.Core.List.{Permᴰ}
use hannah_logcollector.Prelude.{◌≡◌, refl, true, false, List, [], map, if◌then◌else◌, ℤ, arith}
use hannah_logcollector.Prelude.Sort.{sort, sort-perm, sort-IsSorted, Pairwise, IsSorted-Pairwise}
use hannah_logcollector.Text.Laws.{
  NamedBefore, equal_iff, less_trans, less_total, less_irrefl, less_weak_trans,
}
use hannah_logcollector.Time.{format_ms}
use hannah_logcollector.Proto.{Proto}
use hannah_logcollector.Store.Queries.{Filter, is_positive}
use hannah_logcollector.Export.Line.{category_name}
use hannah_logcollector.Export.Manifest.{ManifestSource, Manifest, rfc3339, by_name, build_manifest}

abbrev pub ListedBefore : ManifestSource → ManifestSource → Type 0
ListedBefore a b = NamedBefore a.component a.instance_name b.component b.instance_name

by_name-ListedBefore : (a b : ManifestSource) → by_name a b ≡ true → ListedBefore a b
by_name-ListedBefore a b h = grind (arith, equal_iff a.component b.component)

by_name_total : (a b : ManifestSource) → by_name a b ≡ false → by_name b a ≡ true
by_name_total a b h = grind (
  arith,
  less_total a.component b.component,
  less_irrefl a.instance_name,
  equal_iff a.component b.component,
  equal_iff b.component a.component,
  less_trans a.instance_name b.instance_name a.instance_name,
)

by_name_trans :
    (a b c : ManifestSource) → by_name a b ≡ true → by_name b c ≡ true → by_name a c ≡ true
by_name_trans a b c h k = grind (
  arith,
  less_trans a.component b.component c.component,
  less_irrefl a.component,
  equal_iff a.component b.component,
  equal_iff b.component c.component,
  equal_iff a.component c.component,
  less_weak_trans a.instance_name b.instance_name c.instance_name,
)

-- The manifest has the time of the export, the times and the excluded categories of the filter, and the
-- sources, by component and instance.
pub record Lists (p : Proto) (now : ℤ) (f : Filter) (sources : List ManifestSource) (m : Manifest)
    : Type 0 where
  pub generated : m.generated_at ≡ rfc3339 now
  pub from : m.since ≡ (if is_positive f.since_ms then format_ms f.since_ms else [])
  pub to : m.until ≡ format_ms f.until_ms
  pub excluded : m.excluded_categories ≡ map (category_name p) f.exclude_categories
  pub listed : Permᴰ sources m.sources
  pub in_order : Pairwise ListedBefore m.sources

pub build_manifest-Lists :
    (p : Proto) (sources : List ManifestSource) (f : Filter) (now : ℤ)
    → Lists p now f sources (build_manifest p sources f now)
unfolding build_manifest
build_manifest-Lists p sources f now = record {
  generated = refl;
  from = refl;
  to = refl;
  excluded = refl;
  listed = sort-perm by_name sources;
  in_order =
      IsSorted-Pairwise by_name ListedBefore by_name-ListedBefore (sort by_name sources)
        (sort-IsSorted by_name by_name_total by_name_trans sources);
}
