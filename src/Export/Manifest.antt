-- ===== src/Export/Manifest.antt =====
-- The manifest of internal/export/export.go: its types, and `buildManifest`.
use hannah_logcollector.Prelude.{
  ℕ, ◌-◌, Bool, not, List, [], ◌++◌, map, if◌then◌else◌, ℤ, take, length,
}
use hannah_logcollector.Prelude.Sort.{sort}
use hannah_logcollector.Text.{Bytes, codes, less, equal}
use hannah_logcollector.Time.{format_ms, unix_milli}
use hannah_logcollector.Proto.{Proto}
use hannah_logcollector.Store.Queries.{Filter, is_positive}
use hannah_logcollector.Export.Line.{category_name}

pub record ManifestGap : Type 0 where
  pub dropped : ℤ
  pub from : Bytes
  pub to : Bytes

pub record ManifestSource : Type 0 where
  pub component : Bytes
  pub instance_name : Bytes
  pub version : Bytes
  pub file : Bytes
  pub entries : ℕ
  pub oldest : Bytes
  pub newest : Bytes
  pub gaps : List ManifestGap

pub record Manifest : Type 0 where
  pub generated_at : Bytes
  pub since : Bytes
  pub until : Bytes
  pub excluded_categories : List Bytes
  pub sources : List ManifestSource

-- time.RFC3339 in UTC is the format of `formatMs` without the milliseconds.
abbrev pub without_millis : Bytes → Bytes
without_millis s = take (length s - 5) s ++ codes "Z"

unfoldable pub rfc3339 : ℤ → Bytes
rfc3339 now = without_millis (format_ms (unix_milli now))

-- The order of `sort.Slice`: by component, then by instance.
abbrev pub by_name : ManifestSource → ManifestSource → Bool
by_name a b =
    if equal a.component b.component
    then not (less b.instance_name a.instance_name)
    else less a.component b.component

-- `buildManifest`, for the sources in any order; `sort.Slice` leaves the order of equal names open.
unfoldable pub build_manifest : Proto → List ManifestSource → Filter → ℤ → Manifest
unfolding category_name
build_manifest p sources f now = record {
  generated_at = rfc3339 now;
  since = (if is_positive f.since_ms then format_ms f.since_ms else []);
  until = format_ms f.until_ms;
  excluded_categories = map (category_name p) f.exclude_categories;
  sources = sort by_name sources;
}
