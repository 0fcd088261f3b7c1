-- ===== src/Export/Table.antt =====
-- The map `manifest` of `Build` in internal/export/export.go, from the ids of the sources to their
-- entries in the manifest, here a list of pairs.
use hannah_logcollector.Prelude.{
  ℕ, ◌+◌, List, [], ◌∷◌, ◌++◌, Option, none, some, ◌==◌, if◌then◌else◌,
}
use hannah_logcollector.Text.{Bytes}
use hannah_logcollector.Time.{format_ms}
use hannah_logcollector.Store.{Source, Gap}
use hannah_logcollector.Store.Queries.{source_of}
use hannah_logcollector.Export.Line.{file_name}
use hannah_logcollector.Export.Manifest.{ManifestGap, ManifestSource}

-- `manifest[id]`
abbrev pub entry_at : ℕ → List (ℕ × ManifestSource) → Option ManifestSource
entry_at id [] = none
entry_at id ((k, m) ∷ rest) = if k == id then some m else entry_at id rest

-- A change of `*manifest[id]`.
abbrev pub change_at :
    ℕ → (ManifestSource → ManifestSource) → List (ℕ × ManifestSource) → List (ℕ × ManifestSource)
change_at id g [] = []
change_at id g ((k, m) ∷ rest) =
    let later = change_at id g rest in if k == id then (k, g m) ∷ rest else (k, m) ∷ later

-- A source that is not in the map is Go's zero value.
abbrev pub fresh_entry : Option Source → ManifestSource
fresh_entry none = record {
  component = [];
  instance_name = [];
  version = [];
  file = [];
  entries = 0;
  oldest = [];
  newest = [];
  gaps = [];
}
fresh_entry (some s) = record {
  component = s.component;
  instance_name = s.instance_name;
  version = s.version;
  file = [];
  entries = 0;
  oldest = [];
  newest = [];
  gaps = [];
}

abbrev pub ensured :
    ℕ
    → ManifestSource
    → Option ManifestSource
    → List (ℕ × ManifestSource)
    → List (ℕ × ManifestSource)
ensured id fresh none manifest = manifest ++ (id, fresh) ∷ []
ensured id fresh (some _) manifest = manifest

-- The function `source`, which makes the entry of a source if there is none.
unfoldable pub with_source : List Source → ℕ → List (ℕ × ManifestSource) → List (ℕ × ManifestSource)
with_source sources id manifest =
    ensured id (fresh_entry (source_of id sources)) (entry_at id manifest) manifest

-- `m.File` and `m.Oldest` at a source's first entry.
abbrev pub named_at : ManifestSource → ManifestSource
named_at m = record m { file = file_name m.component m.instance_name }

abbrev pub opened_at : Bytes → ManifestSource → ManifestSource
opened_at oldest m = record m { oldest = oldest }

-- `m.Entries` and `m.Newest` at each entry.
abbrev pub counted_at : Bytes → ManifestSource → ManifestSource
counted_at newest m = record m { entries = m.entries + 1; newest = newest }

abbrev pub manifest_gap : Gap → ManifestGap
manifest_gap x = record { dropped = x.dropped; from = format_ms x.from_ms; to = format_ms x.to_ms }

abbrev pub with_gap : ManifestGap → ManifestSource → ManifestSource
with_gap x m = record m { gaps = m.gaps ++ x ∷ [] }

abbrev pub file_at : Option ManifestSource → Bytes
file_at none = []
file_at (some m) = m.file

-- The loop over the gaps.
unfoldable pub take_gaps :
    List Source → List Gap → List (ℕ × ManifestSource) → List (ℕ × ManifestSource)
unfolding with_source
take_gaps sources [] manifest = manifest
take_gaps sources (x ∷ gaps) manifest =
    take_gaps sources gaps
      (change_at x.source_id (with_gap (manifest_gap x)) (with_source sources x.source_id manifest))
