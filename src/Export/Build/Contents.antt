-- ===== src/Export/Build/Contents.antt =====
-- What the archive is to hold: a file with the lines of each source, and an entry of the manifest.
use mathlib.Core.List.{map-append}
use hannah_logcollector.Prelude.{
  ℕ, ◌+◌, ◌≡◌, ◌≢◌, refl, sym, ap, ◌∙◌, Bool, List, [], ◌∷◌, ◌++◌, map, append_assoc, append-nil,
  Option, none, some, ◌==◌, length, length-append, keep_if, arith,
}
use hannah_logcollector.Prelude.Perm.{keep_if-append}
use hannah_logcollector.Text.{Bytes}
use hannah_logcollector.Time.{format_ms}
use hannah_logcollector.Proto.{Proto}
use hannah_logcollector.Store.{Source, Entry, Gap}
use hannah_logcollector.Store.Queries.{source_of}
use hannah_logcollector.Export.Line.{format_line, file_name}
use hannah_logcollector.Export.Manifest.{ManifestSource}
use hannah_logcollector.Export.Build.{Member}
use hannah_logcollector.Export.Table.{
  fresh_entry, named_at, opened_at, counted_at, with_gap, manifest_gap,
}

abbrev pub of_source : ℕ → Entry → Bool
of_source id e = e.source_id == id

-- The entries of a source, in order.
abbrev pub mine : ℕ → List Entry → List Entry
mine id = keep_if (of_source id)

abbrev pub gap_of : ℕ → Gap → Bool
gap_of id x = x.source_id == id

abbrev pub gaps_in : ℕ → List Gap → List Gap
gaps_in id = keep_if (gap_of id)

abbrev pub lines_of : Proto → List Entry → Bytes
lines_of p [] = []
lines_of p (e ∷ es) = format_line p e ++ lines_of p es

abbrev pub base_of : List Source → ℕ → ManifestSource
base_of sources id = fresh_entry (source_of id sources)

abbrev pub name_of : List Source → ℕ → Bytes
name_of sources id = file_name (base_of sources id).component (base_of sources id).instance_name

abbrev pub member_of : Proto → List Source → List Entry → ℕ → Member
member_of p sources es id = record { name = name_of sources id; content = lines_of p (mine id es) }

abbrev pub last_of : Entry → List Entry → Entry
last_of e [] = e
last_of e (x ∷ es) = last_of x es

-- The manifest's entry for a source with these entries and gaps: their number, the times of the
-- first and of the last entry, and no file if there are only gaps.
abbrev pub described : ManifestSource → List Entry → List Gap → ManifestSource
described base [] gaps = record base { gaps = map manifest_gap gaps }
described base (e ∷ es) gaps = record base {
  file = file_name base.component base.instance_name;
  entries = length (e ∷ es);
  oldest = format_ms e.timestamp_ms;
  newest = format_ms (last_of e es).timestamp_ms;
  gaps = map manifest_gap gaps;
}

abbrev pub describe : List Source → List Entry → List Gap → ℕ → ManifestSource
describe sources es gaps id = described (base_of sources id) (mine id es) (gaps_in id gaps)

abbrev pub keyed : List Source → List Entry → List Gap → ℕ → ℕ × ManifestSource
keyed sources es gaps id = (id, describe sources es gaps id)

-- One more entry.
pub mine_same :
    (es : List Entry) (e : Entry) → mine e.source_id (es ++ e ∷ []) ≡ mine e.source_id es ++ e ∷ []
mine_same es e = keep_if-append (of_source e.source_id) es (e ∷ []) ∙ ground arith

pub mine_other :
    (k : ℕ) (es : List Entry) (e : Entry) → k ≢ e.source_id → mine k (es ++ e ∷ []) ≡ mine k es
mine_other k es e h =
    keep_if-append (of_source k) es (e ∷ []) ∙ ground (arith, append-nil (mine k es))

pub lines_of-snoc :
    (p : Proto) (es : List Entry) (e : Entry)
    → lines_of p (es ++ e ∷ []) ≡ lines_of p es ++ format_line p e
lines_of-snoc p [] e = append-nil (format_line p e)
lines_of-snoc p (x ∷ es) e =
    ap (λ s. format_line p x ++ s) (lines_of-snoc p es e)
    ∙ sym (append_assoc (format_line p x) (lines_of p es) (format_line p e))

last_of-snoc : (x : Entry) (es : List Entry) (e : Entry) → last_of x (es ++ e ∷ []) ≡ e
last_of-snoc x [] e = refl
last_of-snoc x (y ∷ es) e = last_of-snoc y es e

length-snoc : {A : Type 0} (xs : List A) (x : A) → length (xs ++ x ∷ []) ≡ length xs + 1
length-snoc xs x = length-append xs (x ∷ [])

pub described_first :
    (o : Option Source) (e : Entry)
    → counted_at
        (format_ms e.timestamp_ms)
        (opened_at (format_ms e.timestamp_ms) (named_at (fresh_entry o)))
      ≡ described (fresh_entry o) (e ∷ []) []
described_first none e = refl
described_first (some s) e = refl

pub described_next :
    (base : ManifestSource) (x : Entry) (es : List Entry) (e : Entry) (gaps : List Gap)
    → counted_at (format_ms e.timestamp_ms) (described base (x ∷ es) gaps)
      ≡ described base (x ∷ (es ++ e ∷ [])) gaps
described_next base x es e gaps = ground (arith, last_of-snoc x es e, length-snoc es e)

pub described_gap :
    (base : ManifestSource) (es : List Entry) (gaps : List Gap) (x : Gap)
    → with_gap (manifest_gap x) (described base es gaps) ≡ described base es (gaps ++ x ∷ [])
described_gap base [] gaps x = ground (arith, map-append manifest_gap gaps (x ∷ []))
described_gap base (e ∷ es) gaps x = ground (arith, map-append manifest_gap gaps (x ∷ []))

fresh_gaps : (o : Option Source) → (fresh_entry o).gaps ≡ []
fresh_gaps none = refl
fresh_gaps (some s) = refl

-- A source with nothing so far.
pub described_fresh : (o : Option Source) → described (fresh_entry o) [] [] ≡ fresh_entry o
described_fresh none = refl
described_fresh (some s) = refl
