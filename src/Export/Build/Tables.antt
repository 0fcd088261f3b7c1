-- ===== src/Export/Build/Tables.antt =====
-- The map of manifest sources, and lists of the ids in it.
use hannah_logcollector.Prelude.{
  ℕ, ◌<◌, ◌≡◌, ◌≢◌, ◌⊎◌, refl, ap, ◌∙◌, List, [], ◌∷◌, ◌++◌, map, none, some, All, All-append,
  arith, inl, inr,
}
use hannah_logcollector.Prelude.Perm.{All-imp}
use hannah_logcollector.Store.{Source, Entry}
use hannah_logcollector.Export.Manifest.{ManifestSource}
use hannah_logcollector.Export.Table.{entry_at, change_at, with_source}
use hannah_logcollector.Export.Build.Contents.{mine, base_of, mine_other}

-- The map of the manifest, as a list of keys with what each has.
module _ (F : ℕ → ManifestSource) where
  abbrev pub table_of : List ℕ → List (ℕ × ManifestSource)
  table_of = map (λ k. (k, F k))

  pub entry_at-absent :
      (id : ℕ) (ids : List ℕ) → All (λ k. k ≢ id) ids → entry_at id (table_of ids) ≡ none
  entry_at-absent id [] h = refl
  entry_at-absent id (k ∷ ids) h = ground (arith, entry_at-absent id ids h.1)

  pub entry_at-last :
      (id : ℕ) (m : ManifestSource) (ids : List ℕ)
      → All (λ k. k ≢ id) ids
      → entry_at id (table_of ids ++ (id, m) ∷ []) ≡ some m
  entry_at-last id m [] h = ground arith
  entry_at-last id m (k ∷ ids) h = ground (arith, entry_at-last id m ids h.1)

  pub change_at-last :
      (id : ℕ) (g : ManifestSource → ManifestSource) (m : ManifestSource) (ids : List ℕ)
      → All (λ k. k ≢ id) ids
      → change_at id g (table_of ids ++ (id, m) ∷ []) ≡ table_of ids ++ (id, g m) ∷ []
  change_at-last id g m [] h = ground arith
  change_at-last id g m (k ∷ ids) h = ground (arith, change_at-last id g m ids h.1)

  pub with_source-absent :
      (sources : List Source) (id : ℕ) (ids : List ℕ)
      → All (λ k. k ≢ id) ids
      → with_source sources id (table_of ids) ≡ table_of ids ++ (id, base_of sources id) ∷ []
  unfolding with_source
  with_source-absent sources id ids h = rw (entry_at-absent id ids h) refl

-- What depends on the entries of the sources `ids` alone is the same after an entry of another
-- source.
pub map_others :
    {A : Type 0} (F : ℕ → List Entry → A) (es : List Entry) (e : Entry) (ids : List ℕ)
    → All (λ k. k ≢ e.source_id) ids
    → map (λ k. F k (mine k (es ++ e ∷ []))) ids ≡ map (λ k. F k (mine k es)) ids
map_others F es e [] h = refl
map_others F es e (k ∷ ids) h =
    ap (λ l. F k l ∷ map (λ k. F k (mine k (es ++ e ∷ []))) ids) (mine_other k es e h.0)
    ∙ ap (◌∷◌ (F k (mine k es))) (map_others F es e ids h.1)

abbrev pub Among : ℕ → List ℕ → Type 0
Among k [] = ⊥
Among k (i ∷ ids) = (i ≡ k) ⊎ Among k ids

pub Among-append : (k : ℕ) (ids js : List ℕ) → Among k ids → Among k (ids ++ js)
Among-append k [] js h = absurd h
Among-append k (i ∷ ids) js (inl e) = inl e
Among-append k (i ∷ ids) js (inr h) = inr (Among-append k ids js h)

pub Among-last : (k : ℕ) (ids : List ℕ) → Among k (ids ++ k ∷ [])
Among-last k [] = inl refl
Among-last k (i ∷ ids) = inr (Among-last k ids)

pub below-ne : (id : ℕ) (ids : List ℕ) → All (λ k. k < id) ids → All (λ k. k ≢ id) ids
below-ne id ids h = All-imp ids (λ k l. omega arith) h

-- Ids that rise.
abbrev pub Rising : List ℕ → Type 0
Rising [] = Unit
Rising (i ∷ ids) = All (λ k. i < k) ids × Rising ids

pub Rising-last :
    (ids : List ℕ) (id : ℕ) → Rising ids → All (λ k. k < id) ids → Rising (ids ++ id ∷ [])
Rising-last [] id r h = (tt, tt)
Rising-last (i ∷ ids) id r h =
    (All-append _ ids (id ∷ []) r.0 (h.0, tt), Rising-last ids id r.1 h.1)
