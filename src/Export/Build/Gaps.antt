-- ===== src/Export/Build/Gaps.antt =====
-- The loop over the gaps in `Build`: a source that has gaps only gets its entry here.
use mathlib.Core.List.{map-append}
use mathlib.Core.Path.{subst, fun_ext}
use hannah_logcollector.Prelude.{
  ℕ, ◌≡◌, refl, sym, ap, ◌∙◌, true, false, ◌||◌, List, [], ◌∷◌, ◌++◌, map, append_assoc, append-nil,
  ◌==◌, All, All-append, arith, Bool-cases, inl, inr,
}
use hannah_logcollector.Prelude.Perm.{All-imp, Distinct, keep_if-append}
use hannah_logcollector.Store.{Source, Entry, Gap}
use hannah_logcollector.Store.Queries.{source_of, has_any}
use hannah_logcollector.Export.Manifest.{ManifestSource}
use hannah_logcollector.Export.Table.{change_at, with_source, with_gap, manifest_gap, take_gaps}
use hannah_logcollector.Export.Build.Contents.{
  mine, gap_of, gaps_in, base_of, described, describe, keyed, described_gap, described_fresh,
}
use hannah_logcollector.Export.Build.Tables.{
  table_of, with_source-absent, Among, Among-append, Among-last,
}
use hannah_logcollector.Export.Build.Listed.{
  changed, listed, listed-Among, not_listed, with_id, Distinct-last, entry_at-listed,
  change_at-Distinct, mine-nil, gaps_in-nil, keeps_true, has_any-append,
}

module _ (sources : List Source) (es : List Entry) where
  -- The map has an entry for each source with entries or gaps, and what there is to say of it.
  pub record Tabled (gaps : List Gap) (ids : List ℕ) (manifest : List (ℕ × ManifestSource))
      : Type 0 where
    pub table : manifest ≡ map (keyed sources es gaps) ids
    pub distinct : Distinct ids
    pub known : All (λ (x : Entry). Among x.source_id ids) es
    pub known_gaps : All (λ (x : Gap). Among x.source_id ids) gaps
    pub some_reason : All (λ k. (has_any (mine k es) || has_any (gaps_in k gaps)) ≡ true) ids

  describe_more :
      (gaps : List Gap) (x : Gap) (k : ℕ)
      → changed (describe sources es gaps) x.source_id (with_gap (manifest_gap x)) k
        ≡ describe sources es (gaps ++ x ∷ []) k
  describe_more gaps x k = elim (Bool-cases (x.source_id == k)) [
    | inl e ↦
        let q : (k == x.source_id) ≡ true = ground arith in
        rw q (
          described_gap (base_of sources k) (mine k es) (gaps_in k gaps) x
          ∙ ap (described (base_of sources k) (mine k es))
              (sym (keep_if-append (gap_of k) gaps (x ∷ []) ∙ rw e refl)))
    | inr e ↦
        let q : (k == x.source_id) ≡ false = ground arith in
        rw q (
          ap (described (base_of sources k) (mine k es))
            (sym (keep_if-append (gap_of k) gaps (x ∷ []) ∙ rw e (append-nil (gaps_in k gaps)))))
  ]

  reason_more :
      (gaps : List Gap) (x : Gap) (k : ℕ)
      → (has_any (mine k es) || has_any (gaps_in k gaps)) ≡ true
      → (has_any (mine k es) || has_any (gaps_in k (gaps ++ x ∷ []))) ≡ true
  reason_more gaps x k h =
      rw
        (
          keep_if-append (gap_of k) gaps (x ∷ []),
          has_any-append (gaps_in k gaps) (gaps_in k (x ∷ [])),
        )
        (keeps_true (has_any (mine k es)) (has_any (gaps_in k gaps)) _ h)

  reason_new :
      (gaps : List Gap) (x : Gap)
      → (has_any (mine x.source_id es) || has_any (gaps_in x.source_id (gaps ++ x ∷ []))) ≡ true
  reason_new gaps x =
      rw
        (
          keep_if-append (gap_of x.source_id) gaps (x ∷ []),
          has_any-append (gaps_in x.source_id gaps) (gaps_in x.source_id (x ∷ [])),
        )
        (ground arith)

  -- The source of the next gap gets an entry, if it has none.
  with_source-Tabled :
      (gaps : List Gap) (ids : List ℕ) (manifest : List (ℕ × ManifestSource)) (x : Gap)
      → Tabled gaps ids manifest
      → (with_source sources x.source_id manifest
          ≡ table_of (describe sources es gaps) (with_id x.source_id ids))
        × Distinct (with_id x.source_id ids)
        × Among x.source_id (with_id x.source_id ids)
  unfolding with_source
  with_source-Tabled gaps ids manifest x t = elim (Bool-cases (listed x.source_id ids)) [
    | inl e ↦ rw e (
      ap (with_source sources x.source_id) t.table
          ∙ rw (entry_at-listed (describe sources es gaps) x.source_id ids e) refl,
      t.distinct,
      listed-Among x.source_id ids e,
    )
    | inr e ↦
        let apart = not_listed x.source_id ids e in
        let fresh = described_fresh (source_of x.source_id sources) in
        rw e (
          ap (with_source sources x.source_id) t.table
              ∙ with_source-absent (describe sources es gaps) sources x.source_id ids apart
              ∙ ap (λ m. table_of (describe sources es gaps) ids ++ (x.source_id, m) ∷ [])
                  (sym (
                    ap (λ l. described (base_of sources x.source_id) l (gaps_in x.source_id gaps))
                      (mine-nil x.source_id es ids apart t.known)
                    ∙ ap (described (base_of sources x.source_id) [])
                        (gaps_in-nil x.source_id gaps ids apart t.known_gaps)
                    ∙ fresh))
              ∙ sym (map-append (keyed sources es gaps) ids (x.source_id ∷ [])),
          Distinct-last ids x.source_id t.distinct apart,
          Among-last x.source_id ids,
        )
  ]

  still : (id j : ℕ) (ids : List ℕ) → Among j ids → Among j (with_id id ids)
  still id j ids m = elim (Bool-cases (listed id ids)) [
    | inl e ↦ rw e m
    | inr e ↦ rw e (Among-append j ids (id ∷ []) m)
  ]

  reasons :
      (gaps : List Gap) (x : Gap) (ids : List ℕ)
      → All (λ k. (has_any (mine k es) || has_any (gaps_in k gaps)) ≡ true) ids
      → All
          (λ k. (has_any (mine k es) || has_any (gaps_in k (gaps ++ x ∷ []))) ≡ true)
          (with_id x.source_id ids)
  reasons gaps x ids h =
      let more = All-imp ids (reason_more gaps x) h in
      elim (Bool-cases (listed x.source_id ids)) [
        | inl e ↦ rw e more
        | inr e ↦ rw e (All-append _ ids (x.source_id ∷ []) more (reason_new gaps x, tt))
      ]

  next-Tabled :
      (gaps : List Gap) (ids : List ℕ) (manifest : List (ℕ × ManifestSource)) (x : Gap)
      → Tabled gaps ids manifest
      → Tabled (gaps ++ x ∷ []) (with_id x.source_id ids) (
          change_at x.source_id
            (with_gap (manifest_gap x))
            (with_source sources x.source_id manifest))
  next-Tabled gaps ids manifest x t =
      let (there, distinct, found) = with_source-Tabled gaps ids manifest x t in
      let ids' = with_id x.source_id ids in
      record {
        table =
            ap (change_at x.source_id (with_gap (manifest_gap x))) there
            ∙ change_at-Distinct (describe sources es gaps) x.source_id (with_gap (manifest_gap x))
                ids' distinct
            ∙ ap (λ (F : ℕ → ManifestSource). table_of F ids') (fun_ext (describe_more gaps x));
        distinct = distinct;
        known = All-imp es (λ y m. still x.source_id y.source_id ids m) t.known;
        known_gaps =
            All-append _ gaps (x ∷ [])
              (All-imp gaps (λ y m. still x.source_id y.source_id ids m) t.known_gaps) (found, tt);
        some_reason = reasons gaps x ids t.some_reason;
      }

  -- Behind all gaps.
  pub take_gaps-Tabled :
      (rest gaps : List Gap) (ids : List ℕ) (manifest : List (ℕ × ManifestSource))
      → Tabled gaps ids manifest
      → (js : List ℕ) × Tabled (gaps ++ rest) js (take_gaps sources rest manifest)
  unfolding take_gaps
  take_gaps-Tabled [] gaps ids manifest t =
      (ids, subst (λ l. Tabled l ids manifest) (sym (append-nil gaps)) t)
  take_gaps-Tabled (x ∷ rest) gaps ids manifest t =
      let (js, all) =
        take_gaps-Tabled rest (gaps ++ x ∷ []) (with_id x.source_id ids) _
          (next-Tabled gaps ids manifest x t) in
      (
        js,
        subst (λ l. Tabled l js (take_gaps sources (x ∷ rest) manifest))
            (append_assoc gaps (x ∷ []) rest) all,
      )
