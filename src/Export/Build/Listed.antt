-- ===== src/Export/Build/Listed.antt =====
-- The map of manifest sources in `Build`, as a table of distinct ids.
use mathlib.Core.Path.{subst}
use hannah_logcollector.Prelude.{
  ℕ, ◌≡◌, ◌≢◌, refl, sym, ap, Bool, true, false, ◌||◌, List, [], ◌∷◌, ◌++◌, map, some, ◌==◌,
  if◌then◌else◌, All, All-append, arith, Bool-cases, inl, inr,
}
use hannah_logcollector.Prelude.Perm.{All-imp, Distinct}
use hannah_logcollector.Store.{Entry, Gap}
use hannah_logcollector.Store.Queries.{has_any}
use hannah_logcollector.Export.Manifest.{ManifestSource}
use hannah_logcollector.Export.Table.{entry_at, change_at}
use hannah_logcollector.Export.Build.Contents.{mine, gaps_in}
use hannah_logcollector.Export.Build.Tables.{table_of, Among, Rising}

abbrev pub listed : ℕ → List ℕ → Bool
listed id [] = false
listed id (k ∷ ids) = k == id || listed id ids

pub listed-Among : (id : ℕ) (ids : List ℕ) → listed id ids ≡ true → Among id ids
listed-Among id [] h = ground arith
listed-Among id (k ∷ ids) h = elim (Bool-cases (k == id)) [
  | inl e ↦ inl (ground arith)
  | inr e ↦ inr (listed-Among id ids (ground arith))
]

pub not_listed : (id : ℕ) (ids : List ℕ) → listed id ids ≡ false → All (λ k. k ≢ id) ids
not_listed id [] h = tt
not_listed id (k ∷ ids) h = (ground arith, not_listed id ids (ground arith))

apart-Among : (id j : ℕ) (ids : List ℕ) → All (λ k. k ≢ id) ids → Among j ids → j ≢ id
apart-Among id j [] h m = absurd m
apart-Among id j (k ∷ ids) h (inl e) = ground arith
apart-Among id j (k ∷ ids) h (inr m) = apart-Among id j ids h.1 m

-- The ids once `id` has an entry.
abbrev pub with_id : ℕ → List ℕ → List ℕ
with_id id ids = if listed id ids then ids else ids ++ id ∷ []

pub Distinct-last :
    (ids : List ℕ) (id : ℕ) → Distinct ids → All (λ k. k ≢ id) ids → Distinct (ids ++ id ∷ [])
Distinct-last [] id d h = (tt, tt)
Distinct-last (k ∷ ids) id d h =
    (All-append _ ids (id ∷ []) d.0 (h.0, tt), Distinct-last ids id d.1 h.1)

pub Rising-Distinct : (ids : List ℕ) → Rising ids → Distinct ids
Rising-Distinct [] r = tt
Rising-Distinct (i ∷ ids) r = (All-imp ids (λ k l. omega arith) r.0, Rising-Distinct ids r.1)

module _ (F : ℕ → ManifestSource) where
  pub entry_at-listed :
      (id : ℕ) (ids : List ℕ) → listed id ids ≡ true → entry_at id (table_of F ids) ≡ some (F id)
  entry_at-listed id [] h = ground arith
  entry_at-listed id (k ∷ ids) h = ground (arith, entry_at-listed id ids)

  -- A change of one entry.
  abbrev pub changed : ℕ → (ManifestSource → ManifestSource) → ℕ → ManifestSource
  changed id g k = if k == id then g (F k) else F k

  unchanged :
      (id : ℕ) (g : ManifestSource → ManifestSource) (ids : List ℕ)
      → All (λ k. id ≢ k) ids
      → map (λ k. (k, changed id g k)) ids ≡ table_of F ids
  unchanged id g [] h = refl
  unchanged id g (k ∷ ids) h = ground (arith, unchanged id g ids h.1)

  pub change_at-Distinct :
      (id : ℕ) (g : ManifestSource → ManifestSource) (ids : List ℕ)
      → Distinct ids
      → change_at id g (table_of F ids) ≡ map (λ k. (k, changed id g k)) ids
  change_at-Distinct id g [] d = refl
  change_at-Distinct id g (k ∷ ids) d = elim (Bool-cases (k == id)) [
    | inl e ↦
        let q : k ≡ id = ground arith in
        rw e (
          ap (◌∷◌ (k, g (F k)))
            (sym (unchanged id g ids (subst (λ i. All (λ j. i ≢ j) ids) q d.0))))
    | inr e ↦ rw e (ap (◌∷◌ (k, F k)) (change_at-Distinct id g ids d.1))
  ]

pub mine-nil :
    (id : ℕ) (es : List Entry) (ids : List ℕ)
    → All (λ k. k ≢ id) ids
    → All (λ (x : Entry). Among x.source_id ids) es
    → mine id es ≡ []
mine-nil id [] ids h m = refl
mine-nil id (x ∷ es) ids h m =
    let apart = apart-Among id x.source_id ids h m.0 in ground (arith, mine-nil id es ids h m.1)

pub gaps_in-nil :
    (id : ℕ) (gaps : List Gap) (ids : List ℕ)
    → All (λ k. k ≢ id) ids
    → All (λ (x : Gap). Among x.source_id ids) gaps
    → gaps_in id gaps ≡ []
gaps_in-nil id [] ids h m = refl
gaps_in-nil id (x ∷ gaps) ids h m =
    let apart = apart-Among id x.source_id ids h m.0 in
    ground (arith, gaps_in-nil id gaps ids h m.1)

pub keeps_true : (a b c : Bool) → (a || b) ≡ true → (a || (b || c)) ≡ true
keeps_true a b c h = ground arith

pub has_any-append : {A : Type 0} (xs ys : List A) → has_any (xs ++ ys) ≡ (has_any xs || has_any ys)
has_any-append [] ys = refl
has_any-append (x ∷ xs) ys = refl
