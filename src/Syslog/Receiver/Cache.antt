-- ===== src/Syslog/Receiver/Cache.antt =====
-- The cache of source ids of internal/syslog/receiver.go.
use mathlib.Core.Path.{subst}
use hannah_logcollector.Prelude.{
  ℕ, ◌≡◌, ◌≢◌, ◌≤◌, refl, inl, inr, Bool, true, false, not, List, [], ◌∷◌, Option, none, some, leb,
  length, keep_if, All, arith, map, ap, Bool-cases,
}
use hannah_logcollector.Prelude.Perm.{Distinct, keep_if-All}
use hannah_logcollector.Text.{Bytes}
use hannah_logcollector.Text.Laws.{equal_iff, equal_refl}
use hannah_logcollector.Store.Sql.{Result, ok, failed}
use hannah_logcollector.Syslog.Receiver.{
  Sources, Known, Receiver, listen, max_sources, has_key, cached, remember, make_space, learn,
  known_or_new, source_id,
}

abbrev pub key_of : Known → Bytes × Bytes
key_of k = (k.component, k.instance_name)

length-keep_if_le : (p : Known → Bool) (ids : List Known) → length (keep_if p ids) ≤ length ids
length-keep_if_le p [] = omega arith
length-keep_if_le p (k ∷ ids) = ground (arith, length-keep_if_le p ids)

has_key-eq :
    (c i : Bytes) (k : Known) → has_key c i k ≡ true → (k.component ≡ c) × (k.instance_name ≡ i)
has_key-eq c i k h = grind (arith, equal_iff k.component c, equal_iff k.instance_name i)

new_key :
    (c i : Bytes) (ids : List Known)
    → All (λ k. (c, i) ≢ k) (map key_of (keep_if (λ k. not (has_key c i k)) ids))
new_key c i [] = tt
new_key c i (k ∷ ids) = elim (Bool-cases (has_key c i k)) [
  | inl same ↦ rw same (new_key c i ids)
  | inr other ↦ rw other (other_key other, new_key c i ids)
]
  where
    other_key : has_key c i k ≡ false → (c, i) ≢ key_of k
    other_key other e = grind (
      arith,
      ap (λ (k : Bytes × Bytes). k.0) e,
      ap (λ (k : Bytes × Bytes). k.1) e,
      equal_refl c,
      equal_refl i,
      other,
    )

kept_keys :
    (P : Bytes × Bytes → Type 0) (c i : Bytes) (ids : List Known)
    → All P (map key_of ids)
    → All P (map key_of (keep_if (λ k. not (has_key c i k)) ids))
kept_keys P c i [] h = tt
kept_keys P c i (k ∷ ids) (now, later) = elim (Bool-cases (has_key c i k)) [
  | inl same ↦ rw same (kept_keys P c i ids later)
  | inr other ↦ rw other (now, kept_keys P c i ids later)
]

kept-Distinct :
    (c i : Bytes) (ids : List Known)
    → Distinct (map key_of ids)
    → Distinct (map key_of (keep_if (λ k. not (has_key c i k)) ids))
kept-Distinct c i [] d = tt
kept-Distinct c i (k ∷ ids) (now, later) = elim (Bool-cases (has_key c i k)) [
  | inl same ↦ rw same (kept-Distinct c i ids later)
  | inr other ↦ rw other (kept_keys _ c i ids now, kept-Distinct c i ids later)
]

module _ {S : Type 0} (sources : Sources S) where
  -- The cache is a map, it does not outgrow its bound, and every id in it stands for its key.
  pub record IsValid (s : S) (ids : List Known) : Type 0 where
    pub bounded : length ids ≤ max_sources
    pub one_each : Distinct (map key_of ids)
    pub registered : All (λ k. sources.Registered s k.component k.instance_name k.id) ids

  pub listen-IsValid : (s : S) → IsValid s listen.ids
  unfolding listen
  listen-IsValid s = record { bounded = omega arith; one_each = tt; registered = tt }

  cached-Registered :
      (s : S) (c i : Bytes) (ids : List Known) (id : ℕ)
      → All (λ k. sources.Registered s k.component k.instance_name k.id) ids
      → cached c i ids ≡ some id
      → sources.Registered s c i id
  unfolding cached
  cached-Registered s c i [] id all h = ground arith
  cached-Registered s c i (k ∷ ids) id (now, later) h = elim (Bool-cases (has_key c i k)) [
    | inl same ↦
        let (ec, ei) = has_key-eq c i k same in
        let e : k.id ≡ id = grind arith in
        subst (λ c. sources.Registered s c i id) ec
          (subst (λ i. sources.Registered s k.component i id) ei
            (subst (sources.Registered s k.component k.instance_name) e now))
    | inr other ↦ cached-Registered s c i ids id later (grind arith)
  ]

  keeps_All :
      (s : S) (c i : Bytes) (ids : List Known)
      → All (λ k. sources.Registered s k.component k.instance_name k.id) ids
      → All
          (λ k.
            sources.Registered (sources.upsert_source c i [] s).1 k.component k.instance_name k.id)
          ids
  keeps_All s c i [] h = tt
  keeps_All s c i (k ∷ ids) (now, later) = (
    sources.upsert_source-keeps c i [] k.component k.instance_name s k.id now,
    keeps_All s c i ids later,
  )

  -- What `sourceID` leaves: the id it returns stands for (component, instance), and the cache is
  -- still valid.
  abbrev pub Leaves : Bytes → Bytes → Result ℕ × Receiver × S → Type 0
  Leaves c i (ok id, r, s) = sources.Registered s c i id × IsValid s r.ids
  Leaves c i (failed, r, s) = IsValid s r.ids

  learned :
      (c i : Bytes) (r : Receiver) (s : S) (id : ℕ)
      → IsValid s r.ids
      → (sources.upsert_source c i [] s).0 ≡ ok id
      → IsValid (sources.upsert_source c i [] s).1 (remember c i id (make_space r.ids))
  learned c i r s id v h = elim (Bool-cases (leb max_sources (length r.ids))) [
    | inl full ↦ rw full (record {
      bounded = omega arith;
      one_each = (tt, tt);
      registered = (sources.upsert_source-registers c i [] s id h, tt);
    })
    | inr room ↦ rw room (record {
      bounded = let shorter = length-keep_if_le (λ k. not (has_key c i k)) r.ids in ground arith;
      one_each = (new_key c i r.ids, kept-Distinct c i r.ids v.one_each);
      registered = (
        sources.upsert_source-registers c i [] s id h,
        keep_if-All _ _ r.ids (keeps_All s c i r.ids v.registered),
      );
    })
  ]

  learn-Leaves :
      (c i : Bytes) (r : Receiver) (s : S) (result : Result ℕ)
      → IsValid s r.ids
      → (sources.upsert_source c i [] s).0 ≡ result
      → Leaves c i (learn sources c i r result (sources.upsert_source c i [] s).1)
  learn-Leaves c i r s (ok id) v e =
      (sources.upsert_source-registers c i [] s id e, learned c i r s id v e)
  learn-Leaves c i r s failed v e = record {
    bounded = v.bounded;
    one_each = v.one_each;
    registered = keeps_All s c i r.ids v.registered;
  }

  known_or_new-Leaves :
      (found : Option ℕ) (c i : Bytes) (r : Receiver) (s : S)
      → IsValid s r.ids
      → cached c i r.ids ≡ found
      → Leaves c i (known_or_new sources found c i r s)
  known_or_new-Leaves (some id) c i r s v h = (cached-Registered s c i r.ids id v.registered h, v)
  known_or_new-Leaves none c i r s v h =
      learn-Leaves c i r s (sources.upsert_source c i [] s).0 v refl

  pub source_id-Leaves :
      (c i : Bytes) (r : Receiver) (s : S)
      → IsValid s r.ids
      → Leaves c i (source_id sources c i r s)
  unfolding source_id
  source_id-Leaves c i r s v = known_or_new-Leaves (cached c i r.ids) c i r s v refl
