-- ===== src/Main/Retention.antt =====
-- What the retention of the program keeps, from the configuration on.
use mathlib.Core.List.{map-append}
use mathlib.Core.List.Permᴰ
use mathlib.Core.Path.{subst}
use hannah_logcollector.Prelude.{
  ℕ, zero, suc, ◌*◌, ◌^◌, ◌≤◌, ◌<◌, ◌≡◌, refl, ap, ◌∙◌, List, [], ◌∷◌, map, Option, some, arith, ℤ,
  pos, negsuc, scale_ℤ, mod_ℤ, ◌≤ℤ◌, ◌<ℤ◌, ◌-ℤ◌, ◌+ℤ◌, wrap, ◌↔◌,
}
use hannah_logcollector.Prelude.Perm.{Distinct, Distinct-perm}
use hannah_logcollector.Text.{Bytes}
use hannah_logcollector.Time.{unix_milli}
use hannah_logcollector.Config.{Config, ok, validate}
use hannah_logcollector.Config.Valid.{validate-IsValid}
use hannah_logcollector.Store.Sql.{Row, entry_ids, Engine, State}
use hannah_logcollector.Store.Prune.{Pruned, cutoff_of}
use hannah_logcollector.Store.Prune.Order.{Splits, Splits-refl, Splits-trans}
use hannah_logcollector.Store.Prune.Rounds.{Distinct-right}
use hannah_logcollector.Store.Prune.Newest.{Retained, prune_keeps_newest}
use hannah_logcollector.Main.{
  hour, day, megabyte, max_age, max_bytes, retention_round, run_retention,
}

-- A number below 2^63 fits.
wrap_lem : (n : ℕ) → n < 2 ^ 63 → wrap 64 (pos n) ≡ pos n
unfolding wrap mod_ℤ
wrap_lem n h = ground arith

wrap_fits : (a : ℤ) (n : ℕ) → wrap 64 a ≡ pos n → n < 2 ^ 63
unfolding wrap
wrap_fits a n h = ground arith

-- The age is that of the configuration for up to 106751 days, as far as its nanoseconds fit into 64
-- bits, and for more days it is not.
pub max_age_iff :
    (c : Config) (n : ℕ) → c.retention.days ≡ pos n → (max_age c ≡ pos (n * day)) ↔ (n ≤ 106751)
unfolding max_age
max_age_iff c n e = (
  λ h. omega (arith, wrap_fits _ (n * day) h),
  λ few.
      rw (e, wrap_lem (n * 24) (omega arith), wrap_lem (n * 24 * hour) (omega arith))
        (ap pos (omega arith)),
)

max_bytes_lem :
    (c : Config) (n : ℕ)
    → c.retention.max_size_mb ≡ pos n
    → n < 2 ^ 43
    → max_bytes c ≡ pos (n * megabyte)
unfolding max_bytes
max_bytes_lem c n e small = rw e (wrap_lem (n * megabyte) (omega arith))

Distinct-Splits :
    {rows kept : List Row}
    → Splits rows kept
    → Distinct (map (λ (r : Row). r.id) rows)
    → Distinct (map (λ (r : Row). r.id) kept)
Distinct-Splits {rows} {kept} s d =
    Distinct-right (map (λ (r : Row). r.id) s.gone) (map (λ (r : Row). r.id) kept)
      (rw map-append at (Distinct-perm (Permᴰ.map (λ (r : Row). r.id) s.whole) d))

-- What the rounds leave.
record Kept (s s' : State) : Type 0 where
  split : Splits s.db.entries s'.db.entries
  distinct : Distinct (entry_ids s'.db)
  same_sources : s'.db.sources ≡ s.db.sources

run_retention_lem :
    (g : Engine) (c : Config) (ticks : List ℤ) (s : State)
    → Distinct (entry_ids s.db)
    → (s' : State) × (run_retention g c ticks s ≡ some s') × Kept s s'
unfolding run_retention retention_round
run_retention_lem g c [] s d =
    (s, refl, record { split = Splits-refl s.db.entries; distinct = d; same_sources = refl })
run_retention_lem g c (now ∷ ticks) s d =
    let (p, runs, r) = prune_keeps_newest g now (max_age c) (max_bytes c) s d in
    let (s', on, k) = run_retention_lem g c ticks p.state (Distinct-Splits r.split d) in
    (
      s',
      rw runs on,
      record {
        split = Splits-trans r.split k.split;
        distinct = k.distinct;
        same_sources = k.same_sources ∙ r.same_sources;
      },
    )

settings_lem :
    (c : Config)
    → pos 1 ≤ℤ c.retention.days
    → pos 1 ≤ℤ c.retention.max_size_mb
    → c.retention.days ≤ℤ pos 106751
    → c.retention.max_size_mb <ℤ pos (2 ^ 43)
    → (max_age c ≡ scale_ℤ c.retention.days day)
      × (max_bytes c ≡ scale_ℤ c.retention.max_size_mb megabyte)
settings_lem c a b few small = go c.retention.days c.retention.max_size_mb refl refl a b few small
  where
    go :
        (m n : ℤ)
        → c.retention.days ≡ m
        → c.retention.max_size_mb ≡ n
        → pos 1 ≤ℤ m
        → pos 1 ≤ℤ n
        → m ≤ℤ pos 106751
        → n <ℤ pos (2 ^ 43)
        → (max_age c ≡ scale_ℤ m day) × (max_bytes c ≡ scale_ℤ n megabyte)
    go (pos m) (pos n) e e' a b few small =
        ((max_age_iff c m e).1 (omega arith), max_bytes_lem c n e' (omega arith))
    go (negsuc m) n e e' a b few small = absurd (omega arith)
    go (pos m) (negsuc n) e e' a b few small = absurd (omega arith)

-- The negation of a duration above zero fits too.
wrap-minus : (n : ℕ) → n < 2 ^ 63 → wrap 64 (pos 0 -ℤ pos n) ≡ pos 0 -ℤ pos n
unfolding wrap mod_ℤ ◌-ℤ◌
wrap-minus zero h = ground arith
wrap-minus (suc n) h = ground arith

add-minus : (a : ℤ) (n : ℕ) → a +ℤ (pos 0 -ℤ pos n) ≡ a -ℤ pos n
unfolding ◌-ℤ◌ ◌+ℤ◌
add-minus (pos a) zero = ground arith
add-minus (pos a) (suc n) = ground arith
add-minus (negsuc a) zero = ground arith
add-minus (negsuc a) (suc n) = ground arith

-- The cutoff for the age of a configuration of up to 106751 days.
cutoff_of_lem :
    (now age : ℤ)
    → pos 1 ≤ℤ age
    → age ≤ℤ pos 106751
    → cutoff_of now (scale_ℤ age day) ≡ unix_milli (now -ℤ scale_ℤ age day)
cutoff_of_lem now (pos n) some_days few =
    ap unix_milli
      (ap (λ a. now +ℤ a) (wrap-minus (n * day) (omega arith)) ∙ add-minus now (n * day))
cutoff_of_lem now (negsuc n) some_days few = absurd (omega arith)

retained_by :
    (g : Engine) (now age limit age' limit' cutoff : ℤ) (s : State) (p : Pruned)
    → age ≡ age'
    → limit ≡ limit'
    → cutoff_of now age' ≡ cutoff
    → Retained g (cutoff_of now age) limit s p
    → Retained g cutoff limit' s p
retained_by g now age limit age' limit' cutoff s p same same' e r =
    subst (λ t. Retained g t limit' s p) e (rw (same, same') at r)

-- With a configuration that `validate` accepts, of at most 106751 days and less than 2^43
-- megabytes: after any rounds at any times, however their statements turned out, each entry that is
-- gone is older than every entry that is left. A further round at the time `now` ends too, and
-- keeps this; it removes entries within the days only as long as the data is above the megabytes,
-- at most 1000 in the deletion after which it no longer is; if it reports no error, it leaves no
-- entry and no gap older than the days of the configuration, it has removed no younger gap, and the
-- data fits into the megabytes of the configuration or no entry is left. The rowids of the entries
-- are taken to be distinct.
pub retention_keeps_newest :
    (split_host_port : Bytes → Option (Bytes × Bytes)) (g : Engine) (c : Config) (ticks : List ℤ)
    (now : ℤ) (s : State)
    → validate split_host_port c ≡ ok tt
    → c.retention.days ≤ℤ pos 106751
    → c.retention.max_size_mb <ℤ pos (2 ^ 43)
    → Distinct (entry_ids s.db)
    → (s' : State) × (p : Pruned) × (run_retention g c ticks s ≡ some s')
      × (retention_round g c now s' ≡ some p)
      × Splits s.db.entries p.state.db.entries
      × Retained g
          (unix_milli (now -ℤ scale_ℤ c.retention.days day))
          (scale_ℤ c.retention.max_size_mb megabyte)
          s'
          p
unfolding retention_round
retention_keeps_newest split_host_port g c ticks now s valid days_fit size_fits d =
    let accepted = validate-IsValid split_host_port c valid in
    let (age, size) =
      settings_lem c accepted.keeps_a_day accepted.keeps_a_megabyte days_fit size_fits in
    let (s', runs, k) = run_retention_lem g c ticks s d in
    let (p, prunes, r) = prune_keeps_newest g now (max_age c) (max_bytes c) s' k.distinct in
    (
      s',
      p,
      runs,
      prunes,
      Splits-trans k.split r.split,
      retained_by g now _ _ _ _ _ s' p age size
          (cutoff_of_lem now c.retention.days accepted.keeps_a_day days_fit) r,
    )
