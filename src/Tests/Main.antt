-- ===== src/Tests/Main.antt =====
-- The program's settings, and its retention on the sample tables.
use hannah_logcollector.Prelude.{
  ◌≡◌, refl, List, [], ◌∷◌, Option, some, ℤ, pos, negsuc, scale_ℤ, mod_ℤ, wrap, ◌-ℤ◌, arith,
}
use hannah_logcollector.Text.{Bytes, codes, equal, cut}
use hannah_logcollector.Time.{unix_milli}
use hannah_logcollector.Config.{Config, ok, defaults, validate}
use hannah_logcollector.Store.Sql.{State}
use hannah_logcollector.Store.Prune.{Pruned}
use hannah_logcollector.Store.Prune.Order.{Splits}
use hannah_logcollector.Store.Prune.Newest.{Retained}
use hannah_logcollector.Main.{
  day, megabyte, max_age, retention_round, run_retention, level_of, level_warn, level_info,
}
use hannah_logcollector.Main.Retention.{retention_keeps_newest}
use hannah_logcollector.Tests.Store.{engine, start}

abbrev split_host_port : Bytes → Option (Bytes × Bytes)
split_host_port addr = cut addr b':'

defaults_pass : validate split_host_port defaults ≡ ok tt
unfolding validate defaults cut equal
defaults_pass = refl

abbrev ticks : List ℤ
ticks = pos 62_135_596_800_000_000_000 ∷ pos 62_135_597_400_000_000_000 ∷ []

abbrev now : ℤ
now = pos 62_135_598_000_000_000_000

retention_keeps_newest_example :
    (s' : State) × (p : Pruned) × (run_retention engine defaults ticks start ≡ some s')
    × (retention_round engine defaults now s' ≡ some p)
    × Splits start.db.entries p.state.db.entries
    × Retained engine
        (unix_milli (now -ℤ scale_ℤ defaults.retention.days day))
        (scale_ℤ defaults.retention.max_size_mb megabyte)
        s'
        p
retention_keeps_newest_example =
    retention_keeps_newest split_host_port engine defaults ticks now start defaults_pass
      (unfold defaults in omega arith) (unfold defaults in omega arith) (omega arith)

-- A configuration of 300 years: the age is negative, so everything is beyond it.
abbrev centuries : Config
centuries = record defaults { retention = record { days = pos 109_500; max_size_mb = pos 256 } }

age_overflows : max_age centuries ≡ negsuc 8_985_944_073_709_551_615
unfolding max_age wrap mod_ℤ
age_overflows = refl

levels : (level_of (codes "warn") ≡ level_warn) × (level_of (codes "WARN") ≡ level_info)
unfolding level_of equal
levels = (refl, refl)
