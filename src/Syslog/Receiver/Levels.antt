-- ===== src/Syslog/Receiver/Levels.antt =====
-- `levelFor` of internal/syslog/receiver.go against `severity` of internal/forward/format.go.
use hannah_logcollector.Prelude.{◌≡◌, ◌||◌, Bool, if◌then◌else◌, ℤ, eq_ℤ, arith}
use hannah_logcollector.Proto.{Proto}
use hannah_logcollector.Forward.Format.{severity}
use hannah_logcollector.Syslog.Receiver.{level_for}

-- The level is one that `levelFor` gives.
abbrev pub is_level : Proto → ℤ → Bool
is_level p l =
    eq_ℤ l p.level_critical
    || eq_ℤ l p.level_error
    || eq_ℤ l p.level_warning
    || eq_ℤ l p.level_info
    || eq_ℤ l p.level_debug

-- The levels survive the way through syslog; what is no level of the API arrives as info.
pub level_for-severity :
    (p : Proto) (l : ℤ) → level_for p (severity p l) ≡ (if is_level p l then l else p.level_info)
unfolding level_for severity
level_for-severity p l = ground arith
