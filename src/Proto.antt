-- ===== src/Proto.antt =====
-- What the collector uses of the generated package hannah-proto-go: the numbers and names of the
-- enums `LogLevel` and `LogCategory`. That package is not part of the repository, so it is a
-- parameter of the model.
use hannah_logcollector.Prelude.{ℤ}
use hannah_logcollector.Text.{Bytes}

pub record Proto : Type 0 where
  pub level_critical : ℤ
  pub level_error : ℤ
  pub level_warning : ℤ
  pub level_info : ℤ
  pub level_debug : ℤ
  pub level_string : ℤ → Bytes
  pub category_unspecified : ℤ
  pub category_general : ℤ
  pub category_string : ℤ → Bytes
