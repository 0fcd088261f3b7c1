-- ===== src/Store.antt =====
-- internal/store/store.go: the types. The children model the statements on the tables, and the
-- batching writer of internal/store/writer.go.
pub mod Sql
pub mod Queries
pub mod Prune
pub mod Writer
use hannah_logcollector.Prelude.{ℕ, ℤ}
use hannah_logcollector.Text.{Bytes}

-- `Source`: one shipping component instance.
pub record Source : Type 0 where
  pub id : ℕ
  pub component : Bytes
  pub instance_name : Bytes
  pub version : Bytes

-- `Entry`: a single log line, with the raw enum values of its level and category.
pub record Entry : Type 0 where
  pub source_id : ℕ
  pub timestamp_ms : ℤ
  pub level : ℤ
  pub logger : Bytes
  pub message : Bytes
  pub category : ℤ

-- `Gap`: entries that a component had to drop.
pub record Gap : Type 0 where
  pub source_id : ℕ
  pub dropped : ℤ
  pub from_ms : ℤ
  pub to_ms : ℤ
