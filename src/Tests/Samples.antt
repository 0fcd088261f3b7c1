-- ===== src/Tests/Samples.antt =====
-- Sample values: the enums as a generated package may number them, a satellite, its entries.
use hannah_logcollector.Prelude.{ℤ, pos, [], ◌∷◌, if◌then◌else◌, eq_ℤ}
use hannah_logcollector.Text.{Bytes, codes}
use hannah_logcollector.Proto.{Proto}
use hannah_logcollector.Store.{Source, Entry}

abbrev pub category_names : ℤ → Bytes
category_names c =
    if eq_ℤ c (pos 0) then codes "LOG_CATEGORY_UNSPECIFIED" else codes "LOG_CATEGORY_GENERAL"

abbrev pub level_names : ℤ → Bytes
level_names l = if eq_ℤ l (pos 3) then codes "LOG_LEVEL_WARNING" else codes "LOG_LEVEL_INFO"

abbrev pub proto : Proto
proto = record {
  level_critical = pos 5;
  level_error = pos 4;
  level_warning = pos 3;
  level_info = pos 2;
  level_debug = pos 1;
  level_string = level_names;
  category_unspecified = pos 0;
  category_general = pos 1;
  category_string = category_names;
}

abbrev pub satellite : Source
satellite = record {
  id = 1;
  component = codes "hannah-esp";
  instance_name = codes "esp 1";
  version = [];
}

-- A warning whose logger holds all that structured data escapes.
abbrev pub warning : Entry
warning = record {
  source_id = 1;
  timestamp_ms = pos 1_709_210_096_789;
  level = pos 3;
  logger = b'a' ∷ b'"' ∷ b']' ∷ b'\\' ∷ [];
  message = codes "low battery\n";
  category = pos 1;
}
