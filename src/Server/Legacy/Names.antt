-- ===== src/Server/Legacy/Names.antt =====
-- The conversion goes by the names of the levels and categories, not by their numbers.
use hannah_logcollector.Prelude.{ℕ, ◌+◌, ◌≡◌, refl, ◌⊎◌, inl, inr, Option, none, some, ℤ, pos}
use hannah_logcollector.Text.{Bytes}
use hannah_logcollector.Store.Sql.{Engine}
use hannah_logcollector.Store.Writer.{Writer, add}
use hannah_logcollector.Server.Ship.{message, entry, LogEntry, shipping, Call, receive}
use hannah_logcollector.Server.Legacy.{
  Generations, value_or_zero, convert_level, convert_category, recv, v1_receive,
}

-- `String` of the enums of hannah.v2: the value that the maps have for a name has this name.
pub record Matching (gen : Generations) (level_string category_string : ℤ → Bytes) : Type 0 where
  pub level-named : (name : Bytes) (n : ℤ) → gen.level_value name ≡ some n → level_string n ≡ name
  pub category-named :
      (name : Bytes) (n : ℤ) → gen.category_value name ≡ some n → category_string n ≡ name

-- The number has the name that the older generation gives, or is 0 because that name is not known.
abbrev pub Carries : (Bytes → Option ℤ) → (ℤ → Bytes) → Bytes → ℤ → Type 0
Carries value string name n = (string n ≡ name) ⊎ ((value name ≡ none) × (n ≡ pos 0))

module _ (gen : Generations) (level_string category_string : ℤ → Bytes)
    (h : Matching gen level_string category_string) where
  carried :
      (value : Bytes → Option ℤ) (string : ℤ → Bytes)
      → ((name : Bytes) (n : ℤ) → value name ≡ some n → string n ≡ name)
      → (name : Bytes) (found : Option ℤ) → value name ≡ found
      → Carries value string name (value_or_zero found)
  carried value string named name none e = inr (e, refl)
  carried value string named name (some n) e = inl (named name n e)

  -- An entry of an older component in the loop of `Ship` is given to the writer, and counted, with
  -- its time, logger and text under the source's id; its level and category have the names that
  -- they had, or are 0 where the newer generation does not know the name, if the generated maps
  -- from names to numbers fit the names.
  pub v1_entry_by_name :
      (g : Engine) (id accepted : ℕ) (e : LogEntry) (c : Call) (w : Writer)
      → c.phase ≡ shipping id accepted
      → let (c', w') = v1_receive gen g (message (entry e)) c w in
        (level category : ℤ) × (w'
          ≡ add
              (record {
                source_id = id;
                timestamp_ms = e.timestamp_ms;
                level = level;
                logger = e.logger;
                message = e.message;
                category = category;
              })
              w)
        × (c'.phase ≡ shipping id (accepted + 1))
        × Carries gen.level_value level_string (gen.v1_level e.level) level
        × Carries gen.category_value category_string (gen.v1_category e.category) category
  unfolding v1_receive recv receive convert_level convert_category
  v1_entry_by_name g id accepted e c w ph = (
    convert_level gen e.level,
    convert_category gen e.category,
    rw ph refl,
    rw ph refl,
    carried gen.level_value level_string h.level-named (gen.v1_level e.level) _ refl,
    carried gen.category_value category_string h.category-named (gen.v1_category e.category) _ refl,
  )
