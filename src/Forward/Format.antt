-- ===== src/Forward/Format.antt =====
-- internal/forward/format.go: an entry as one RFC 5424 message, and its frame on a TCP stream.
pub mod Bounds
pub mod Framing
use hannah_logcollector.Prelude.{
  ℕ, zero, suc, ◌+◌, ◌-◌, ◌*◌, Bool, not, ◌&&◌, [], ◌∷◌, ◌++◌, ◌==◌, ltb, leb, if◌then◌else◌, ℤ,
  eq_ℤ, length, get_or, take,
}
use hannah_logcollector.Text.{Bytes, codes, is_empty, trim_prefix, trim_breaks}
use hannah_logcollector.Text.Decimal.{itoa}
use hannah_logcollector.Text.Utf8.{rune_start, rune_width}
use hannah_logcollector.Proto.{Proto}
use hannah_logcollector.Time.{format_ms}
use hannah_logcollector.Store.{Source, Entry}

abbrev pub facility_local0 : ℕ
facility_local0 = 16

abbrev pub max_text : ℕ
max_text = 7000

abbrev pub max_hostname : ℕ
max_hostname = 255

abbrev pub max_app_name : ℕ
max_app_name = 48

abbrev pub sd_id : Bytes
sd_id = codes "hannah@32473"

abbrev pub truncated : Bytes
truncated = codes "..."

-- `Frame`
unfoldable pub frame : Bytes → Bytes
frame message = itoa (length message) ++ b' ' ∷ message

-- `r > ' ' && r < 0x7f`
abbrev pub is_printable : ℕ → Bool
is_printable c = ltb b' ' c && ltb c 0x7f

-- The loop of `nameField`: `skip` bytes belong to the character before, and `left` bytes may follow.
-- Every character outside printable ASCII gives one underscore.
unfoldable pub name_chars : ℕ → ℕ → Bytes → Bytes
name_chars skip left [] = []
name_chars (suc skip) left (c ∷ s) = name_chars skip left s
name_chars zero zero (c ∷ s) = []
name_chars zero (suc left) (c ∷ s) =
    (if is_printable c then c else b'_')
    ∷ name_chars (if is_printable c then 0 else rune_width c s - 1) left s

abbrev or_dash : Bytes → Bytes
or_dash [] = b'-' ∷ []
or_dash (c ∷ s) = c ∷ s

-- `nameField`
unfoldable pub name_field : Bytes → ℕ → Bytes
unfolding name_chars
name_field s limit = or_dash (name_chars 0 limit s)

-- What the replacer of `escapeParam` writes for a byte.
abbrev pub escape_byte : ℕ → Bytes
escape_byte c =
    if c == b'\\'
    then b'\\' ∷ b'\\' ∷ []
    else if c == b'"'
    then b'\\' ∷ b'"' ∷ []
    else if c == b']'
    then b'\\' ∷ b']' ∷ []
    else c ∷ []

-- `escapeParam`
unfoldable pub escape_param : Bytes → Bytes
escape_param [] = []
escape_param (c ∷ s) = escape_byte c ++ escape_param s

-- The largest index up to `k` at which a character starts, or 0.
unfoldable pub cut_index : Bytes → ℕ → ℕ
cut_index s zero = zero
cut_index s (suc k) =
    let earlier = cut_index s k in if rune_start (get_or s (suc k) 0) then suc k else earlier

-- `text`
unfoldable pub text : Bytes → Bytes
text message =
    let trimmed = trim_breaks message in
    let cut = take (cut_index trimmed (max_text - length truncated)) trimmed ++ truncated in
    if leb (length trimmed) max_text then trimmed else cut

-- One parameter of the structured data, if `present`.
abbrev pub param : Bool → Bytes → Bytes → Bytes
param present key value =
    if present then b' ' ∷ key ++ b'=' ∷ b'"' ∷ (escape_param value ++ b'"' ∷ []) else []

-- The one element of the structured data, with its parameters.
abbrev pub element : Bytes → Bytes → Bytes → Bytes
element category logger name = b'[' ∷ (sd_id ++ (category ++ (logger ++ (name ++ b']' ∷ []))))

module _ (p : Proto) where
  -- `severity`
  unfoldable pub severity : ℤ → ℕ
  severity level =
      if eq_ℤ level p.level_critical
      then 2
      else if eq_ℤ level p.level_error
      then 3
      else if eq_ℤ level p.level_warning
      then 4
      else if eq_ℤ level p.level_debug
      then 7
      else 6

  abbrev pub has_category : Entry → Bool
  has_category e = not (eq_ℤ e.category p.category_unspecified)

  abbrev pub category_name : Entry → Bytes
  category_name e = trim_prefix (p.category_string e.category) (codes "LOG_CATEGORY_")

  -- `structuredData`
  unfoldable pub structured_data : Entry → Bytes → Bytes
  structured_data e name =
      if not (has_category e) && is_empty e.logger && is_empty name
      then b'-' ∷ []
      else element (param (has_category e) (codes "category") (category_name e))
          (param (not (is_empty e.logger)) (codes "logger") e.logger)
          (param (not (is_empty name)) (codes "name") name)

  -- `Format`
  unfoldable pub format : Entry → Source → Bytes → Bytes
  format e src name =
      b'<'
      ∷ (itoa (facility_local0 * 8 + severity e.level)
          ++ b'>'
            ∷ b'1'
            ∷ b' '
            ∷ (format_ms e.timestamp_ms
                ++ b' '
                  ∷ (name_field src.instance_name max_hostname
                      ++ b' '
                        ∷ (name_field src.component max_app_name
                            ++ b' '
                              ∷ b'-'
                              ∷ b' '
                              ∷ b'-'
                              ∷ b' '
                              ∷ (structured_data e name ++ b' ' ∷ text e.message)))))
