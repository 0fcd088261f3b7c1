-- ===== src/Export/Line.antt =====
-- `FormatLine`, `LevelName`, `CategoryName` and `fileName` of internal/export/export.go.
pub mod Safe
use hannah_logcollector.Prelude.{
  ℕ, zero, suc, ◌-◌, Bool, false, not, ◌||◌, [], ◌∷◌, ◌++◌, ◌==◌, if◌then◌else◌, ℤ, replicate,
}
use hannah_logcollector.Text.{Bytes, codes, is_empty, trim_prefix}
use hannah_logcollector.Text.Utf8.{within, rune_width}
use hannah_logcollector.Time.{format_ms}
use hannah_logcollector.Proto.{Proto}
use hannah_logcollector.Store.{Entry}

unfoldable pub level_name : Proto → ℤ → Bytes
unfolding trim_prefix
level_name p level = trim_prefix (p.level_string level) (codes "LOG_LEVEL_")

unfoldable pub category_name : Proto → ℤ → Bytes
unfolding trim_prefix
category_name p category = trim_prefix (p.category_string category) (codes "LOG_CATEGORY_")

-- The characters of a text, behind `skip` bytes of the first one.
unfoldable pub rune_count : ℕ → Bytes → ℕ
rune_count skip [] = 0
rune_count zero (c ∷ s) = suc (rune_count (rune_width c s - 1) s)
rune_count (suc skip) (c ∷ s) = rune_count skip s

-- "%-8s": spaces up to 8 characters.
unfoldable pub padded : Bytes → Bytes
unfolding rune_count
padded s = s ++ replicate (8 - rune_count 0 s) b' '

-- strings.HasSuffix(s, "\n")
unfoldable pub ends_in_newline : Bytes → Bool
ends_in_newline [] = false
ends_in_newline (c ∷ []) = c == b'\n'
ends_in_newline (c ∷ d ∷ s) = ends_in_newline (d ∷ s)

abbrev pub prefix_of : Bytes → Bytes
prefix_of logger = if is_empty logger then [] else logger ++ codes ": "

abbrev pub closed_line : Bytes → Bytes
closed_line message = if ends_in_newline message then message else message ++ b'\n' ∷ []

-- `FormatLine`
unfoldable pub format_line : Proto → Entry → Bytes
unfolding level_name padded ends_in_newline
format_line p e =
    format_ms e.timestamp_ms
    ++ b' '
      ∷ (padded (level_name p e.level) ++ b' ' ∷ (prefix_of e.logger ++ closed_line e.message))

-- A byte outside of [^A-Za-z0-9._-].
abbrev pub is_safe : ℕ → Bool
is_safe c =
    within b'A' b'Z' c
    || (within b'a' b'z' c || (within b'0' b'9' c || (c == b'.' || (c == b'_' || c == b'-'))))

-- `unsafeChars.ReplaceAllString(s, "_")`, with the byte before `s` in a run of unsafe ones or not.
-- The characters that are not ASCII are unsafe, and so is each byte of them.
unfoldable pub replace_unsafe : Bool → Bytes → Bytes
replace_unsafe run [] = []
replace_unsafe run (c ∷ s) =
    let rest = replace_unsafe (not (is_safe c)) s in
    if is_safe c then c ∷ rest else if run then rest else b'_' ∷ rest

abbrev pub suffix_for : Bytes → Bytes
suffix_for instance_name =
    if is_empty instance_name then [] else b'-' ∷ replace_unsafe false instance_name

-- `fileName`
unfoldable pub file_name : Bytes → Bytes → Bytes
unfolding replace_unsafe
file_name component instance_name =
    replace_unsafe false component ++ (suffix_for instance_name ++ codes ".log")
