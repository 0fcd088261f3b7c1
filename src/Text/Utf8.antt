-- ===== src/Text/Utf8.antt =====
-- `unicode/utf8`: where a character starts, and how many bytes the first character of a text takes.
use hannah_logcollector.Prelude.{
  ℕ, zero, suc, Bool, true, false, not, ◌&&◌, [], ◌∷◌, ◌==◌, leb, if◌then◌else◌,
}
use hannah_logcollector.Text.{Bytes}

abbrev pub within : ℕ → ℕ → ℕ → Bool
within lo hi c = leb lo c && leb c hi

-- utf8.RuneStart: `b&0xC0 != 0x80`
abbrev pub rune_start : ℕ → Bool
rune_start c = not (within 0x80 0xbf c)

-- The first of `n` bytes lies between `lo` and `hi`, and the others are continuation bytes.
abbrev tails : ℕ → ℕ → ℕ → Bytes → Bool
tails zero lo hi s = true
tails (suc n) lo hi [] = false
tails (suc n) lo hi (c ∷ s) = within lo hi c && tails n 0x80 0xbf s

-- The width of a character of `n + 1` bytes; a malformed one takes a single byte.
abbrev width_of : ℕ → ℕ → ℕ → Bytes → ℕ
width_of n lo hi s = if tails n lo hi s then suc n else 1

-- What `for _, r := range s` goes on by: the width of the character whose first byte is `c`.
unfoldable pub rune_width : ℕ → Bytes → ℕ
rune_width c s =
    if within 0xc2 0xdf c
    then width_of 1 0x80 0xbf s
    else if c == 0xe0
    then width_of 2 0xa0 0xbf s
    else if c == 0xed
    then width_of 2 0x80 0x9f s
    else if within 0xe1 0xef c
    then width_of 2 0x80 0xbf s
    else if c == 0xf0
    then width_of 3 0x90 0xbf s
    else if within 0xf1 0xf3 c
    then width_of 3 0x80 0xbf s
    else if c == 0xf4
    then width_of 3 0x80 0x8f s
    else 1
