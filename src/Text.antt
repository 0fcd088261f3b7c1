-- ===== src/Text.antt =====
-- Go strings as lists of bytes, with the functions of the packages `strings`, `strconv` and
-- `unicode/utf8` that the collector calls.
pub mod Laws
pub mod Decimal
pub mod Utf8
use mathlib.Core.Option
use Prim.Native.Char.{code}
use Prim.Native.String.{String}
use hannah_logcollector.Prelude.{
  ℕ, zero, suc, Bool, true, false, ◌&&◌, ◌||◌, List, [], ◌∷◌, Option, none, some, ◌==◌, ltb,
  if◌then◌else◌, length, drop,
}

abbrev pub Bytes : Type 0
Bytes = List ℕ

-- The code points of a literal, which are its bytes: every literal of the source used here is ASCII.
abbrev pub codes : String → Bytes
codes String.[] = []
codes (String.◌∷◌ c s) = code c ∷ codes s

-- `==` on strings
unfoldable pub equal : Bytes → Bytes → Bool
equal [] [] = true
equal (x ∷ xs) (y ∷ ys) = x == y && equal xs ys
equal _ _ = false

-- `<` on strings, bytewise, which is also how SQLite sorts texts.
unfoldable pub less : Bytes → Bytes → Bool
less [] [] = false
less [] (y ∷ ys) = true
less (x ∷ xs) [] = false
less (x ∷ xs) (y ∷ ys) = ltb x y || (x == y && less xs ys)

-- `s == ""`
abbrev pub is_empty : Bytes → Bool
is_empty [] = true
is_empty (_ ∷ _) = false

-- strings.HasPrefix
unfoldable pub has_prefix : Bytes → Bytes → Bool
has_prefix s [] = true
has_prefix [] (p ∷ ps) = false
has_prefix (c ∷ s) (p ∷ ps) = c == p && has_prefix s ps

-- strings.TrimPrefix
unfoldable pub trim_prefix : Bytes → Bytes → Bytes
unfolding has_prefix
trim_prefix s p = if has_prefix s p then drop (length p) s else s

-- strings.IndexByte; `none` is -1
unfoldable pub index_byte : Bytes → ℕ → Option ℕ
index_byte [] b = none
index_byte (c ∷ s) b = if c == b then some zero else Option.map suc (index_byte s b)

-- strings.Cut at a separator of one byte; `none` is `found == false`
unfoldable pub cut : Bytes → ℕ → Option (Bytes × Bytes)
cut [] sep = none
cut (c ∷ s) sep =
    if c == sep then some ([], s) else Option.map (λ halves. (c ∷ halves.0, halves.1)) (cut s sep)

abbrev pub is_break : ℕ → Bool
is_break c = c == b'\r' || c == b'\n'

abbrev cons_kept : ℕ → Bytes → Bytes
cons_kept c [] = if is_break c then [] else c ∷ []
cons_kept c (d ∷ s) = c ∷ d ∷ s

-- strings.TrimRight(s, "\r\n")
unfoldable pub trim_breaks : Bytes → Bytes
trim_breaks [] = []
trim_breaks (c ∷ s) = cons_kept c (trim_breaks s)
