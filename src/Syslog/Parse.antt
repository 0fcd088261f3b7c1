-- ===== src/Syslog/Parse.antt =====
-- internal/syslog/parse.go: one datagram as a message. `none` stands for ErrMalformed.
pub mod RoundTrip
use mathlib.Core.Option
use hannah_logcollector.Prelude.{
  ℕ, zero, suc, ◌+◌, ◌-◌, ◌%◌, Bool, false, not, ◌&&◌, ◌||◌, List, [], ◌∷◌, Option, none, some,
  ◌==◌, ltb, if◌then◌else◌, ℤ, pos, take, drop,
}
use hannah_logcollector.Text.{
  Bytes, equal, is_empty, has_prefix, trim_prefix, index_byte, cut, trim_breaks,
}
use hannah_logcollector.Text.Decimal.{atoi}

-- `Message`; the time is an instant, with the zero time for none.
pub record Message : Type 0 where
  pub severity : ℕ
  pub time : ℤ
  pub hostname : Bytes
  pub app_name : Bytes
  pub text : Bytes

abbrev pub zero_time : ℤ
zero_time = pos 0

infixl 5 ◌>>=◌
abbrev pub ◌>>=◌ {ℓ κ} : {A : Type ℓ} {B : Type κ} → Option A → (A → Option B) → Option B
none >>= f = none
some a >>= f = f a

-- `nilValue`
unfoldable pub nil_value : Bytes → Bytes
nil_value s = if equal s (b'-' ∷ []) then [] else s

-- Where the loops of `skipStructuredData` stand: between elements, inside one (in quotes or not), or
-- at a character that a backslash escapes.
pub data Place : Type 0 where
  between : Place
  inside : Bool → Place
  escaped : Bool → Place

-- The place behind byte `c`, with `s` to follow; `none` if the loops stop in front of it.
abbrev pub next_place : Place → ℕ → Bytes → Option Place
next_place between c s = if c == b'[' then some (inside false) else none
next_place (escaped quoted) c s = some (inside quoted)
next_place (inside quoted) c s =
    if c == b'\\' && not (is_empty s)
    then some (escaped quoted)
    else if c == b'"'
    then some (inside (not quoted))
    else if c == b']' && not quoted
    then some between
    else some (inside quoted)

-- The text from where the loops stop; `none` for an element that is not closed.
unfoldable pub skip_from : Place → Bytes → Option Bytes
skip_from between [] = some []
skip_from (inside quoted) [] = none
skip_from (escaped quoted) [] = none
skip_from place (c ∷ s) = elim (next_place place c s) [
  | none ↦ some (c ∷ s)
  | some place' ↦ skip_from place' s
]

-- `skipStructuredData`
unfoldable pub skip_structured_data : Bytes → Option Bytes
unfolding skip_from
skip_structured_data [] = none
skip_structured_data (c ∷ s) =
    if c == b'-' then some s else if c == b'[' then skip_from between (c ∷ s) else none

-- `strconv.Atoi(s[1:end])` within 0 and 191
abbrev in_range : Option ℤ → Option ℕ
in_range (some (pos n)) = if ltb 191 n then none else some n
in_range _ = none

abbrev priority_at : Bytes → Option ℕ → Option (ℕ × Bytes)
priority_at s none = none
priority_at s (some end) =
    if ltb end 2 || ltb 4 end
    then none
    else Option.map (λ pri. (pri, drop (end + 1) s)) (in_range (atoi (take (end - 1) (drop 1 s))))

-- The priority, and what stands behind its `>`.
unfoldable pub priority : Bytes → Option (ℕ × Bytes)
priority s = if has_prefix s (b'<' ∷ []) then priority_at s (index_byte s b'>') else none

-- The loop over the header's fields: so many texts, each ended by a space, and the rest.
unfoldable pub fields : ℕ → Bytes → Option (List Bytes × Bytes)
fields zero s = some ([], s)
fields (suc n) s = do
  (field, rest) ← cut s b' '
  (others, rest') ← fields n rest
  some (field ∷ others, rest')

abbrev pub byte_order_mark : Bytes
byte_order_mark = 0xef ∷ 0xbb ∷ 0xbf ∷ []

-- What follows the structured data.
abbrev pub body : Bytes → Option Bytes
body [] = some []
body (c ∷ s) = if c == b' ' then some (trim_prefix s byte_order_mark) else none

-- `time.Parse(time.RFC3339Nano, s)` belongs to Go's standard library: an argument.
module _ (parse_time : Bytes → Option ℤ) where
  abbrev time_or_zero : Option ℤ → ℤ
  time_or_zero none = zero_time
  time_or_zero (some t) = t

  -- `msg.Time`
  unfoldable pub message_time : Bytes → ℤ
  message_time s = if equal s (b'-' ∷ []) then zero_time else time_or_zero (parse_time s)

  abbrev message_of : ℕ → List Bytes → Bytes → Option Message
  message_of pri (version ∷ timestamp ∷ hostname ∷ app_name ∷ _) rest =
      if equal version (b'1' ∷ [])
      then (do
        after ← skip_structured_data rest
        content ← body after
        some (record {
          severity = pri % 8;
          time = message_time timestamp;
          hostname = nil_value hostname;
          app_name = nil_value app_name;
          text = trim_breaks content;
        }))
      else none
  message_of pri _ rest = none

  -- `Parse`
  unfoldable pub parse : Bytes → Option Message
  parse packet = do
    (pri, rest) ← priority packet
    (header, rest') ← fields 6 rest
    message_of pri header rest'
