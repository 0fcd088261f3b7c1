-- ===== src/Forward/Format/Framing.antt =====
-- A receiver tells the messages of a TCP stream apart by their octet counts (RFC 6587).
use hannah_logcollector.Prelude.{
  ℕ, zero, suc, ◌≤◌, ◌≡◌, refl, List, [], ◌∷◌, ◌++◌, append_assoc, Option, none, some, arith, leb,
  le→leb, inl, ◌≢◌, if◌then◌else◌, length, length-append, map, ◌∙◌, take, drop, take-length-append,
  drop-length-append,
}
use hannah_logcollector.Text.{Bytes, cut}
use hannah_logcollector.Text.Decimal.{itoa, scan, scan-itoa, itoa-Lacks, itoa-ne-nil}
use hannah_logcollector.Text.Laws.{cut-append}
use hannah_logcollector.Forward.Format.{frame}
use mathlib.Core.Option
use mathlib.Core.List.{flatten}

-- The first message of a stream and what follows: a decimal count, a space, and so many bytes.
abbrev counted : Bytes → Option ℕ → Option (Bytes × Bytes)
counted rest none = none
counted rest (some n) = if leb n (length rest) then some (take n rest, drop n rest) else none

abbrev headed : Option (Bytes × Bytes) → Option (Bytes × Bytes)
headed none = none
headed (some (count, rest)) = counted rest (scan 0 count)

pub first_message : Bytes → Option (Bytes × Bytes)
first_message s = headed (cut s b' ')

-- The messages of a stream, with fuel for that many.
pub unframe : ℕ → Bytes → Option (List Bytes)
unframe fuel [] = some []
unframe zero (c ∷ s) = none
unframe (suc fuel) (c ∷ s) = elim (first_message (c ∷ s)) [
  | none ↦ none
  | some (message, rest) ↦ Option.map (◌∷◌ message) (unframe fuel rest)
]

first_message-frame :
    (message rest : Bytes) → first_message (frame message ++ rest) ≡ some (message, rest)
unfolding first_message frame
first_message-frame message rest = rw (
  append_assoc (itoa (length message)) (b' ' ∷ message) rest,
  cut-append (itoa (length message)) b' ' (message ++ rest)
      (itoa-Lacks b' ' (length message) (inl (omega arith))),
  headed,
  scan-itoa (length message),
  counted,
  le→leb (length message) (length (message ++ rest)) (omega (arith, length-append message rest)),
  take-length-append message rest,
  drop-length-append message rest,
)

unframe_step :
    (fuel : ℕ) (stream message rest : Bytes)
    → stream ≢ []
    → first_message stream ≡ some (message, rest)
    → unframe (suc fuel) stream ≡ Option.map (◌∷◌ message) (unframe fuel rest)
unfolding unframe
unframe_step fuel [] message rest ne e = absurd (ne refl)
unframe_step fuel (c ∷ s) message rest ne e = rw (e, unframe)

frame-ne-nil : (message rest : Bytes) → frame message ++ rest ≢ []
unfolding frame
frame-ne-nil message rest = ground (arith, itoa-ne-nil (length message))

-- Whatever bytes the messages hold, line breaks, spaces and digits included, the receiver of the
-- joined frames reads back exactly these messages, if its fuel is at least their number.
pub unframe-frame :
    (messages : List Bytes) (fuel : ℕ)
    → length messages ≤ fuel
    → unframe fuel (flatten (map frame messages)) ≡ some messages
unfolding flatten
unframe-frame [] zero h = unfold unframe in refl
unframe-frame [] (suc fuel) h = unfold unframe in refl
unframe-frame (m ∷ ms) zero h = absurd (omega arith)
unframe-frame (m ∷ ms) (suc fuel) h =
    unframe_step fuel _ m (flatten (map frame ms)) (frame-ne-nil m _) (first_message-frame m _)
    ∙ rw (unframe-frame ms fuel (omega arith))
