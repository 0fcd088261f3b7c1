-- ===== src/Forward/Format/Bounds.antt =====
-- How long the parts of a message are, and which bytes they hold.
use native.Mathlib.Decide.{dec_lt}
use hannah_logcollector.Prelude.{
  ℕ, zero, suc, ◌-◌, ◌≤◌, ◌<◌, ◌≡◌, ◌≢◌, refl, ◌⊎◌, inl, inr, ◌∷◌, ◌++◌, [], arith, All, length,
  length-append, length-take, get_or, take, leb, if◌then◌else◌, Bool-cases, true, false,
}
use hannah_logcollector.Text.{Bytes, trim_breaks}
use hannah_logcollector.Text.Utf8.{rune_start, rune_width}
use hannah_logcollector.Forward.Format.{
  max_text, truncated, is_printable, name_chars, name_field, cut_index, text,
}

abbrev pub IsPrintable : ℕ → Type 0
IsPrintable c = (b' ' < c) × (c < 0x7f)

name_chars_lem :
    (skip left : ℕ) (s : Bytes)
    → All IsPrintable (name_chars skip left s) × (length (name_chars skip left s) ≤ left)
unfolding name_chars
name_chars_lem skip left [] = omega arith
name_chars_lem (suc skip) left (c ∷ s) = name_chars_lem skip left s
name_chars_lem zero zero (c ∷ s) = omega arith
name_chars_lem zero (suc left) (c ∷ s) =
    ground (arith, name_chars_lem (if is_printable c then 0 else rune_width c s - 1) left s)

-- With a limit above zero, a HOSTNAME or APP-NAME is never empty, holds printable ASCII without
-- space only, and keeps the limit, whatever bytes the name holds.
pub name_field_lem :
    (s : Bytes) (limit : ℕ)
    → 0 < limit
    → (name_field s limit ≢ [])
      × All IsPrintable (name_field s limit)
      × (length (name_field s limit) ≤ limit)
unfolding name_field
name_field_lem s limit h = ground (arith, name_chars_lem 0 limit s)

name_chars_self :
    (left : ℕ) (s : Bytes) → All IsPrintable s → length s ≤ left → name_chars 0 left s ≡ s
unfolding name_chars
name_chars_self left [] h k = refl
name_chars_self zero (c ∷ s) h k = absurd (omega arith)
name_chars_self (suc left) (c ∷ s) h k = ground (arith, name_chars_self left s h.1)

-- A name that is usable as it is stays as it is.
pub name_field_self :
    (s : Bytes) (limit : ℕ) → s ≢ [] → All IsPrintable s → length s ≤ limit → name_field s limit ≡ s
unfolding name_field
name_field_self s limit ne h k = ground (arith, name_chars_self limit s h k)

-- Where `text` cuts: at a character, and at the last one before `k`.
pub record CutsAt (s : Bytes) (k cut : ℕ) : Type 0 where
  pub within : cut ≤ k
  pub boundary : (cut ≡ 0) ⊎ (rune_start (get_or s cut 0) ≡ true)
  pub last : (i : ℕ) → cut < i → i ≤ k → rune_start (get_or s i 0) ≡ false

pub cut_index_lem : (s : Bytes) (k : ℕ) → CutsAt s k (cut_index s k)
unfolding cut_index
cut_index_lem s zero = record {
  within = omega arith;
  boundary = inl refl;
  last = λ i a b. absurd (omega arith);
}
cut_index_lem s (suc k) = elim (Bool-cases (rune_start (get_or s (suc k) 0))) [
  | inl start ↦
      rw start (record {
        within = omega arith;
        boundary = inr start;
        last = λ i a b. absurd (omega arith);
      })
  | inr inside ↦ rw inside (
      let ih = cut_index_lem s k in
      record {
        within = omega (arith, ih.within);
        boundary = ih.boundary;
        last = λ i a b. elim (dec_lt k i) [
          | yes h ↦ let e : i ≡ suc k = omega arith in rw e inside
          | no h ↦ ih.last i a (omega arith)
        ];
      })
]

-- The text of a message has at most `max_text` bytes: it is the message without the line breaks at
-- its end, if that fits, and otherwise what stands before the last character that starts within the
-- first `max_text - 3` bytes, and "...".
pub text_lem :
    (message : Bytes)
    → let trimmed = trim_breaks message in
      (length (text message) ≤ max_text)
      × ((length trimmed ≤ max_text) × (text message ≡ trimmed)
          ⊎ (max_text < length trimmed)
            × ((k : ℕ) × (text message ≡ take k trimmed ++ truncated)
                × CutsAt trimmed (max_text - 3) k))
unfolding text
text_lem message =
    let trimmed = trim_breaks message in
    let cut = cut_index trimmed (max_text - length truncated) in
    let at = cut_index_lem trimmed (max_text - length truncated) in
    elim (Bool-cases (leb (length trimmed) max_text)) [
      | inl short ↦ rw short (ground arith, inl (ground arith, refl))
      | inr long ↦ rw long (
        omega
            (arith, length-append (take cut trimmed) truncated, length-take cut trimmed, at.within),
        inr (ground arith, (cut, refl, at)),
      )
    ]
