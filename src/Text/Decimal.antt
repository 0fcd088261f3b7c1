-- ===== src/Text/Decimal.antt =====
-- `strconv.Itoa` of a number that is not negative, and `strconv.Atoi`.
use hannah_logcollector.Prelude.{
  ℕ, zero, suc, ◌+◌, ◌-◌, ◌*◌, ◌/◌, ◌%◌, ◌^◌, ◌<◌, ◌≤◌, ◌≡◌, ◌≢◌, refl, ◌||◌, ◌⊎◌, [], ◌∷◌, Option,
  none, some, arith, ltb, ◌==◌, if◌then◌else◌, ℤ, pos, negsuc, All,
}
use hannah_logcollector.Text.{Bytes, codes}
use hannah_logcollector.Text.Laws.{Lacks}

-- The digits of `n` in front of `out`, with fuel.
digits : ℕ → ℕ → Bytes → Bytes
digits zero n out = out
digits (suc f) n out =
    let rest = digits f (n / 10) ((b'0' + n % 10) ∷ out) in
    if ltb n 10 then (b'0' + n) ∷ out else rest

unfoldable pub itoa : ℕ → Bytes
unfolding digits
itoa n = digits (suc n) n []

-- The value that digits spell behind `n`; `none` at a byte that is no digit.
unfoldable pub scan : ℕ → Bytes → Option ℕ
scan n [] = some n
scan n (c ∷ s) =
    let rest = scan (n * 10 + (c - b'0')) s in if ltb c b'0' || ltb b'9' c then none else rest

abbrev signed : Bytes → Option ℕ
signed [] = none
signed (c ∷ s) = scan 0 (c ∷ s)

-- An `int` has 64 bits: out of range is an error.
abbrev non_neg : Option ℕ → Option ℤ
non_neg none = none
non_neg (some n) = if ltb n (2 ^ 63) then some (pos n) else none

abbrev negated : Option ℕ → Option ℤ
negated none = none
negated (some zero) = some (pos 0)
negated (some (suc n)) = if ltb n (2 ^ 63) then some (negsuc n) else none

unfoldable pub atoi : Bytes → Option ℤ
unfolding scan
atoi [] = none
atoi (c ∷ s) =
    if c == b'-'
    then negated (signed s)
    else if c == b'+'
    then non_neg (signed s)
    else non_neg (signed (c ∷ s))

abbrev pub IsDigit : ℕ → Type 0
IsDigit c = (b'0' ≤ c) × (c ≤ b'9')

scan-digits : (f n : ℕ) (out : Bytes) → n < f → scan 0 (digits f n out) ≡ scan n out
unfolding scan digits
scan-digits zero n out h = absurd (omega arith)
scan-digits (suc f) n out h = ground (arith, scan-digits f (n / 10) ((b'0' + n % 10) ∷ out))

pub scan-itoa : (n : ℕ) → scan 0 (itoa n) ≡ some n
unfolding itoa scan
scan-itoa n = scan-digits (suc n) n [] (omega arith)

digits-IsDigit : (f n : ℕ) (out : Bytes) → All IsDigit out → All IsDigit (digits f n out)
unfolding digits
digits-IsDigit zero n out h = h
digits-IsDigit (suc f) n out h = ground (arith, digits-IsDigit f (n / 10) ((b'0' + n % 10) ∷ out))

-- A number is printed with decimal digits only.
pub itoa-IsDigit : (n : ℕ) → All IsDigit (itoa n)
unfolding itoa
itoa-IsDigit n = digits-IsDigit (suc n) n [] tt

digits-ne-nil : (f n : ℕ) (out : Bytes) → n < f → digits f n out ≢ []
unfolding digits
digits-ne-nil zero n out h = absurd (omega arith)
digits-ne-nil (suc f) n out h = ground (arith, digits-ne-nil f (n / 10) ((b'0' + n % 10) ∷ out))

-- A number is printed with at least one digit.
pub itoa-ne-nil : (n : ℕ) → itoa n ≢ []
unfolding itoa
itoa-ne-nil n = digits-ne-nil (suc n) n [] (omega arith)

atoi_of_digits :
    (s : Bytes) (n : ℕ)
    → s ≢ []
    → All IsDigit s
    → scan 0 s ≡ some n
    → n < 2 ^ 63
    → atoi s ≡ some (pos n)
unfolding atoi
atoi_of_digits [] n ne d e h = absurd (ne refl)
atoi_of_digits (c ∷ s) n ne d e h = ground arith

-- Every `int` that is not negative is read back from its decimal print.
pub atoi-itoa : (n : ℕ) → n < 2 ^ 63 → atoi (itoa n) ≡ some (pos n)
atoi-itoa n h = atoi_of_digits (itoa n) n (itoa-ne-nil n) (itoa-IsDigit n) (scan-itoa n) h

IsDigit-Lacks : (b : ℕ) (s : Bytes) → (b < b'0') ⊎ (b'9' < b) → All IsDigit s → Lacks b s
IsDigit-Lacks b [] out h = tt
IsDigit-Lacks b (c ∷ s) out (hc, hs) = (omega arith, IsDigit-Lacks b s out hs)

-- A byte that is no digit does not occur in a printed number.
pub itoa-Lacks : (b n : ℕ) → (b < b'0') ⊎ (b'9' < b) → Lacks b (itoa n)
itoa-Lacks b n out = IsDigit-Lacks b (itoa n) out (itoa-IsDigit n)

tests : (itoa 0 ≡ codes "0") × (itoa 7003 ≡ codes "7003") × (atoi (codes "-12") ≡ some (negsuc 11))
unfolding itoa atoi
tests = (refl, refl, refl)
