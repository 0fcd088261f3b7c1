-- ===== src/Text/Laws.antt =====
-- What the other proofs use of the functions of `strings`.
use hannah_logcollector.Prelude.{
  ℕ, ◌<◌, ap, length, Bool-cases, inl, inr, ◌≡◌, ◌≢◌, refl, ◌⊎◌, ◌↔◌, true, false, [], ◌∷◌, ◌++◌,
  some, arith, All,
}
use hannah_logcollector.Text.{Bytes, less, equal, cut, trim_breaks}

pub equal_iff : (s t : Bytes) → (equal s t ≡ true) ↔ (s ≡ t)
unfolding equal
equal_iff [] [] = ground arith
equal_iff (x ∷ s) (y ∷ t) = ground (arith, equal_iff s t)
equal_iff _ _ = ground arith

-- A text of several bytes is none of one byte.
pub equal_long : (s : Bytes) (x : ℕ) → 1 < length s → equal s (x ∷ []) ≡ false
equal_long s x h = elim (Bool-cases (equal s (x ∷ []))) [
  | inl same ↦ absurd (omega (arith, h, ap length ((equal_iff s (x ∷ [])).0 same)))
  | inr other ↦ other
]

pub equal_refl : (s : Bytes) → equal s s ≡ true
equal_refl s = (equal_iff s s).1 refl

-- No byte of the text is `b`.
abbrev pub Lacks : ℕ → Bytes → Type 0
Lacks b = All (λ c. c ≢ b)

-- `Cut` splits at the first separator.
pub cut-append :
    (s : Bytes) (sep : ℕ) (rest : Bytes) → Lacks sep s → cut (s ++ sep ∷ rest) sep ≡ some (s, rest)
unfolding cut
cut-append [] sep rest h = ground arith
cut-append (c ∷ s) sep rest (hc, hs) = ground (arith, cut-append s sep rest hs)

-- The text ends in no line break.
abbrev pub IsTrimmed : Bytes → Type 0
IsTrimmed s = trim_breaks s ≡ s

pub trim_breaks_idem : (s : Bytes) → trim_breaks (trim_breaks s) ≡ trim_breaks s
unfolding trim_breaks
trim_breaks_idem [] = refl
trim_breaks_idem (c ∷ s) = ground (arith, trim_breaks_idem s)

-- `less` is a strict order of all texts.
pub less_trans : (a b c : Bytes) → less a b ≡ true → less b c ≡ true → less a c ≡ true
unfolding less
less_trans [] [] c p q = ground arith
less_trans [] (y ∷ b) [] p q = ground arith
less_trans [] (y ∷ b) (z ∷ c) p q = refl
less_trans (x ∷ a) [] c p q = ground arith
less_trans (x ∷ a) (y ∷ b) [] p q = ground arith
less_trans (x ∷ a) (y ∷ b) (z ∷ c) p q = ground (arith, less_trans a b c)

pub less_total : (a b : Bytes) → less a b ≡ false → less b a ≡ false → a ≡ b
unfolding less
less_total [] [] p q = refl
less_total [] (y ∷ b) p q = ground arith
less_total (x ∷ a) [] p q = ground arith
less_total (x ∷ a) (y ∷ b) p q = ground (arith, less_total a b)

pub less_irrefl : (a : Bytes) → less a a ≡ false
unfolding less
less_irrefl [] = refl
less_irrefl (x ∷ a) = ground (arith, less_irrefl a)

-- The weak order that goes with it.
pub less_weak_trans : (a b c : Bytes) → less b a ≡ false → less c b ≡ false → less c a ≡ false
unfolding less
less_weak_trans [] b [] p q = refl
less_weak_trans [] [] (z ∷ c) p q = ground arith
less_weak_trans [] (y ∷ b) (z ∷ c) p q = refl
less_weak_trans (x ∷ a) [] [] p q = ground arith
less_weak_trans (x ∷ a) [] (z ∷ c) p q = ground arith
less_weak_trans (x ∷ a) (y ∷ b) [] p q = ground arith
less_weak_trans (x ∷ a) (y ∷ b) (z ∷ c) p q = ground (arith, less_weak_trans a b c)

-- The order by component and then by instance.
abbrev pub NamedBefore : Bytes → Bytes → Bytes → Bytes → Type 0
NamedBefore c i c' i' = (less c c' ≡ true) ⊎ (c ≡ c') × (less i' i ≡ false)
