-- ===== src/Prelude/Perm.antt =====
-- Filters, predicates on all elements, and distinct elements, along permutations.
use mathlib.Core.List.{Permᴰ}
use mathlib.Core.List.Permᴰ
use mathlib.Core.Path.{◌≡◌, refl, sym, subst, ap, ◌∙◌}
use mathlib.Core.Logic.{◌≢◌}
use mathlib.Core.Bool.{Bool, true, false, not}
use mathlib.Core.List.{List, [], ◌∷◌, ◌++◌, map}
use Prim.Native.Nat.{suc}
use native.Mathlib.Omega.{arith}
use hannah_logcollector.Prelude.Tests.{Bool-cases}
use hannah_logcollector.Prelude.Lists.{keep_if, length, All}
use mathlib.Core.Logic.{inl, inr}

-- No element occurs twice.
abbrev pub Distinct {ℓ} : {A : Type ℓ} → List A → Type ℓ
Distinct [] = Unit
Distinct (x ∷ xs) = All (λ y. x ≢ y) xs × Distinct xs

module _ {ℓ κ} {A : Type ℓ} (P : A → Type κ) where
  pub All-perm : {xs ys : List A} → Permᴰ xs ys → All P xs → All P ys
  All-perm Permᴰ.nil h = h
  All-perm (Permᴰ.cons e p) h = (subst P e h.0, All-perm p h.1)
  All-perm (Permᴰ.swap e f) h = (subst P f h.1.0, (subst P e h.0, h.1.1))
  All-perm (Permᴰ.trans p q) h = All-perm q (All-perm p h)

  pub All-of_append : (xs ys : List A) → All P (xs ++ ys) → All P xs × All P ys
  All-of_append [] ys h = (tt, h)
  All-of_append (x ∷ xs) ys h = let (hx, hy) = All-of_append xs ys h.1 in ((h.0, hx), hy)

module _ {ℓ} {A : Type ℓ} where
  pub Distinct-perm : {xs ys : List A} → Permᴰ xs ys → Distinct xs → Distinct ys
  Distinct-perm Permᴰ.nil h = h
  Distinct-perm (Permᴰ.cons {a} {b} {l₁} {l₂} e p) h =
      (subst (λ t. All (λ y. t ≢ y) l₂) e (All-perm (λ y. a ≢ y) p h.0), Distinct-perm p h.1)
  Distinct-perm (Permᴰ.swap {a} {b} {a'} {b'} {l} e f) h = (
    (λ q. h.0.0 (e ∙ sym q ∙ sym f), subst (λ t. All (λ y. t ≢ y) l) f h.1.0),
    (subst (λ t. All (λ y. t ≢ y) l) e h.0.1, h.1.1),
  )
  Distinct-perm (Permᴰ.trans p q) h = Distinct-perm q (Distinct-perm p h)

  pub Distinct-of_append :
      (xs ys : List A) → Distinct (xs ++ ys) → All (λ x. All (λ y. x ≢ y) ys) xs
  Distinct-of_append [] ys h = tt
  Distinct-of_append (x ∷ xs) ys h =
      ((All-of_append (λ y. x ≢ y) xs ys h.0).1, Distinct-of_append xs ys h.1)

module _ {ℓ} {A : Type ℓ} (p : A → Bool) where
  pub keep_if-append : (xs ys : List A) → keep_if p (xs ++ ys) ≡ keep_if p xs ++ keep_if p ys
  keep_if-append [] ys = refl
  keep_if-append (x ∷ xs) ys = ground (arith, keep_if-append xs ys)

  pub keep_if_self : (xs : List A) → All (λ x. p x ≡ true) xs → keep_if p xs ≡ xs
  keep_if_self [] h = refl
  keep_if_self (x ∷ xs) h = rw h.0 (ap (◌∷◌ x) (keep_if_self xs h.1))

  pub keep_if_none : (xs : List A) → All (λ x. p x ≡ false) xs → keep_if p xs ≡ []
  keep_if_none [] h = refl
  keep_if_none (x ∷ xs) h = rw h.0 (keep_if_none xs h.1)

  pub keep_if-holds : (xs : List A) → All (λ x. p x ≡ true) (keep_if p xs)
  keep_if-holds [] = tt
  keep_if-holds (x ∷ xs) = elim (Bool-cases (p x)) [
    | inl h ↦ rw h (h, keep_if-holds xs)
    | inr h ↦ rw h (keep_if-holds xs)
  ]

  pub keep_if-All {κ} : (P : A → Type κ) (xs : List A) → All P xs → All P (keep_if p xs)
  keep_if-All P [] h = tt
  keep_if-All P (x ∷ xs) h = elim (Bool-cases (p x)) [
    | inl e ↦ rw e (h.0, keep_if-All P xs h.1)
    | inr e ↦ rw e (keep_if-All P xs h.1)
  ]

  keep_if_cons :
      (a : A) (xs ys : List A)
      → Permᴰ (keep_if p xs) (keep_if p ys)
      → Permᴰ (keep_if p (a ∷ xs)) (keep_if p (a ∷ ys))
  keep_if_cons a xs ys q = elim (Bool-cases (p a)) [
    | inl h ↦ rw h (Permᴰ.cons refl q)
    | inr h ↦ rw h q
  ]

  keep_if_swap : (a b : A) (l : List A) → Permᴰ (keep_if p (a ∷ b ∷ l)) (keep_if p (b ∷ a ∷ l))
  keep_if_swap a b l = elim (Bool-cases (p a)) [
    | inl h ↦ elim (Bool-cases (p b)) [
      | inl k ↦ rw (h, k) (Permᴰ.swap refl refl)
      | inr k ↦ rw (h, k) (Permᴰ.refl (a ∷ keep_if p l))
    ]
    | inr h ↦ elim (Bool-cases (p b)) [
      | inl k ↦ rw (h, k) (Permᴰ.refl (b ∷ keep_if p l))
      | inr k ↦ rw (h, k) (Permᴰ.refl (keep_if p l))
    ]
  ]

  pub keep_if-perm : {xs ys : List A} → Permᴰ xs ys → Permᴰ (keep_if p xs) (keep_if p ys)
  keep_if-perm Permᴰ.nil = Permᴰ.nil
  keep_if-perm (Permᴰ.cons {a} {b} {l₁} {l₂} e q) =
      subst (λ t. Permᴰ (keep_if p (a ∷ l₁)) (keep_if p (t ∷ l₂))) e
        (keep_if_cons a l₁ l₂ (keep_if-perm q))
  keep_if-perm (Permᴰ.swap {a} {b} {a'} {b'} {l} e f) =
      subst (λ t. Permᴰ (keep_if p (a ∷ b ∷ l)) (keep_if p (t ∷ b' ∷ l))) f
        (subst (λ t. Permᴰ (keep_if p (a ∷ b ∷ l)) (keep_if p (b ∷ t ∷ l))) e (keep_if_swap a b l))
  keep_if-perm (Permᴰ.trans q r) = Permᴰ.trans (keep_if-perm q) (keep_if-perm r)

  -- A list is what passes and what does not.
  pub partition-perm : (xs : List A) → Permᴰ xs (keep_if p xs ++ keep_if (λ x. not (p x)) xs)
  partition-perm [] = Permᴰ.nil
  partition-perm (x ∷ xs) = elim (Bool-cases (p x)) [
    | inl h ↦ rw h (Permᴰ.cons refl (partition-perm xs))
    | inr h ↦ rw h (
        Permᴰ.trans (Permᴰ.cons refl (partition-perm xs))
          (Permᴰ.symm (Permᴰ.middle x (keep_if p xs) (keep_if (λ y. not (p y)) xs))))
  ]

module _ {ℓ κ μ} {A : Type ℓ} {P : A → Type κ} {Q : A → Type μ} where
  pub All-imp : (xs : List A) → ((x : A) → P x → Q x) → All P xs → All Q xs
  All-imp [] f h = tt
  All-imp (x ∷ xs) f h = (f x h.0, All-imp xs f h.1)

module _ {ℓ κ} {A : Type ℓ} {B : Type κ} (P : B → Type 0) (f : A → B) where
  pub All-of_map : (xs : List A) → All P (map f xs) → All (λ x. P (f x)) xs
  All-of_map [] h = tt
  All-of_map (x ∷ xs) h = (h.0, All-of_map xs h.1)

module _ {ℓ κ} {A : Type ℓ} {B : Type κ} (R : A → B → Type 0) where
  All-uncons :
      (y : B) (ys : List B) (xs : List A)
      → All (λ x. All (λ z. R x z) (y ∷ ys)) xs
      → All (λ x. R x y) xs × All (λ x. All (λ z. R x z) ys) xs
  All-uncons y ys [] h = (tt, tt)
  All-uncons y ys (x ∷ xs) h = let (a, b) = All-uncons y ys xs h.1 in ((h.0.0, a), (h.0.1, b))

  pub All-flip :
      (xs : List A) (ys : List B)
      → All (λ x. All (λ y. R x y) ys) xs
      → All (λ y. All (λ x. R x y) xs) ys
  All-flip xs [] h = tt
  All-flip xs (y ∷ ys) h = let (a, b) = All-uncons y ys xs h in (a, All-flip xs ys b)

pub length-perm {ℓ} : {A : Type ℓ} {xs ys : List A} → Permᴰ xs ys → length xs ≡ length ys
length-perm Permᴰ.nil = refl
length-perm (Permᴰ.cons e p) = ap suc (length-perm p)
length-perm (Permᴰ.swap e f) = refl
length-perm (Permᴰ.trans p q) = length-perm p ∙ length-perm q
