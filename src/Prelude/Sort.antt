-- ===== src/Prelude/Sort.antt =====
-- Insertion sort by a test, in place of the sorting that SQL's ORDER BY and Go's `sort.Slice`
-- promise.
use mathlib.Core.List.{Permᴰ}
use mathlib.Core.List.Permᴰ
use mathlib.Core.Path.{◌≡◌, refl}
use mathlib.Core.Logic.{inl, inr}
use mathlib.Core.Bool.{Bool, true, false}
use mathlib.Core.List.{List, [], ◌∷◌, ◌++◌}
use hannah_logcollector.Prelude.Tests.{if◌then◌else◌, Bool-cases}
use hannah_logcollector.Prelude.Lists.{All}
use hannah_logcollector.Prelude.Perm.{All-perm}

module _ {ℓ} {A : Type ℓ} (le : A → A → Bool) where
  unfoldable pub insert : A → List A → List A
  insert x [] = x ∷ []
  insert x (y ∷ ys) = if le x y then x ∷ y ∷ ys else y ∷ insert x ys

  unfoldable pub sort : List A → List A
  unfolding insert
  sort [] = []
  sort (x ∷ xs) = insert x (sort xs)

  -- Each element comes before all that follow it.
  abbrev pub IsSorted : List A → Type ℓ
  IsSorted [] = Unit
  IsSorted (x ∷ xs) = All (λ y. le x y ≡ true) xs × IsSorted xs

  insert-perm : (x : A) (ys : List A) → Permᴰ (x ∷ ys) (insert x ys)
  unfolding insert
  insert-perm x [] = Permᴰ.refl (x ∷ [])
  insert-perm x (y ∷ ys) = elim (Bool-cases (le x y)) [
    | inl h ↦ rw h (Permᴰ.refl (x ∷ y ∷ ys))
    | inr h ↦ rw h (Permᴰ.trans (Permᴰ.swap refl refl) (Permᴰ.cons refl (insert-perm x ys)))
  ]

  pub sort-perm : (xs : List A) → Permᴰ xs (sort xs)
  unfolding sort
  sort-perm [] = Permᴰ.nil
  sort-perm (x ∷ xs) = Permᴰ.trans (Permᴰ.cons refl (sort-perm xs)) (insert-perm x (sort xs))

  module _ (total : (a b : A) → le a b ≡ false → le b a ≡ true)
      (trans : (a b c : A) → le a b ≡ true → le b c ≡ true → le a c ≡ true) where
    All-le :
        (a b : A) (ys : List A)
        → le a b ≡ true
        → All (λ y. le b y ≡ true) ys
        → All (λ y. le a y ≡ true) ys
    All-le a b [] h hs = tt
    All-le a b (y ∷ ys) h hs = (trans a b y h hs.0, All-le a b ys h hs.1)

    insert-IsSorted : (x : A) (ys : List A) → IsSorted ys → IsSorted (insert x ys)
    unfolding insert
    insert-IsSorted x [] s = (tt, tt)
    insert-IsSorted x (y ∷ ys) s = elim (Bool-cases (le x y)) [
      | inl h ↦ rw h ((h, All-le x y ys h s.0), s)
      | inr h ↦ rw h (
        All-perm (λ z. le y z ≡ true) (insert-perm x ys) (total x y h, s.0),
        insert-IsSorted x ys s.1,
      )
    ]

    pub sort-IsSorted : (xs : List A) → IsSorted (sort xs)
    unfolding sort
    sort-IsSorted [] = tt
    sort-IsSorted (x ∷ xs) = insert-IsSorted x (sort xs) (sort-IsSorted xs)

  -- What stands in front of a sorted list comes before what stands behind.
  pub IsSorted-append :
      (xs ys : List A) → IsSorted (xs ++ ys) → All (λ x. All (λ y. le x y ≡ true) ys) xs
  IsSorted-append [] ys s = tt
  IsSorted-append (x ∷ xs) ys s = (tail_of xs s.0, IsSorted-append xs ys s.1)
    where
      tail_of : (zs : List A) → All (λ y. le x y ≡ true) (zs ++ ys) → All (λ y. le x y ≡ true) ys
      tail_of [] h = h
      tail_of (z ∷ zs) h = tail_of zs h.1

-- Each element stands in the relation to all that follow it.
abbrev pub Pairwise : {A : Type 0} → (A → A → Type 0) → List A → Type 0
Pairwise R [] = Unit
Pairwise R (x ∷ xs) = All (R x) xs × Pairwise R xs

-- A sorted list, in any relation that the test decides.
pub IsSorted-Pairwise :
    {A : Type 0} (le : A → A → Bool) (R : A → A → Type 0)
    → ((a b : A) → le a b ≡ true → R a b)
    → (xs : List A) → IsSorted le xs
    → Pairwise R xs
IsSorted-Pairwise le R h [] s = tt
IsSorted-Pairwise {A} le R h (x ∷ xs) s = (all xs s.0, IsSorted-Pairwise le R h xs s.1)
  where
    all : (ys : List A) → All (λ y. le x y ≡ true) ys → All (R x) ys
    all [] k = tt
    all (y ∷ ys) k = (h x y k.0, all ys k.1)
