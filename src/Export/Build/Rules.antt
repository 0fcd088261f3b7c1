-- ===== src/Export/Build/Rules.antt =====
-- Rules for what a job ensures: `P` of its result if it succeeds, `Q` if it fails.
use hannah_logcollector.Prelude.{ℕ, ◌+◌, Bool, Bool-cases, inl, inr}
use hannah_logcollector.Store.Sql.{Result, ok, failed}
use hannah_logcollector.Export.Build.{Work, Job, continue, ◌>>◌, operate, next_row}

abbrev pub Ensures : {A : Type 0} → (A → Work → Type 0) → (Work → Type 0) → Result A → Work → Type 0
Ensures P Q (ok a) w = P a w
Ensures P Q failed w = Q w

module _ {A B : Type 0} (P : A → Work → Type 0) (R : B → Work → Type 0) (Q : Work → Type 0) where
  pub then-Ensures :
      (r : Result A) (w : Work) (f : A → Job B)
      → Ensures P Q r w
      → ((a : A) (v : Work) → P a v → Ensures R Q (f a v).0 (f a v).1)
      → Ensures R Q (continue r w f).0 (continue r w f).1
  then-Ensures (ok a) w f h k = k a w h
  then-Ensures failed w f h k = h

module _ {A : Type 0} (P : A → Work → Type 0) (Q : Work → Type 0) (g : Work → Work) where
  pub finally-Ensures :
      (r : Result A) (w : Work)
      → Ensures (λ a v. P a (g v)) (λ v. Q (g v)) r w
      → Ensures P Q r (g w)
  finally-Ensures (ok a) w h = h
  finally-Ensures failed w h = h

module _ {A : Type 0} (P P' : A → Work → Type 0) (Q Q' : Work → Type 0) where
  pub weaken :
      (r : Result A) (w : Work)
      → Ensures P Q r w
      → ((a : A) (v : Work) → P a v → P' a v)
      → ((v : Work) → Q v → Q' v)
      → Ensures P' Q' r w
  weaken (ok a) w h f g = f a w h
  weaken failed w h f g = g w h

module _ (P : Unit {0} → Work → Type 0) (Q : Work → Type 0) where
  pub operate-Ensures :
      (fails : ℕ → Bool) (g : Work → Work) (w : Work)
      → P tt (record (g w) { operations = w.operations + 1 })
      → Q (record w { operations = w.operations + 1 })
      → Ensures P Q (operate fails g w).0 (operate fails g w).1
  operate-Ensures fails g w good bad = elim (Bool-cases (fails w.operations)) [
    | inl e ↦ rw e bad
    | inr e ↦ rw e good
  ]

-- The rules at jobs that ensure nothing if they fail.
abbrev pub Anything : Work → Type 0
Anything _ = Unit

abbrev pub Gives : Job (Unit {0}) → Work → (Work → Type 0) → Type 0
Gives m w P = Ensures (λ _. P) Anything (m w).0 (m w).1

pub gives_also :
    (m : Job (Unit {0})) (w : Work) (P P' : Work → Type 0)
    → Gives m w P
    → ((v : Work) → P v → P' v)
    → Gives m w P'
gives_also m w P P' h f =
    weaken (λ _. P) (λ _. P') Anything Anything (m w).0 (m w).1 h (λ _. f) (λ _ _. tt)

pub gives_then :
    (m n : Job (Unit {0})) (w : Work) (P R : Work → Type 0)
    → Gives m w P
    → ((v : Work) → P v → Gives n v R)
    → Gives (m >> n) w R
gives_then m n w P R h f =
    then-Ensures (λ _. P) (λ _. R) Anything (m w).0 (m w).1 (λ _. n) h (λ _. f)

pub next_row_gives :
    (fails : ℕ → Bool) (m : Job (Unit {0})) (w : Work) (P : Work → Type 0)
    → Gives m (record w { operations = w.operations + 1 }) P
    → Gives (next_row fails >> m) w P
next_row_gives fails m w P h = elim (Bool-cases (fails w.operations)) [
  | inl e ↦ rw e tt
  | inr e ↦ rw e h
]
