-- ===== src/Config/Order.antt =====
-- Go ranges over the map of numbers in any order: that changes at most which error is reported.
use mathlib.Core.List.{Permᴰ}
use hannah_logcollector.Prelude.{◌≡◌, refl, sym, ap, ◌∙◌, List, Option, none, some, arith}
use hannah_logcollector.Text.{Bytes}
use hannah_logcollector.Config.{
  Config, Number, advertise_port, days, max_size_mb, Loaded, ok, refused, ◌>>=◌, apply_number,
  apply_numbers,
}

-- The result without its error.
abbrev pub settled : {A : Type 0} → Loaded A → Option A
settled (ok a) = some a
settled (refused e) = none

-- One setting after another, without the errors.
abbrev both : (getenv : Bytes → Bytes) → Number → Number → Config → Loaded Config
both getenv t u c = apply_number getenv t c >>= apply_number getenv u

module _ (getenv : Bytes → Bytes) where
  swap_two : (t u : Number) (c : Config) → settled (both getenv t u c) ≡ settled (both getenv u t c)
  swap_two advertise_port advertise_port c = refl
  swap_two days days c = refl
  swap_two max_size_mb max_size_mb c = refl
  swap_two advertise_port days c = ground arith
  swap_two advertise_port max_size_mb c = ground arith
  swap_two days advertise_port c = ground arith
  swap_two days max_size_mb c = ground arith
  swap_two max_size_mb advertise_port c = ground arith
  swap_two max_size_mb days c = ground arith

  -- The rest of the loop, behind a result.
  then_rest :
      (rest : List Number) (a b : Loaded Config)
      → settled a ≡ settled b
      → settled (a >>= apply_numbers getenv rest) ≡ settled (b >>= apply_numbers getenv rest)
  then_rest rest (ok a) (ok b) e = ground arith
  then_rest rest (ok a) (refused f) e = ground arith
  then_rest rest (refused f) (ok b) e = ground arith
  then_rest rest (refused f) (refused f') e = refl

  assoc :
      (a : Loaded Config) (f h : Config → Loaded Config)
      → ((a >>= f) >>= h) ≡ (a >>= λ c. f c >>= h)
  assoc (ok a) f h = refl
  assoc (refused e) f h = refl

  under :
      (a : Loaded Config) (f h : Config → Loaded Config)
      → ((c : Config) → settled (f c) ≡ settled (h c))
      → settled (a >>= f) ≡ settled (a >>= h)
  under (ok a) f h e = e a
  under (refused _) f h e = refl

  -- In whatever order the settings are visited, the numbers that come out are the same, or there is
  -- an error in either order.
  pub apply_numbers-perm :
      {order order' : List Number} (c : Config)
      → Permᴰ order order'
      → settled (apply_numbers getenv order c) ≡ settled (apply_numbers getenv order' c)
  unfolding apply_numbers
  apply_numbers-perm c Permᴰ.nil = refl
  apply_numbers-perm c (Permᴰ.cons {a} {b} {l₁} {l₂} e p) =
      under (apply_number getenv a c) (apply_numbers getenv l₁) (apply_numbers getenv l₂)
        (λ c'. apply_numbers-perm c' p)
      ∙ ap (λ t. settled (apply_number getenv t c >>= apply_numbers getenv l₂)) e
  apply_numbers-perm c (Permᴰ.swap {a} {b} {a'} {b'} {l} e f) =
      let rest = apply_numbers getenv l in
      ap settled (sym (assoc (apply_number getenv a c) (apply_number getenv b) rest))
      ∙ then_rest l (both getenv a b c) (both getenv b a c) (swap_two a b c)
      ∙ ap settled (assoc (apply_number getenv b c) (apply_number getenv a) rest)
      ∙ ap (λ t. settled (apply_number getenv t c >>= λ c'. apply_number getenv a c' >>= rest)) f
      ∙ ap (λ t. settled (apply_number getenv a' c >>= λ c'. apply_number getenv t c' >>= rest)) e
  apply_numbers-perm c (Permᴰ.trans p q) = apply_numbers-perm c p ∙ apply_numbers-perm c q
