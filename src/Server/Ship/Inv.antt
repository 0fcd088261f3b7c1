-- ===== src/Server/Ship/Inv.antt =====
-- What holds of a call of `Ship` in every state, and what keeps it.
use mathlib.Core.List.{Sublistᴰ}
use mathlib.Core.List.Sublistᴰ
use mathlib.Core.Path.{subst}
use hannah_logcollector.Prelude.{
  ℕ, zero, suc, ◌≤◌, ◌≡◌, refl, ◌∙◌, ap, List, [], ◌∷◌, ◌++◌, append-nil, All, length,
  length-append, take, Option, none, some, map, arith, Bool-cases, inl, inr,
}
use hannah_logcollector.Store.{Source, Entry, Gap}
use hannah_logcollector.Store.Sql.{Row, Engine, State}
use hannah_logcollector.Store.Queries.{find, upsert, upsert_source, insert_gap}
use hannah_logcollector.Store.Writer.{Writer}
use hannah_logcollector.Store.Writer.Steps
use hannah_logcollector.Store.Writer.Account.{Step-Accounts}
use hannah_logcollector.Store.Writer.Ledger.{Accounts, flushed}
use hannah_logcollector.Store.Writer.Stored.{table, Holds, Step-Holds}
use hannah_logcollector.Store.Writer.Growth.{Grows, store-Grows, Step-Grows}
use hannah_logcollector.Server.Ship.{
  Hello, Outcome, acknowledged, Phase, greeting, shipping, syncing, finished, Call, move_to,
}

-- The entries of a call are among those accepted, in order; once it is acknowledged, among those
-- flushed.
abbrev pub InPhase : Phase → List Entry → Writer → Type 0
InPhase greeting es w = es ≡ []
InPhase (shipping id n) es w =
    Sublistᴰ es w.accepted × (length es ≡ n) × All (λ e. e.source_id ≡ id) es
InPhase (syncing before n) es w =
    Sublistᴰ es (take before w.accepted)
    × (length es ≡ n)
    × (before ≤ length w.accepted)
    × ((id : ℕ) × All (λ e. e.source_id ≡ id) es)
InPhase (finished (acknowledged n)) es w =
    Sublistᴰ es (flushed w.flushes) × (length es ≡ n) × ((id : ℕ) × All (λ e. e.source_id ≡ id) es)
InPhase (finished _) es w = Unit

module _ {ℓ} {A : Type ℓ} where
  pub Sublist-longer : {xs ys : List A} (zs : List A) → Sublistᴰ xs ys → Sublistᴰ xs (ys ++ zs)
  Sublist-longer {xs} {ys} zs s =
      subst (λ l. Sublistᴰ l (ys ++ zs)) (append-nil xs)
        (Sublistᴰ.append s (Sublistᴰ.nil-sublist zs))

  pub take-append_le : (n : ℕ) (xs ys : List A) → n ≤ length xs → take n (xs ++ ys) ≡ take n xs
  take-append_le zero xs ys h = refl
  take-append_le (suc n) [] ys h = absurd (omega arith)
  take-append_le (suc n) (x ∷ xs) ys h = ap (◌∷◌ x) (take-append_le n xs ys (omega arith))

  pub take-length : (xs : List A) → take (length xs) xs ≡ xs
  take-length [] = refl
  take-length (x ∷ xs) = ap (◌∷◌ x) (take-length xs)

  -- What is in front of a position that `ys` reaches is in `ys`.
  pub take-Sublist : (n : ℕ) (ys zs : List A) → n ≤ length ys → Sublistᴰ (take n (ys ++ zs)) ys
  take-Sublist zero ys zs h = Sublistᴰ.nil-sublist ys
  take-Sublist (suc n) [] zs h = absurd (omega arith)
  take-Sublist (suc n) (y ∷ ys) zs h = Sublistᴰ.cons-cons refl (take-Sublist n ys zs (omega arith))

pub InPhase-Grows :
    (ph : Phase) (es : List Entry) {w v : Writer} → Grows w v → InPhase ph es w → InPhase ph es v
InPhase-Grows greeting es gr h = h
InPhase-Grows (shipping id n) es gr (s, count, named) =
    (rw gr.accepted_more (Sublist-longer gr.added s), count, named)
InPhase-Grows (syncing before n) es {w} gr (s, count, reached, named) = (
  rw (gr.accepted_more, take-append_le before w.accepted gr.added reached) s,
  count,
  omega (arith, ap length gr.accepted_more, length-append w.accepted gr.added),
  named,
)
InPhase-Grows (finished (acknowledged n)) es gr (s, count, named) =
    (rw gr.flushed_more (Sublist-longer gr.written s), count, named)
InPhase-Grows (finished Outcome.invalid_argument) es gr h = tt
InPhase-Grows (finished Outcome.internal) es gr h = tt
InPhase-Grows (finished Outcome.disconnected) es gr h = tt
InPhase-Grows (finished Outcome.cancelled) es gr h = tt

-- The invariant of a call beside its writer.
pub record Safe (base : List Entry) (c : Call) (w : Writer) : Type 0 where
  pub accounts : Accounts w
  pub holds : Holds base w
  pub in_phase : InPhase c.phase c.shipped w

pub table-insert_gap : (g : Engine) (x : Gap) (s : State) → table (insert_gap g x s).1 ≡ table s
unfolding insert_gap
table-insert_gap g x s = ground arith

pub table-upsert_source :
    (g : Engine) (h : Hello) (s : State)
    → table (upsert_source g h.component h.instance_name h.version s).1 ≡ table s
unfolding upsert_source
table-upsert_source g h s = elim (Bool-cases (g.fails s.clock)) [
  | inl refused ↦ rw refused refl
  | inr granted ↦ rw granted (same_rows (find h.component h.instance_name s.db.sources))
]
  where
    same_rows :
        (old : Option Source)
        → map
            (λ (r : Row). r.entry)
            (upsert g h.component h.instance_name h.version s.db old).1.entries
          ≡ table s
    same_rows none = refl
    same_rows (some _) = refl

-- A statement that leaves the entries alone.
pub store-Safe :
    (base : List Entry) (c : Call) (w : Writer) (s : State)
    → table s ≡ table w.store
    → Safe base c w
    → Safe base c (record w { store = s })
store-Safe base c w s e h = record {
  accounts = record {
    whole = h.accounts.whole;
    in_place = h.accounts.in_place;
    answered = h.accounts.answered;
    queue_fits = h.accounts.queue_fits;
    batch_fits = h.accounts.batch_fits;
  };
  holds = e ∙ h.holds;
  in_phase = InPhase-Grows c.phase c.shipped (store-Grows w s) h.in_phase;
}

pub writes-Safe :
    {g : Engine} (base : List Entry) (c : Call) {w v : Writer}
    → Steps.Step g w v
    → Safe base c w
    → Safe base c v
writes-Safe base c st h = record {
  accounts = Step-Accounts st h.accounts;
  holds = Step-Holds base st h.holds;
  in_phase = InPhase-Grows c.phase c.shipped (Step-Grows st) h.in_phase;
}

pub move_to-Safe :
    {base : List Entry} {c : Call} {w : Writer} (ph : Phase)
    → InPhase ph c.shipped w
    → Safe base c w
    → Safe base (move_to ph c) w
move_to-Safe ph h s = record { accounts = s.accounts; holds = s.holds; in_phase = h }
