-- ===== src/Forward/Sender/Account.antt =====
-- What becomes of the entries that `Run` takes from the queue.
use mathlib.Core.List.{flatten}
use hannah_logcollector.Prelude.Lists.{take}
use hannah_logcollector.Prelude.{
  ℕ, Option, none, some, ◌≤◌, ◌≡◌, refl, sym, inl, inr, ◌⊎◌, false, true, List, [], ◌∷◌, ◌++◌,
  append_assoc, Bool-cases,
}
use hannah_logcollector.Text.{Bytes, is_empty}
use hannah_logcollector.Proto.{Proto}
use hannah_logcollector.Store.{Source, Entry}
use hannah_logcollector.Store.Sql.{Result}
use hannah_logcollector.Store.Queries.{source_of}
use hannah_logcollector.Forward.Format.{text}
use hannah_logcollector.Forward.Encode.{Settings}
use hannah_logcollector.Forward.Encode.Lines.{Agrees, lines_by, line_by}
use hannah_logcollector.Forward.Sender.{
  min_backoff, max_backoff, Network, Sent, Phase, taking, sending, Sender,
}

-- The lines that wait to be sent.
abbrev pub pending : Phase → List Bytes
pending taking = []
pending (sending lines) = lines

pub flatten-append : (xs ys : List Bytes) → flatten (xs ++ ys) ≡ flatten xs ++ flatten ys
unfolding flatten
flatten-append [] ys = refl
flatten-append (x ∷ xs) ys =
    rw (flatten-append xs ys) (sym (append_assoc x (flatten xs) (flatten ys)))

line_by-append :
    (p : Proto) (f : Settings) (e : Entry) (src : Option Source) (xs ys : List Bytes)
    → line_by p f e src (xs ++ ys) ≡ line_by p f e src xs ++ ys
line_by-append p f e none xs ys = refl
line_by-append p f e (some src) xs ys = refl

pub lines_by-append :
    (p : Proto) (f : Settings) (table : List Source) (xs ys : List Entry)
    → lines_by p f table (xs ++ ys) ≡ lines_by p f table xs ++ lines_by p f table ys
unfolding lines_by
lines_by-append p f table [] ys = refl
lines_by-append p f table (x ∷ xs) ys = elim (Bool-cases (is_empty (text x.message))) [
  | inl empty ↦ rw empty (lines_by-append p f table xs ys)
  | inr full ↦
      rw (full, lines_by-append p f table xs ys)
        (line_by-append p f x (source_of x.source_id table) _ _)
]

-- How the writes on TCP connections make up the payloads: `Wire writes sent payload` if a payload of
-- lines waits behind `writes`, which have sent the lines `sent`. Each write is of the whole payload
-- that waits; it is repeated as long as only a front of it goes out.
pub data Wire : List Bytes → List Bytes → List Bytes → Type 0 where
  unused : Wire [] [] []
  begins : {ws sent : List Bytes} (lines : List Bytes) → Wire ws sent [] → Wire ws sent lines
  cut_short :
      {ws sent lines : List Bytes} (n : ℕ)
      → Wire ws sent lines
      → Wire (ws ++ take n (flatten lines) ∷ []) sent lines
  sent_whole :
      {ws sent lines : List Bytes}
      → Wire ws sent lines
      → Wire (ws ++ flatten lines ∷ []) (sent ++ lines) []

module _ {S : Type 0} (net : Network) (all_sources : S → Result (List Source) × S) (p : Proto)
    (f : Settings) (table : List Source) where
  pub record Accounts (w : Sender S) : Type 0 where
    pub whole : w.encoded ≡ w.delivered ++ pending w.phase
    pub lines : w.encoded ≡ lines_by p f table w.taken
    pub on_wire : Wire w.wire w.delivered (pending w.phase)
    pub agrees : Agrees w.known table
    pub patient : min_backoff ≤ w.backoff
    pub bounded : w.backoff ≤ max_backoff

  -- A write over TCP goes out whole, or fails behind a front of it.
  abbrev Written : List Bytes → Sent → Type 0
  Written lines out =
      (out.fine ≡ true) × (out.written ≡ flatten lines ∷ [])
      ⊎ (out.fine ≡ false) × ((n : ℕ) × (out.written ≡ take n (flatten lines) ∷ []))
