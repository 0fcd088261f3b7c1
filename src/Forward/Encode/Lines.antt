-- ===== src/Forward/Encode/Lines.antt =====
-- The lines of a batch, whatever the map of known sources holds at the time.
use mathlib.Core.Option
use hannah_logcollector.Prelude.{
  ℕ, ◌≡◌, refl, sym, ap, ◌∙◌, ◌⊎◌, inl, inr, List, [], ◌∷◌, Option, none, some, if◌then◌else◌,
  Bool-cases, arith,
}
use hannah_logcollector.Text.{Bytes, is_empty}
use hannah_logcollector.Proto.{Proto}
use hannah_logcollector.Store.{Source, Entry}
use hannah_logcollector.Store.Sql.{Result, ok}
use hannah_logcollector.Store.Queries.{source_of}
use hannah_logcollector.Forward.Format.{format, text}
use hannah_logcollector.Forward.Encode.{
  Settings, line_of, looked_up, source, Encoded, add_line, encode,
}

-- What a line takes of a source.
abbrev pub names_of : Source → Bytes × Bytes
names_of s = (s.component, s.instance_name)

-- The map has no source that the table has not, or has under other names.
abbrev pub Agrees : List Source → List Source → Type 0
Agrees known table =
    (id : ℕ)
    → (source_of id known ≡ none)
      ⊎ (Option.map names_of (source_of id known) ≡ Option.map names_of (source_of id table))

-- The lines by the table alone: none for an entry without text or without a source.
abbrev pub line_by : Proto → Settings → Entry → Option Source → List Bytes → List Bytes
line_by p f e none lines = lines
line_by p f e (some src) lines = line_of p f e src ∷ lines

unfoldable pub lines_by : Proto → Settings → List Source → List Entry → List Bytes
lines_by p f table [] = []
lines_by p f table (e ∷ batch) =
    let lines = lines_by p f table batch in
    if is_empty (text e.message) then lines else line_by p f e (source_of e.source_id table) lines

-- The line by the names alone.
abbrev line_named : Proto → Settings → Entry → Bytes × Bytes → Bytes
line_named p f e n =
    line_of p f e (record { id = 0; component = n.0; instance_name = n.1; version = [] })

line_of-names :
    (p : Proto) (f : Settings) (e : Entry) (a : Source)
    → line_of p f e a ≡ line_named p f e (names_of a)
unfolding format
line_of-names p f e a = refl

line_by-names :
    (p : Proto) (f : Settings) (e : Entry) (a b : Option Source) (lines : List Bytes)
    → Option.map names_of a ≡ Option.map names_of b
    → line_by p f e a lines ≡ line_by p f e b lines
line_by-names p f e none none lines h = refl
line_by-names p f e none (some b) lines h = ground arith
line_by-names p f e (some a) none lines h = ground arith
line_by-names p f e (some a) (some b) lines h =
    let e_names : names_of a ≡ names_of b = grind arith in
    ap (λ line. line ∷ lines)
      (line_of-names p f e a ∙ ap (line_named p f e) e_names ∙ sym (line_of-names p f e b))

module _ {S : Type 0} (all_sources : S → Result (List Source) × S) (table : List Source) where
  -- The sources answer, and always with the table.
  abbrev pub Answers : Type 0
  Answers = (s : S) → (all_sources s).0 ≡ ok table

  looked_up_lem :
      (id : ℕ) (known : List Source) (s : S) (have : Option Source)
      → Answers
      → Agrees known table
      → source_of id known ≡ have
      → (Option.map names_of (looked_up all_sources id known s have).src
          ≡ Option.map names_of (source_of id table))
        × Agrees (looked_up all_sources id known s have).known table
  looked_up_lem id known s (some src) ans ag h = (
    elim (ag id) [
      | inl missing ↦ absurd (grind arith)
      | inr same ↦ ap (Option.map names_of) (sym h) ∙ same
    ],
    ag,
  )
  looked_up_lem id known s none ans ag h = rw (ans s) (refl, λ id'. inr refl)

  source_lem :
      (id : ℕ) (known : List Source) (s : S)
      → Answers
      → Agrees known table
      → let found = source all_sources id known s in
        (Option.map names_of found.src ≡ Option.map names_of (source_of id table))
        × Agrees found.known table
  unfolding source
  source_lem id known s ans ag = looked_up_lem id known s (source_of id known) ans ag refl

  module _ (p : Proto) (f : Settings) where
    add_line_lem :
        (src by_table : Option Source) (e : Entry) (out : Encoded all_sources) (lines : List Bytes)
        → Option.map names_of src ≡ Option.map names_of by_table
        → out.lines ≡ lines
        → Agrees out.known table
        → ((add_line all_sources p f src e out).lines ≡ line_by p f e by_table lines)
          × Agrees (add_line all_sources p f src e out).known table
    add_line_lem none by_table e out lines h same ag =
        (same ∙ line_by-names p f e none by_table lines h, ag)
    add_line_lem (some src) by_table e out lines h same ag =
        (ap (λ t. line_of p f e src ∷ t) same ∙ line_by-names p f e (some src) by_table lines h, ag)

    -- If the sources answer with the table, and the map of known sources says nothing else, the
    -- lines of a batch are those by the table: one for each entry, in order, but none for an entry
    -- without text or without a source. The map still says nothing else afterwards.
    pub encode_lem :
        (batch : List Entry) (known : List Source) (s : S)
        → Answers
        → Agrees known table
        → ((encode all_sources p f batch known s).lines ≡ lines_by p f table batch)
          × Agrees (encode all_sources p f batch known s).known table
    unfolding encode lines_by
    encode_lem [] known s ans ag = (refl, ag)
    encode_lem (e ∷ batch) known s ans ag = elim (Bool-cases (is_empty (text e.message))) [
      | inl empty ↦ rw empty (encode_lem batch known s ans ag)
      | inr full ↦ rw full (
          let found = source all_sources e.source_id known s in
          let (same, agrees) = source_lem e.source_id known s ans ag in
          let (lines, still) = encode_lem batch found.known found.sources ans agrees in
          add_line_lem found.src (source_of e.source_id table) e
            (encode all_sources p f batch found.known found.sources) _ same lines still)
    ]
