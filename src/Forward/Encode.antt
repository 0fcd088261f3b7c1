-- ===== src/Forward/Encode.antt =====
-- internal/forward/forwarder.go: a batch of entries as the lines that go out. `known` is the map
-- that only `Run` touches, a list of sources whose first hit counts.
pub mod Lines
use mathlib.Core.Option
use hannah_logcollector.Prelude.{ℕ, Bool, List, [], ◌∷◌, Option, none, some, if◌then◌else◌}
use hannah_logcollector.Text.{Bytes, is_empty}
use hannah_logcollector.Proto.{Proto}
use hannah_logcollector.Store.{Source, Entry}
use hannah_logcollector.Store.Sql.{Result, ok, failed}
use hannah_logcollector.Store.Queries.{source_of}
use hannah_logcollector.Forward.Format.{format, frame, text}

-- `f.cfg.Network == "tcp"`, and the interface `Names`, if it is set.
pub record Settings : Type 0 where
  pub is_tcp : Bool
  pub names : Option (Bytes → Bytes)

abbrev pub display_name : Option (Bytes → Bytes) → Bytes → Bytes
display_name none i = []
display_name (some names) i = names i

-- The line of an entry.
abbrev pub line_of : Proto → Settings → Entry → Source → Bytes
line_of p f e src =
    let line = format p e src (display_name f.names src.instance_name) in
    if f.is_tcp then frame line else line

-- The interface `Sources`: `AllSources` on a state `S` of whoever implements it.
module _ {S : Type 0} (all_sources : S → Result (List Source) × S) where
  -- What `source` returns, with the map and the sources behind it.
  pub record Found : Type 0 where
    pub src : Option Source
    pub known : List Source
    pub sources : S

  -- `source` once the map has nothing.
  abbrev pub asked : ℕ → List Source → Result (List Source) × S → Found
  asked id known (failed, s) = record { src = none; known = known; sources = s }
  asked id known (ok all, s) = record { src = source_of id all; known = all; sources = s }

  abbrev pub looked_up : ℕ → List Source → S → Option Source → Found
  looked_up id known s (some src) = record { src = some src; known = known; sources = s }
  looked_up id known s none = asked id known (all_sources s)

  -- `source`
  unfoldable pub source : ℕ → List Source → S → Found
  source id known s = looked_up id known s (source_of id known)

  -- What `encode` returns, with the map and the sources behind it.
  pub record Encoded : Type 0 where
    pub lines : List Bytes
    pub known : List Source
    pub sources : S

  module _ (p : Proto) (f : Settings) where
    abbrev pub add_line : Option Source → Entry → Encoded → Encoded
    add_line none e out = out
    add_line (some src) e out = record out { lines = line_of p f e src ∷ out.lines }

    -- The loop of `encode`.
    unfoldable pub encode : List Entry → List Source → S → Encoded
    encode [] known s = record { lines = []; known = known; sources = s }
    encode (e ∷ batch) known s =
        if is_empty (text e.message)
        then encode batch known s
        else let found = source e.source_id known s in
          add_line found.src e (encode batch found.known found.sources)
