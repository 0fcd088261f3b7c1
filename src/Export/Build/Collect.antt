-- ===== src/Export/Build/Collect.antt =====
-- The loop over the entries in `Build`: they come by source, so each source has one file.
use mathlib.Core.List.{map-append}
use mathlib.Core.Path.{subst}
use hannah_logcollector.Prelude.{
  ◌+◌, ℕ, ◌<◌, ◌≤◌, ◌≡◌, ◌≢◌, refl, sym, ap, ◌∙◌, Bool, List, [], ◌∷◌, ◌++◌, append_assoc,
  append-nil, none, some, ◌==◌, All, All-append, arith, Bool-cases, inl, inr,
}
use hannah_logcollector.Prelude.Perm.{All-imp}
use hannah_logcollector.Time.{format_ms}
use hannah_logcollector.Proto.{Proto}
use hannah_logcollector.Store.{Source, Entry}
use hannah_logcollector.Store.Queries.{source_of, has_any}
use hannah_logcollector.Export.Line.{format_line}
use hannah_logcollector.Export.Manifest.{ManifestSource}
use hannah_logcollector.Export.Build.{Work, is_current, appended, take_entry, take_entries}
use hannah_logcollector.Export.Table.{entry_at, change_at, named_at, opened_at, counted_at, file_at}
use hannah_logcollector.Export.Build.Rules.{
  operate-Ensures, next_row_gives, Anything, Gives, gives_also, gives_then,
}
use hannah_logcollector.Export.Build.Effects.{
  Shows, closed, named, begun, empty_file, entry_same, entry_new,
}
use hannah_logcollector.Export.Build.Contents.{
  mine, lines_of, base_of, name_of, member_of, described, describe, keyed, mine_same,
  described_first,
}
use hannah_logcollector.Export.Build.Tables.{
  table_of, entry_at-last, change_at-last, with_source-absent, Among-append, Among-last, below-ne,
  Rising-last,
}
use hannah_logcollector.Export.Build.Standing.{
  At, Between, members_others, keyed_others, each_more, same-At,
}

module _ (p : Proto) (sources : List Source) where
  mine_none :
      (id : ℕ) (es : List Entry) → All (λ (x : Entry). x.source_id < id) es → mine id es ≡ []
  mine_none id [] h = refl
  mine_none id (x ∷ es) h = ground (arith, mine_none id es h.1)

  named_lem :
      (F : ℕ → ManifestSource) (e : Entry) (ids : List ℕ)
      → All (λ k. k ≢ e.source_id) ids
      → named sources e (table_of F ids)
        ≡ table_of F ids ++ (e.source_id, named_at (base_of sources e.source_id)) ∷ []
  named_lem F e ids h =
      ap (change_at e.source_id named_at) (with_source-absent F sources e.source_id ids h)
      ∙ change_at-last F e.source_id _ _ ids h

  begun_lem :
      (F : ℕ → ManifestSource) (e : Entry) (ids : List ℕ)
      → All (λ k. k ≢ e.source_id) ids
      → change_at e.source_id
          (counted_at (format_ms e.timestamp_ms))
          (begun sources e (table_of F ids))
        ≡ table_of F ids ++ (e.source_id, described (base_of sources e.source_id) (e ∷ []) []) ∷ []
  begun_lem F e ids h =
      ap
        (λ l.
          change_at e.source_id (counted_at (format_ms e.timestamp_ms))
            (change_at e.source_id (opened_at (format_ms e.timestamp_ms)) l))
        (named_lem F e ids h)
      ∙ ap (change_at e.source_id (counted_at (format_ms e.timestamp_ms)))
          (change_at-last F e.source_id _ _ ids h)
      ∙ change_at-last F e.source_id _ _ ids h
      ∙ ap (λ m. table_of F ids ++ (e.source_id, m) ∷ [])
          (described_first (source_of e.source_id sources) e)

  begin-At :
      (es : List Entry) (ids : List ℕ) (e : Entry) (w v : Work)
      → Between p sources es ids w
      → All (λ k. k < e.source_id) ids
      → All (λ (x : Entry). x.source_id < e.source_id) es
      → Shows w
          (change_at e.source_id
            (counted_at (format_ms e.timestamp_ms))
            (begun sources e w.manifest))
          (appended (format_line p e) (empty_file sources e w.manifest))
          (w.members ++ closed w.current)
          v
      → At p sources (es ++ e ∷ []) ids e.source_id v
  begin-At es ids e w v b below before s =
      let apart = below-ne e.source_id ids below in
      let F = describe sources es [] in
      let alone : mine e.source_id (es ++ e ∷ []) ≡ e ∷ [] =
        mine_same es e ∙ ap (λ l. l ++ e ∷ []) (mine_none e.source_id es before) in
      record {
        members = s.2 ∙ b.members ∙ sym (members_others p sources es e ids apart);
        current =
            s.1
            ∙ ap (λ m. appended (format_line p e) (empty_file sources e m)) b.manifest
            ∙ ap
                (λ n.
                  some (record { source_id = e.source_id; name = n; content = format_line p e }))
                (ap (λ l. file_at (entry_at e.source_id l)) (named_lem F e ids apart)
                  ∙ ap file_at (entry_at-last F e.source_id _ ids apart))
            ∙ ap
                (λ c. some (record {
                  source_id = e.source_id;
                  name = name_of sources e.source_id;
                  content = c;
                }))
                (sym (append-nil (format_line p e)) ∙ ap (lines_of p) (sym alone));
        manifest =
            s.0
            ∙ ap
                (λ m.
                  change_at e.source_id (counted_at (format_ms e.timestamp_ms)) (begun sources e m))
                b.manifest
            ∙ begun_lem F e ids apart
            ∙ ap
                (λ l.
                  table_of F ids
                  ++ (e.source_id, described (base_of sources e.source_id) l []) ∷ [])
                (sym alone)
            ∙ ap (λ l. l ++ keyed sources (es ++ e ∷ []) [] e.source_id ∷ [])
                (sym (keyed_others p sources es e ids apart));
        below = below;
        rising = b.rising;
        reached =
            All-append _ es (e ∷ []) (All-imp es (λ x l. omega arith) before) (omega arith, tt);
        known =
            All-append _ es (e ∷ [])
              (All-imp es (λ x m. Among-append x.source_id ids (e.source_id ∷ []) m) b.known)
              (Among-last e.source_id ids, tt);
        first = e;
        others = [];
        some_entry = alone;
        each_entry = each_more p sources es e ids apart b.each_entry;
      }

  At-Between :
      {es : List Entry} {ids : List ℕ} {id : ℕ} {w : Work}
      → At p sources es ids id w
      → Between p sources es (ids ++ id ∷ []) w
  At-Between {es} {ids} {id} {w} a = record {
    members =
        ap (λ c. w.members ++ closed c) a.current
        ∙ ap (λ l. l ++ member_of p sources es id ∷ []) a.members
        ∙ sym (map-append (member_of p sources es) ids (id ∷ []));
    manifest = a.manifest ∙ sym (map-append (keyed sources es []) ids (id ∷ []));
    rising = Rising-last ids id a.rising a.below;
    known = a.known;
    each_entry = All-append _ ids (id ∷ []) a.each_entry (ap has_any a.some_entry, tt);
  }

  -- The entries come by source.
  abbrev pub Ascends : ℕ → List Entry → Type 0
  Ascends id [] = Unit
  Ascends id (e ∷ es) = (id ≤ e.source_id) × Ascends e.source_id es

  module _ (fails : ℕ → Bool) where
    -- The outcome of a job on `w` that has `es` behind it.
    abbrev Got : List Entry → Work → Work → Type 0
    Got es w v = (ids : List ℕ) × (id : ℕ) × At p sources es ids id v × (v.store ≡ w.store)

    abbrev Stepped : List Entry → Entry → Work → Work → Type 0
    Stepped es e w v =
        (ids : List ℕ) × At p sources (es ++ e ∷ []) ids e.source_id v × (v.store ≡ w.store)

    next-At :
        (es : List Entry) (ids : List ℕ) (id : ℕ) (e : Entry) (w : Work)
        → At p sources es ids id w
        → id ≤ e.source_id
        → Gives (take_entry fails p sources e) w (Stepped es e w)
    next-At es ids id e w a le = elim (Bool-cases (id == e.source_id)) [
      | inl same ↦
          let q : id ≡ e.source_id = ground arith in
          gives_also (take_entry fails p sources e) w _ (Stepped es e w)
            (entry_same fails p sources e w (ap (is_current e.source_id) a.current ∙ same))
            (λ v s. (
              ids,
              same-At p sources es ids e w v (subst (λ i. At p sources es ids i w) q a) s,
              s.3,
            ))
      | inr other ↦
          let lt : id < e.source_id = ground arith in
          gives_also (take_entry fails p sources e) w _ (Stepped es e w)
            (entry_new fails p sources e w (ap (is_current e.source_id) a.current ∙ other))
            (λ v s. (
              ids ++ id ∷ [],
              begin-At es (ids ++ id ∷ []) e w v (At-Between a)
                  (All-append _ ids (id ∷ []) (All-imp ids (λ k l. omega arith) a.below) (lt, tt))
                  (All-imp es (λ x l. omega arith) a.reached) s,
              s.3,
            ))
    ]

    -- A row is read.
    abbrev counted : Work → Work
    counted w = record w { operations = w.operations + 1 }

    counted-At :
        {es : List Entry} {ids : List ℕ} {id : ℕ} {w : Work}
        → At p sources es ids id w
        → At p sources es ids id (counted w)
    counted-At a = record {
      members = a.members;
      current = a.current;
      manifest = a.manifest;
      below = a.below;
      rising = a.rising;
      reached = a.reached;
      known = a.known;
      first = a.first;
      others = a.others;
      some_entry = a.some_entry;
      each_entry = a.each_entry;
    }

    all-At :
        (rest es : List Entry) (ids : List ℕ) (id : ℕ) (w : Work)
        → At p sources es ids id w
        → Ascends id rest
        → Gives (take_entries fails p sources rest) w (Got (es ++ rest) w)
    unfolding take_entries
    all-At [] es ids id w a asc =
        operate-Ensures (λ _. Got (es ++ []) w) Anything fails (λ w. w) w
          (
            ids,
            id,
            subst (λ l. At p sources l ids id (counted w)) (sym (append-nil es)) (counted-At a),
            refl,
          )
          tt
    all-At (e ∷ rest) es ids id w a asc = next_row_gives fails _ w (Got (es ++ e ∷ rest) w) (
        gives_then (take_entry fails p sources e) (take_entries fails p sources rest) (counted w)
          (Stepped es e w) (Got (es ++ e ∷ rest) w)
          (next-At es ids id e (counted w) (counted-At a) asc.0)
          (λ v b.
            gives_also (take_entries fails p sources rest) v (Got ((es ++ e ∷ []) ++ rest) v)
              (Got (es ++ e ∷ rest) w) (all-At rest (es ++ e ∷ []) b.0 e.source_id v b.1 asc.1)
              (λ u c. (
                c.0,
                c.1,
                subst (λ l. At p sources l c.0 c.1 u) (append_assoc es (e ∷ []) rest) c.2,
                c.3 ∙ b.2,
              ))))

    -- The loop over entries that come by source.
    pub entries-Between :
        (es : List Entry) (w : Work)
        → w.manifest ≡ []
        → w.current ≡ none
        → w.members ≡ []
        → Ascends 0 es
        → Gives
            (take_entries fails p sources es)
            w
            (λ v. (ids : List ℕ) × Between p sources es ids v × (v.store ≡ w.store))
    unfolding take_entries
    entries-Between [] w em ec es asc =
        operate-Ensures (λ _ v. (ids : List ℕ) × Between p sources [] ids v × (v.store ≡ w.store))
          Anything fails (λ w. w) w
          (
            [],
            record {
              members = rw (ec, es) refl;
              manifest = em;
              rising = tt;
              known = tt;
              each_entry = tt;
            },
            refl,
          )
          tt
    entries-Between (e ∷ rest) w em ec es asc =
        let none_yet : Between p sources [] [] (counted w) = record {
          members = rw (ec, es) refl;
          manifest = em;
          rising = tt;
          known = tt;
          each_entry = tt;
        } in
        next_row_gives fails _ w
          (λ v. (ids : List ℕ) × Between p sources (e ∷ rest) ids v × (v.store ≡ w.store))
          (gives_then (take_entry fails p sources e) (take_entries fails p sources rest) (counted w)
            (λ v. At p sources (e ∷ []) [] e.source_id v × (v.store ≡ w.store))
            (λ v. (ids : List ℕ) × Between p sources (e ∷ rest) ids v × (v.store ≡ w.store))
            (gives_also (take_entry fails p sources e) (counted w) _
              (λ v. At p sources (e ∷ []) [] e.source_id v × (v.store ≡ w.store))
              (entry_new fails p sources e (counted w) (ap (is_current e.source_id) ec))
              (λ v s. (begin-At [] [] e (counted w) v none_yet tt tt s, s.3)))
            (λ v a.
              gives_also (take_entries fails p sources rest) v (Got (e ∷ rest) v) _
                (all-At rest (e ∷ []) [] e.source_id v a.0 asc.1)
                (λ u c. (c.0 ++ c.1 ∷ [], At-Between c.2, c.3 ∙ a.1))))
