-- ===== src/Export/Build/Standing.antt =====
-- Where the loop over the entries in `Build` stands: the files that are done, and the one that is
-- staged.
use hannah_logcollector.Prelude.{
  ℕ, ◌<◌, ◌≤◌, ◌≡◌, ◌≢◌, sym, ap, ◌∙◌, true, List, [], ◌∷◌, ◌++◌, map, Option, some, All,
  All-append, arith,
}
use hannah_logcollector.Time.{format_ms}
use hannah_logcollector.Proto.{Proto}
use hannah_logcollector.Store.{Source, Entry}
use hannah_logcollector.Store.Queries.{has_any}
use hannah_logcollector.Export.Line.{format_line}
use hannah_logcollector.Export.Build.{StagedFile, Work, appended}
use hannah_logcollector.Export.Table.{change_at, counted_at}
use hannah_logcollector.Export.Build.Effects.{Shows, closed}
use hannah_logcollector.Export.Build.Contents.{
  mine, lines_of, base_of, name_of, member_of, described, describe, keyed, mine_same, mine_other,
  lines_of-snoc, described_next,
}
use hannah_logcollector.Export.Build.Tables.{
  change_at-last, map_others, Among, Among-last, below-ne, Rising,
}

module _ (p : Proto) (sources : List Source) where
  abbrev staged_of : List Entry → ℕ → Option StagedFile
  staged_of es id =
      some (record { source_id = id; name = name_of sources id; content = lines_of p (mine id es) })

  -- Behind the entries `es` the files of `ids` are in the archive, and that of `id` is staged.
  pub record At (es : List Entry) (ids : List ℕ) (id : ℕ) (w : Work) : Type 0 where
    pub members : w.members ≡ map (member_of p sources es) ids
    pub current : w.current ≡ staged_of es id
    pub manifest : w.manifest ≡ map (keyed sources es []) ids ++ keyed sources es [] id ∷ []
    pub below : All (λ k. k < id) ids
    pub rising : Rising ids
    pub reached : All (λ (x : Entry). x.source_id ≤ id) es
    pub known : All (λ (x : Entry). Among x.source_id (ids ++ id ∷ [])) es
    pub first : Entry
    pub others : List Entry
    pub some_entry : mine id es ≡ first ∷ others
    pub each_entry : All (λ k. has_any (mine k es) ≡ true) ids

  -- Behind the entries `es` the files of `ids` are in the archive or staged.
  pub record Between (es : List Entry) (ids : List ℕ) (w : Work) : Type 0 where
    pub members : w.members ++ closed w.current ≡ map (member_of p sources es) ids
    pub manifest : w.manifest ≡ map (keyed sources es []) ids
    pub rising : Rising ids
    pub known : All (λ (x : Entry). Among x.source_id ids) es
    pub each_entry : All (λ k. has_any (mine k es) ≡ true) ids

  staged_next :
      (es : List Entry) (e : Entry)
      → appended (format_line p e) (staged_of es e.source_id) ≡ staged_of (es ++ e ∷ []) e.source_id
  staged_next es e =
      ap
        (λ c.
          some
            (record { source_id = e.source_id; name = name_of sources e.source_id; content = c }))
        (sym (lines_of-snoc p (mine e.source_id es) e) ∙ ap (lines_of p) (sym (mine_same es e)))

  pub members_others :
      (es : List Entry) (e : Entry) (ids : List ℕ)
      → All (λ k. k ≢ e.source_id) ids
      → map (member_of p sources (es ++ e ∷ [])) ids ≡ map (member_of p sources es) ids
  members_others es e ids h =
      map_others (λ k l. record { name = name_of sources k; content = lines_of p l }) es e ids h

  pub keyed_others :
      (es : List Entry) (e : Entry) (ids : List ℕ)
      → All (λ k. k ≢ e.source_id) ids
      → map (keyed sources (es ++ e ∷ []) []) ids ≡ map (keyed sources es []) ids
  keyed_others es e ids h = map_others (λ k l. (k, described (base_of sources k) l [])) es e ids h

  pub each_more :
      (es : List Entry) (e : Entry) (ids : List ℕ)
      → All (λ k. k ≢ e.source_id) ids
      → All (λ k. has_any (mine k es) ≡ true) ids
      → All (λ k. has_any (mine k (es ++ e ∷ [])) ≡ true) ids
  each_more es e [] h all = tt
  each_more es e (k ∷ ids) h all = (rw (mine_other k es e h.0) all.0, each_more es e ids h.1 all.1)

  described_more :
      (es : List Entry) (e first : Entry) (others : List Entry)
      → mine e.source_id es ≡ first ∷ others
      → counted_at (format_ms e.timestamp_ms) (describe sources es [] e.source_id)
        ≡ describe sources (es ++ e ∷ []) [] e.source_id
  described_more es e first others some_entry =
      let base = base_of sources e.source_id in
      ap (λ l. counted_at (format_ms e.timestamp_ms) (described base l [])) some_entry
      ∙ described_next base first others e []
      ∙ sym (ap (λ l. described base l []) (mine_same es e ∙ ap (λ l. l ++ e ∷ []) some_entry))

  pub same-At :
      (es : List Entry) (ids : List ℕ) (e : Entry) (w v : Work)
      → At es ids e.source_id w
      → Shows w
          (change_at e.source_id (counted_at (format_ms e.timestamp_ms)) w.manifest)
          (appended (format_line p e) w.current)
          w.members
          v
      → At (es ++ e ∷ []) ids e.source_id v
  same-At es ids e w v a s =
      let apart = below-ne e.source_id ids a.below in
      record {
        members = s.2 ∙ a.members ∙ sym (members_others es e ids apart);
        current = s.1 ∙ ap (appended (format_line p e)) a.current ∙ staged_next es e;
        manifest =
            s.0
            ∙ ap (change_at e.source_id (counted_at (format_ms e.timestamp_ms))) a.manifest
            ∙ change_at-last (describe sources es []) e.source_id _ _ ids apart
            ∙ ap (λ m. map (keyed sources es []) ids ++ (e.source_id, m) ∷ [])
                (described_more es e a.first a.others a.some_entry)
            ∙ ap (λ l. l ++ keyed sources (es ++ e ∷ []) [] e.source_id ∷ [])
                (sym (keyed_others es e ids apart));
        below = a.below;
        rising = a.rising;
        reached = All-append _ es (e ∷ []) a.reached (omega arith, tt);
        known = All-append _ es (e ∷ []) a.known (Among-last e.source_id ids, tt);
        first = a.first;
        others = a.others ++ e ∷ [];
        some_entry = mine_same es e ∙ ap (λ l. l ++ e ∷ []) a.some_entry;
        each_entry = each_more es e ids apart a.each_entry;
      }
