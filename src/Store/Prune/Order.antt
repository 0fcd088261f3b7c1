-- ===== src/Store/Prune/Order.antt =====
-- One deletion: it takes the oldest entries, and what is left is younger.
use mathlib.Core.List.{Permᴰ, map-append}
use mathlib.Core.List.Permᴰ
use mathlib.Core.Path.{subst}
use hannah_logcollector.Prelude.{
  ℕ, ◌+◌, ◌≡◌, ◌≢◌, refl, sym, ◌∙◌, true, false, not, List, [], ◌∷◌, ◌++◌, append_assoc, map, arith,
  ℤ, All, All-append, length, length-append, keep_if, take, drop, take-append-drop,
}
use hannah_logcollector.Prelude.Perm.{
  Distinct, All-perm, Distinct-perm, Distinct-of_append, keep_if-append, keep_if_self, keep_if_none,
  keep_if-perm, keep_if-holds, partition-perm, All-of_append, All-imp, All-of_map, All-flip,
  length-perm,
}
use hannah_logcollector.Prelude.Sort.{sort, sort-perm, sort-IsSorted, IsSorted, IsSorted-append}
use hannah_logcollector.Store.Sql.{Row}
use hannah_logcollector.Store.Prune.{older, is_in, oldest, without, is_young}

pub older_total : (a b : Row) → older a b ≡ false → older b a ≡ true
older_total a b h = ground arith

pub older_trans : (a b c : Row) → older a b ≡ true → older b c ≡ true → older a c ≡ true
older_trans a b c h k = ground arith

-- `rows` fall into the ones that are gone and those kept, and every one gone is older than all kept.
pub record Splits (rows kept : List Row) : Type 0 where
  pub gone : List Row
  pub whole : Permᴰ rows (gone ++ kept)
  pub oldest_gone : All (λ r. All (λ k. older r k ≡ true) kept) gone

pub length-Splits :
    {rows kept : List Row} (s : Splits rows kept) → length s.gone + length kept ≡ length rows
length-Splits {rows} {kept} s = omega (arith, length-perm s.whole, length-append s.gone kept)

pub Splits-refl : (rows : List Row) → Splits rows rows
Splits-refl rows = record { gone = []; whole = Permᴰ.refl rows; oldest_gone = tt }

pub Splits-trans : {a b c : List Row} → Splits a b → Splits b c → Splits a c
Splits-trans {a} {b} {c} s t = record {
  gone = s.gone ++ t.gone;
  whole = Permᴰ.trans s.whole (
      subst (λ l. Permᴰ (s.gone ++ b) l) (sym (append_assoc s.gone t.gone c))
        (Permᴰ.append_left s.gone t.whole));
  oldest_gone =
      All-append _ s.gone t.gone
        (All-imp s.gone (λ r h. (All-of_append _ t.gone c (All-perm _ t.whole h)).1) s.oldest_gone)
        t.oldest_gone;
}

is_in_self : (xs : List Row) → All (λ r. not (is_in (map (λ (q : Row). q.id) xs) r.id) ≡ false) xs
is_in_self [] = tt
is_in_self (x ∷ xs) = (ground arith, All-imp xs (λ r h. ground arith) (is_in_self xs))

not_in : (ids : List ℕ) (i : ℕ) → All (λ j. j ≢ i) ids → not (is_in ids i) ≡ true
not_in [] i h = refl
not_in (j ∷ ids) i h = ground (arith, not_in ids i h.1)

-- Deleting by the ids of the first rows of a list with distinct ids leaves the others.
without-front :
    (front back : List Row)
    → Distinct (map (λ (q : Row). q.id) (front ++ back))
    → without (map (λ (q : Row). q.id) front) (front ++ back) ≡ back
without-front front back d =
    let ids = map (λ (q : Row). q.id) front in
    let test = λ (r : Row). not (is_in ids r.id) in
    let apart = Distinct-of_append ids (map (λ (q : Row). q.id) back) (rw map-append at d) in
    keep_if-append test front back
    ∙ rw (keep_if_none test front (is_in_self front)) (
        keep_if_self test back (
          All-imp back (λ r h. not_in ids r.id h)
            (All-of_map _ (λ (q : Row). q.id) back (All-flip (λ (x y : ℕ). x ≢ y) ids _ apart))))

-- Deleting the `n` oldest rows.
pub without-oldest-Splits :
    (n : ℕ) (rows : List Row)
    → Distinct (map (λ (q : Row). q.id) rows)
    → (s : Splits rows (without (oldest n rows) rows)) × (s.gone ≡ take n (sort older rows))
unfolding oldest
without-oldest-Splits n rows d = (
  record {
    gone = front;
    whole = Permᴰ.trans split (Permᴰ.append_left front (Permᴰ.symm same));
    oldest_gone = before;
  },
  refl,
)
  where
    sorted : List Row
    sorted = sort older rows

    front : List Row
    front = take n sorted

    back : List Row
    back = drop n sorted

    kept : List Row → List Row
    kept = without (map (λ (q : Row). q.id) front)

    parts : front ++ back ≡ sorted
    parts = take-append-drop n sorted

    split : Permᴰ rows (front ++ back)
    split = subst (λ l. Permᴰ rows l) (sym parts) (sort-perm older rows)

    same : Permᴰ (kept rows) back
    same =
        subst (λ l. Permᴰ (kept rows) l)
          (without-front front back (Distinct-perm (Permᴰ.map (λ (q : Row). q.id) split) d))
          (keep_if-perm (λ r. not (is_in (map (λ (q : Row). q.id) front) r.id)) split)

    before : All (λ r. All (λ k. older r k ≡ true) (kept rows)) front
    before =
        All-imp front (λ r h. All-perm (λ k. older r k ≡ true) (Permᴰ.symm same) h)
          (IsSorted-append older front back (
            subst (λ l. IsSorted older l) (sym parts)
              (sort-IsSorted older older_total older_trans rows)))

-- Deleting what is older than the cutoff.
pub young-Splits : (cutoff : ℤ) (rows : List Row) → Splits rows (keep_if (is_young cutoff) rows)
young-Splits cutoff rows = record {
  gone = old;
  whole = Permᴰ.trans (partition-perm (is_young cutoff) rows) (Permᴰ.append_comm young old);
  oldest_gone =
      All-imp old (λ r h. All-imp young (λ k y. old_before_young r k h y) are_young) are_old;
}
  where
    young : List Row
    young = keep_if (is_young cutoff) rows

    old : List Row
    old = keep_if (λ r. not (is_young cutoff r)) rows

    are_young : All (λ r. is_young cutoff r ≡ true) young
    are_young = keep_if-holds (is_young cutoff) rows

    are_old : All (λ r. not (is_young cutoff r) ≡ true) old
    are_old = keep_if-holds (λ r. not (is_young cutoff r)) rows

    old_before_young :
        (r k : Row) → not (is_young cutoff r) ≡ true → is_young cutoff k ≡ true → older r k ≡ true
    old_before_young r k h y = ground arith
