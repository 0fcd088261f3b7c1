-- ===== src/Export/Line/Safe.antt =====
-- The names of the files in the archive.
use hannah_logcollector.Prelude.{
  ◌≡◌, refl, Bool, true, false, [], ◌∷◌, if◌then◌else◌, All, All-append, Bool-cases, inl, inr,
}
use hannah_logcollector.Text.{Bytes, codes}
use hannah_logcollector.Export.Line.{is_safe, replace_unsafe, suffix_for, file_name}

abbrev pub AllSafe : Bytes → Type 0
AllSafe = All (λ c. is_safe c ≡ true)

replace_unsafe-AllSafe : (run : Bool) (s : Bytes) → AllSafe (replace_unsafe run s)
unfolding replace_unsafe
replace_unsafe-AllSafe run [] = tt
replace_unsafe-AllSafe run (c ∷ s) = elim (Bool-cases (is_safe c)) [
  | inl e ↦ rw e (e, replace_unsafe-AllSafe false s)
  | inr e ↦ rw e (chosen run (replace_unsafe true s) (replace_unsafe-AllSafe true s))
]
  where
    chosen :
        (run : Bool) (rest : Bytes) → AllSafe rest → AllSafe (if run then rest else b'_' ∷ rest)
    chosen true rest h = h
    chosen false rest h = (refl, h)

suffix_for-AllSafe : (i : Bytes) → AllSafe (suffix_for i)
suffix_for-AllSafe [] = tt
suffix_for-AllSafe (c ∷ i) = (refl, replace_unsafe-AllSafe false (c ∷ i))

-- Whatever bytes the names of a source hold, the name of its file has none but the letters and
-- digits of ASCII, dots, underscores and dashes.
pub file_name-AllSafe :
    (component instance_name : Bytes) → AllSafe (file_name component instance_name)
unfolding file_name
file_name-AllSafe c i = All-append _ (replace_unsafe false c) _ (replace_unsafe-AllSafe false c) (
    All-append _ (suffix_for i) (codes ".log") (suffix_for-AllSafe i)
      (refl, (refl, (refl, (refl, tt)))))
