-- ===== src/Time.antt =====
-- `time.UnixMilli(ms).UTC().Format("2006-01-02T15:04:05.000Z")`, which internal/export/export.go and
-- internal/forward/format.go share, and the reading of a `time.Time` in milliseconds. An instant is
-- the number of nanoseconds since Go's zero time, 0001-01-01T00:00:00Z.
use hannah_logcollector.Prelude.{
  ℕ, suc, ◌+◌, ◌-◌, ◌*◌, ◌/◌, ◌%◌, ◌≡◌, inl, refl, [], ◌∷◌, ◌++◌, leb, if◌then◌else◌, ℤ, pos,
  negsuc, pos_part, neg_part, sub_ℕ, ◌-ℤ◌, div_ℤ, mod_ℤ, length, replicate, All-append, arith, zero,
  ◌<◌, eq_ℤ, false, length-append,
}
use hannah_logcollector.Text.{Bytes, codes}
use hannah_logcollector.Text.Decimal.{itoa, itoa-Lacks}
use hannah_logcollector.Text.Laws.{Lacks}

-- A proleptic Gregorian date; the year counts from 400-year eras, `eras` of them before year 0.
pub record Date : Type 0 where
  pub year : ℕ
  pub month : ℕ
  pub day : ℕ

-- Eras of 400 years that lie between the earliest instant of an int64 of milliseconds and year 0.
abbrev pub eras : ℕ
eras = 730693

-- The date of a day counted from 1 March of a year divisible by 400.
unfoldable pub date_of : ℕ → Date
date_of z =
    let doe = z % 146097 in
    let yoe = (doe - doe / 1460 + doe / 36524 - doe / 146096) / 365 in
    let doy = doe - (365 * yoe + yoe / 4 - yoe / 100) in
    let mp = (5 * doy + 2) / 153 in
    let month = if leb mp 9 then mp + 3 else mp - 9 in
    record {
      year = yoe + z / 146097 * 400 + (if leb month 2 then 1 else 0);
      month = month;
      day = doy - (153 * mp + 2) / 5 + 1;
    }

-- A number with leading zeros.
abbrev pub pad : ℕ → ℕ → Bytes
pad width n = replicate (width - length (itoa n)) b'0' ++ itoa n

unfoldable pub print_year : ℤ → Bytes
print_year (pos y) = pad 4 y
print_year (negsuc y) = b'-' ∷ pad 4 (suc y)

-- `formatMs` of export.go and the timestamp of `Format` in format.go.
unfoldable pub format_ms : ℤ → Bytes
format_ms ms =
    let secs = div_ℤ ms 1000 in
    let tod = mod_ℤ secs 86400 in
    let days = div_ℤ secs 86400 in
    let date = date_of (719468 + 146097 * eras + pos_part days - neg_part days) in
    print_year (sub_ℕ date.year (400 * eras))
    ++ b'-'
      ∷ (pad 2 date.month
          ++ b'-'
            ∷ (pad 2 date.day
                ++ b'T'
                  ∷ (pad 2 (tod / 3600)
                      ++ b':'
                        ∷ (pad 2 (tod / 60 % 60)
                            ++ b':'
                              ∷ (pad 2 (tod % 60)
                                  ++ b'.' ∷ (pad 3 (mod_ℤ ms 1000) ++ b'Z' ∷ []))))))

-- Nanoseconds from the zero time to 1970.
abbrev epoch : ℕ
epoch = 62_135_596_800 * 1_000_000_000

-- `t.UnixMilli()`
unfoldable pub unix_milli : ℤ → ℤ
unfolding ◌-ℤ◌ div_ℤ
unix_milli t = div_ℤ (t -ℤ pos epoch) 1_000_000

samples :
    (format_ms (pos 0) ≡ codes "1970-01-01T00:00:00.000Z")
    × (format_ms (pos 1_709_210_096_789) ≡ codes "2024-02-29T12:34:56.789Z")
    × (format_ms (negsuc 0) ≡ codes "1969-12-31T23:59:59.999Z")
    × (format_ms (negsuc 9_223_372_036_854_775_807) ≡ codes "-292275055-05-16T16:47:04.192Z")
    × (format_ms (pos 9_223_372_036_854_775_807) ≡ codes "292278994-08-17T07:12:55.807Z")
unfolding format_ms print_year date_of div_ℤ mod_ℤ itoa
samples = (refl, refl, refl, refl, refl)

zeros-Lacks : (k : ℕ) → Lacks b' ' (replicate k b'0')
zeros-Lacks zero = tt
zeros-Lacks (suc k) = (omega arith, zeros-Lacks k)

pad-Lacks : (width n : ℕ) (s : Bytes) → Lacks b' ' s → Lacks b' ' (pad width n ++ s)
pad-Lacks width n s h =
    All-append _ (pad width n) s
      (All-append _ (replicate (width - length (itoa n)) b'0') (itoa n) (zeros-Lacks _)
        (itoa-Lacks b' ' n (inl (omega arith))))
      h

print_year-Lacks : (y : ℤ) (s : Bytes) → Lacks b' ' s → Lacks b' ' (print_year y ++ s)
unfolding print_year
print_year-Lacks (pos y) s h = pad-Lacks 4 y s h
print_year-Lacks (negsuc y) s h = (omega arith, pad-Lacks 4 (suc y) s h)

-- A printed time holds no space.
pub format_ms-Lacks : (ms : ℤ) → Lacks b' ' (format_ms ms)
unfolding format_ms
format_ms-Lacks ms = print_year-Lacks _ _ (
  omega arith,
  pad-Lacks 2 _ _ (
    omega arith,
    pad-Lacks 2 _ _ (
      omega arith,
      pad-Lacks 2 _ _ (
        omega arith,
        pad-Lacks 2 _ _
            (omega arith, pad-Lacks 2 _ _ (omega arith, pad-Lacks 3 _ _ (omega arith, tt))),
      ),
    ),
  ),
)

-- The instant of a number of milliseconds since 1970, from the zero time on.
abbrev pub instant : ℤ → ℤ
instant ms = pos (epoch + pos_part ms * 1_000_000 - neg_part ms * 1_000_000)

-- Milliseconds from the zero time to 1970.
abbrev pub epoch_ms : ℕ
epoch_ms = 62_135_596_800_000

pub unix_milli-instant : (ms : ℤ) → neg_part ms < epoch_ms → unix_milli (instant ms) ≡ ms
unfolding unix_milli ◌-ℤ◌ div_ℤ
unix_milli-instant (pos n) h = ground arith
unix_milli-instant (negsuc n) h = ground arith

pub instant_later : (ms : ℤ) → neg_part ms < epoch_ms → eq_ℤ (instant ms) (pos 0) ≡ false
instant_later (pos n) h = ground arith
instant_later (negsuc n) h = ground arith

two_marks : (a b : Bytes) (x y : ℕ) (rest : Bytes) → 1 < length (a ++ x ∷ (b ++ y ∷ rest))
two_marks a b x y rest =
    omega (arith, length-append a (x ∷ (b ++ y ∷ rest)), length-append b (y ∷ rest))

-- A printed time has more than one byte.
pub format_ms_long : (ms : ℤ) → 1 < length (format_ms ms)
unfolding format_ms
format_ms_long ms = two_marks _ _ _ _ _
