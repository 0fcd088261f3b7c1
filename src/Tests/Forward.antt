-- ===== src/Tests/Forward.antt =====
-- The forwarder's queue and its messages on sample inputs.
use mathlib.Core.List.{Sublistᴰ, flatten}
use hannah_logcollector.Prelude.{
  ℕ, ◌+◌, ◌-◌, ◌≤◌, ◌<◌, ◌≡◌, ◌≢◌, refl, ◌⊎◌, true, false, List, [], ◌∷◌, ◌++◌, map, some, arith,
  All, length, take, div_ℤ, mod_ℤ,
}
use hannah_logcollector.Text.{codes, trim_breaks, trim_prefix}
use hannah_logcollector.Text.Utf8.{rune_width}
use hannah_logcollector.Time.{format_ms, print_year, date_of}
use hannah_logcollector.Text.Decimal.{itoa}
use hannah_logcollector.Forward.Queue.{Ring, zero_entry, offer, take_batch, report_drops}
use hannah_logcollector.Forward.Queue.Inv.{IsValid}
use hannah_logcollector.Forward.Queue.Refine.{contents, offer_to, offer_refines, take_batch_refines}
use hannah_logcollector.Forward.Queue.History.{
  Call, offering, taking, reporting, offered, run, run_keeps_order, run_counts,
}
use hannah_logcollector.Forward.Format.{
  frame, name_field, text, format, structured_data, severity, escape_param, max_text, truncated,
}
use hannah_logcollector.Forward.Format.Bounds.{IsPrintable, CutsAt, name_field_lem, text_lem}
use hannah_logcollector.Forward.Format.Framing.{unframe, unframe-frame}
use hannah_logcollector.Tests.Samples.{proto, satellite, warning}

-- A full ring of two whose oldest entry stands at its end.
abbrev full : Ring
full = record {
  ring = warning ∷ zero_entry ∷ [];
  head = 1;
  n = 2;
  dropped = 0;
  notify = false;
  last_drop = 0;
}

full-IsValid : IsValid full
full-IsValid = omega arith

offer_refines_example :
    (contents (offer full zero_entry) ≡ offer_to 2 (contents full) zero_entry)
    × ((offer full zero_entry).dropped ≡ 1)
    × ((offer full zero_entry).notify ≡ true)
offer_refines_example = offer_refines full zero_entry full-IsValid

take_batch_refines_example :
    (contents full ≡ (take_batch full 1).0 ++ contents (take_batch full 1).1)
    × (length (take_batch full 1).0 ≡ 1)
    × ((take_batch full 1).1.dropped ≡ 0)
take_batch_refines_example = take_batch_refines full 1 full-IsValid

abbrev calls : List Call
calls =
    offering warning
    ∷ taking 1
    ∷ reporting 100_000_000_000 100_000_000_001
    ∷ offering zero_entry
    ∷ []

run-full : ((run calls full).taken ≡ warning ∷ []) × ((run calls full).reported ≡ 1)
unfolding run offer take_batch report_drops
run-full = (refl, refl)

run_keeps_order_example :
    Sublistᴰ
      ((run calls full).taken ++ contents (run calls full).final)
      (contents full ++ offered calls)
run_keeps_order_example = run_keeps_order calls full full-IsValid

run_counts_example :
    length (run calls full).taken
      + (run calls full).final.n
      + ((run calls full).reported + (run calls full).final.dropped)
    ≡ 4
run_counts_example = run_counts calls full full-IsValid (omega arith)

name_field_lem_example :
    (name_field (codes "esp 1") 4 ≢ [])
    × All IsPrintable (name_field (codes "esp 1") 4)
    × (length (name_field (codes "esp 1") 4) ≤ 4)
name_field_lem_example = name_field_lem (codes "esp 1") 4 (omega arith)

text_lem_example :
    (length (text (codes "ok\n")) ≤ max_text)
    × ((length (trim_breaks (codes "ok\n")) ≤ max_text)
          × (text (codes "ok\n") ≡ trim_breaks (codes "ok\n"))
        ⊎ (max_text < length (trim_breaks (codes "ok\n")))
          × ((k : ℕ) × (text (codes "ok\n") ≡ take k (trim_breaks (codes "ok\n")) ++ truncated)
              × CutsAt (trim_breaks (codes "ok\n")) (max_text - 3) k))
text_lem_example = text_lem (codes "ok\n")

unframe-frame_example :
    unframe 2 (flatten (map frame (codes "a 1\n" ∷ codes "9 b" ∷ [])))
    ≡ some (codes "a 1\n" ∷ codes "9 b" ∷ [])
unframe-frame_example = unframe-frame (codes "a 1\n" ∷ codes "9 b" ∷ []) 2 (omega arith)

-- 0xc3 0xa4 is one character, 0xff none.
names :
    (name_field (b'a' ∷ 0xc3 ∷ 0xa4 ∷ 0xff ∷ b'b' ∷ []) 255 ≡ codes "a__b")
    × (name_field [] 255 ≡ codes "-")
unfolding name_field rune_width
names = (refl, refl)

printed :
    format proto warning satellite (codes "Test01")
    ≡ codes
        "<132>1 2024-02-29T12:34:56.789Z esp_1 hannah-esp - - [hannah@32473 category=\"GENERAL\" logger=\"a\\\"\\]\\\\\" name=\"Test01\"] low battery"
unfolding format name_field structured_data severity text trim_breaks trim_prefix escape_param itoa
    format_ms print_year date_of div_ℤ mod_ℤ rune_width
printed = refl
