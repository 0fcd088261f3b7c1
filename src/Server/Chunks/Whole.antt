-- ===== src/Server/Chunks/Whole.antt =====
-- What arrives of an archive.
use mathlib.Core.List.{flatten}
use mathlib.Core.Option
use hannah_logcollector.Prelude.{
  ℕ, zero, suc, ◌+◌, ◌≤◌, ◌<◌, ◌≡◌, ◌≢◌, ◌⊎◌, inl, inr, refl, ◌∙◌, ap, [], ◌∷◌, ◌++◌, Option, some,
  append_assoc, take, drop, take-append-drop, length, length-take, length-drop, All, Bool-cases,
  arith,
}
use hannah_logcollector.Text.{Bytes}
use hannah_logcollector.Server.Chunks.{
  export_chunk_size, Channel, IsChannel, End, complete, read_failed, send_failed, Streamed,
  then_sent, stream_archive,
}

-- A message is not empty and keeps the size.
abbrev pub IsChunk : Bytes → Type 0
IsChunk c = (0 < length c) × (length c ≤ export_chunk_size)

-- What was sent is the archive, or a front of it if the loop broke off.
pub record Delivers (archive : Bytes) (out : Streamed) : Type 0 where
  pub chunks : All IsChunk out.sent
  pub missing : Bytes
  pub in_order : flatten out.sent ++ missing ≡ archive
  pub whole : (missing ≡ []) ⊎ (out.ended ≢ complete)

module _ (ch : Channel) (h : IsChannel ch) where
  take-IsChunk : (k : ℕ) (b : ℕ) (bs : Bytes) → IsChunk (take (ch.size k) (b ∷ bs))
  take-IsChunk k b bs =
      let pos = h.size_pos k in
      let fits = h.size_fits k in
      let count = length-take (ch.size k) (b ∷ bs) in omega (arith, pos, fits, count)

  then_sent-Delivers :
      (k b : ℕ) (bs : Bytes) (out : Streamed)
      → Delivers (drop (ch.size k) (b ∷ bs)) out
      → Delivers (b ∷ bs) (then_sent (take (ch.size k) (b ∷ bs)) out)
  then_sent-Delivers k b bs out d = record {
    chunks = (take-IsChunk k b bs, d.chunks);
    missing = d.missing;
    in_order =
        unfold flatten in
        (append_assoc (take (ch.size k) (b ∷ bs)) (flatten out.sent) d.missing
          ∙ ap (λ t. take (ch.size k) (b ∷ bs) ++ t) d.in_order
          ∙ take-append-drop (ch.size k) (b ∷ bs));
    whole = d.whole;
  }

  sent_on :
      (k b : ℕ) (bs : Bytes) (more : Option Streamed)
      → ((out : Streamed) × (more ≡ some out) × Delivers (drop (ch.size k) (b ∷ bs)) out)
      → (out : Streamed) × (Option.map (then_sent (take (ch.size k) (b ∷ bs))) more ≡ some out)
        × Delivers (b ∷ bs) out
  sent_on k b bs more (out, found, d) =
      (then_sent (take (ch.size k) (b ∷ bs)) out, rw found refl, then_sent-Delivers k b bs out d)

  broken_off :
      (archive : Bytes) (end : End)
      → end ≢ complete
      → Delivers archive (record { sent = []; ended = end })
  broken_off archive end h = record {
    chunks = tt;
    missing = archive;
    in_order = unfold flatten in refl;
    whole = inr h;
  }

  -- The loop ends after at most one round more than the archive has bytes. What was sent are
  -- messages of 1 byte to 256 KiB, which together are a front of the archive; if the loop reached
  -- its end, they are all of it.
  pub stream_archive-Delivers :
      (fuel k : ℕ) (archive : Bytes)
      → length archive < fuel
      → (out : Streamed) × (stream_archive ch fuel k archive ≡ some out) × Delivers archive out
  unfolding stream_archive
  stream_archive-Delivers zero k archive e = absurd (omega arith)
  stream_archive-Delivers (suc fuel) k [] e = elim (Bool-cases (ch.read_fails k)) [
    | inl broken ↦
        rw (broken, stream_archive) (_, refl, broken_off [] read_failed (λ q. ground arith))
    | inr fine ↦
        rw (fine, stream_archive)
          (
            _,
            refl,
            record {
              chunks = tt;
              missing = [];
              in_order = unfold flatten in refl;
              whole = inl refl;
            },
          )
  ]
  stream_archive-Delivers (suc fuel) k (b ∷ bs) e = elim (Bool-cases (ch.read_fails k)) [
    | inl broken ↦
        rw (broken, stream_archive) (_, refl, broken_off (b ∷ bs) read_failed (λ q. ground arith))
    | inr fine ↦
        rw (fine, stream_archive)
          (elim (Bool-cases (ch.send_fails k)) [
            | inl lost ↦ rw lost (_, refl, broken_off (b ∷ bs) send_failed (λ q. ground arith))
            | inr sent ↦ rw sent (
                sent_on k b bs _ (
                  stream_archive-Delivers fuel (k + 1) (drop (ch.size k) (b ∷ bs))
                    (omega (arith, h.size_pos k, length-drop (ch.size k) (b ∷ bs)))))
          ])
  ]
