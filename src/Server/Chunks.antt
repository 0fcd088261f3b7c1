-- ===== src/Server/Chunks.antt =====
-- The loop at the end of `Export` in internal/server/server.go, which streams the finished archive.
pub mod Whole
use mathlib.Core.Option
use hannah_logcollector.Prelude.{
  ℕ, zero, suc, ◌+◌, ◌*◌, ◌≤◌, ◌<◌, Bool, true, false, List, [], ◌∷◌, Option, none, some, take,
  drop,
}
use hannah_logcollector.Text.{Bytes}

abbrev pub export_chunk_size : ℕ
export_chunk_size = 256 * 1024

-- What is up to the file system and to the stream: how many bytes the k-th `Read` has for the
-- buffer, and whether that `Read` fails, or the `Send` behind it.
pub record Channel : Type 0 where
  pub size : ℕ → ℕ
  pub read_fails : ℕ → Bool
  pub send_fails : ℕ → Bool

-- A `Read` of a file that is not at its end has at least one byte, and at most those of the buffer.
pub record IsChannel (ch : Channel) : Type 0 where
  pub size_pos : (k : ℕ) → 0 < ch.size k
  pub size_fits : (k : ℕ) → ch.size k ≤ export_chunk_size

-- How the loop ends: at io.EOF, with the status of a failed `Read`, or with the error of `Send`.
pub data End : Type 0 where
  complete : End
  read_failed : End
  send_failed : End

-- The chunks that were sent, and how the loop ended.
pub record Streamed : Type 0 where
  pub sent : List Bytes
  pub ended : End

abbrev pub then_sent : Bytes → Streamed → Streamed
then_sent c out = record out { sent = c ∷ out.sent }

module _ (ch : Channel) where
  -- The loop, with `rest` of the archive to be read and fuel for its rounds.
  unfoldable pub stream_archive : ℕ → ℕ → Bytes → Option Streamed
  stream_archive zero k rest = none
  stream_archive (suc fuel) k rest = elim (ch.read_fails k) [
    | true ↦ some (record { sent = []; ended = read_failed })
    | false ↦ elim rest [
      | [] ↦ some (record { sent = []; ended = complete })
      | b ∷ bs ↦ elim (ch.send_fails k) [
        | true ↦ some (record { sent = []; ended = send_failed })
        | false ↦
            Option.map (then_sent (take (ch.size k) (b ∷ bs)))
              (stream_archive fuel (k + 1) (drop (ch.size k) (b ∷ bs)))
      ]
    ]
  ]
