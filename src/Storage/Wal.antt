-- ===== src/Storage/Wal.antt =====
-- wal.rs of crates/storage. The log is the text of its file; JSON and the disk are parameters.
pub mod Replay
pub mod Written
pub mod Torn
pub mod Sequence
pub mod Repeats
use otters.Base.{
  ℕ, suc, ◌+◌, ◌%◌, ◌^◌, String, Bool, Option, none, some, List, [], ◌∷◌, ◌==◌, ◌≡◌, if◌then◌else◌,
}
use otters.Base.Lists.{length}
use otters.Base.Text.{◌<>◌, lines}
use otters.Base.Result.{Result, ok, err, ◌>>=◌}
use otters.Base.Exec.{Exec}
use otters.Core.Operation.{Operation}

pub data WalError : Type 0 where
  io : String → WalError
  json : String → WalError

pub record WalEntry : Type 0 where
  pub seq : ℕ
  pub op : Operation

-- `serde_json::to_string` and `serde_json::from_str` at `WalEntry`.
pub record Codec : Type 0 where
  pub to_string : WalEntry → Result String String
  pub from_str : String → Result String WalEntry

-- What the disk makes of `writeln!` and `sync_all`.
pub data WriteOutcome : Type 0 where
  written : WriteOutcome
  torn : (reached : String) → (error : String) → WriteOutcome
  unsynced : (error : String) → WriteOutcome

pub record Wal : Type 0 where
  pub file : String
  pub sequence : ℕ

-- The lines of a file are counted into a `u64`.
unfoldable pub open_wal : String → Wal
open_wal file = record { file = file; sequence = length (lines file) % 2 ^ 64 }

pub write_line : ℕ → String → WriteOutcome → Wal → Result WalError ℕ × Wal
write_line seq line written w = (ok seq, record w { file = w.file <> line <> "\n"; sequence = seq })
write_line seq line (torn reached error) w =
    (err (io error), record w { file = w.file <> reached; sequence = seq })
write_line seq line (unsynced error) w =
    (err (io error), record w { file = w.file <> line <> "\n"; sequence = seq })

module _ (codec : Codec) where
  pub append_line : ℕ → Result String String → WriteOutcome → Wal → Result WalError ℕ × Wal
  unfolding write_line
  append_line seq (ok line) outcome w = write_line seq line outcome w
  append_line seq (err e) outcome w = (err (json e), record w { sequence = seq })

  unfoldable pub append : WriteOutcome → Operation → Exec Wal WalError ℕ
  unfolding append_line
  append outcome op w =
      let seq = (w.sequence + 1) % 2 ^ 64 in
      append_line seq (codec.to_string (record { seq = seq; op = op })) outcome w

  parse_entry :
      Result String WalEntry → Result WalError (List Operation) → Result WalError (List Operation)
  parse_entry (err e) rest = err (json e)
  parse_entry (ok entry) (ok ops) = ok (entry.op ∷ ops)
  parse_entry (ok entry) (err e) = err e

  -- The loop over the lines, the first error first.
  unfoldable pub replay_lines : List String → Result WalError (List Operation)
  unfolding parse_entry
  replay_lines [] = ok []
  replay_lines (line ∷ rest) =
      let ops = replay_lines rest in
      if line == "" then ops else parse_entry (codec.from_str line) ops

  -- `none` is a file that is not there.
  unfoldable pub replay : Option String → Result WalError (List Operation)
  unfolding replay_lines
  replay none = ok []
  replay (some file) = replay_lines (lines file)
