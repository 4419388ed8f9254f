-- ===== src/Storage/Wal/Torn.antt =====
-- What wal.rs makes of a write that fails half way, or that fails to be synced.

use otters.Base.{◌+◌, ◌%◌, ◌^◌, String, ◌≡◌, refl, ◌≢◌, some, List, [], ◌∷◌, ◌++◌, ne→eq_false}
use otters.Base.Text.{◌<>◌, IsLine, lines-rest}
use otters.Base.Result.{ok, err}
use otters.Core.Operation.{Operation}
use otters.Storage.Wal.{
  Wal, Codec, json, io, unsynced, write_line, append_line, append, replay_lines, replay,
}
use otters.Storage.Wal.Replay.{
  IsFaithful, IsLog, IsLog-writeln, replay-IsLog, entry-Encodes, EncodesAll, EncodesAll-IsLine,
}

module _ (codec : Codec) where
  replay_lines-behind :
      (ls : List String) (ops : List Operation) (last e : String)
      → EncodesAll codec ls ops
      → last ≢ ""
      → codec.from_str last ≡ err e
      → replay_lines codec (ls ++ last ∷ []) ≡ err (json e)
  unfolding replay_lines
  replay_lines-behind [] ops last e h full bad = rw (ne→eq_false last "" full, bad)
  replay_lines-behind (l ∷ ls) [] last e h full bad = absurd h
  replay_lines-behind (l ∷ ls) (op ∷ ops) last e h full bad =
      rw
        (ne→eq_false l "" h.0.not_empty, h.0.parses, replay_lines-behind ls ops last e h.1 full bad)

  -- A log that ends in a part of a line, which is not empty and which JSON refuses, does not replay,
  -- whatever the operations before that line: the replay fails with the JSON error.
  pub replay-torn :
      (file reached e : String) (ops : List Operation)
      → IsLog codec file ops
      → IsLine reached
      → reached ≢ ""
      → codec.from_str reached ≡ err e
      → replay codec (some (file <> reached)) ≡ err (json e)
  unfolding replay
  replay-torn file reached e ops h line full bad =
      rw
        (
          h.is_file,
          lines-rest h.file_lines reached (EncodesAll-IsLine codec _ _ h.encoded) line full,
        )
        (replay_lines-behind h.file_lines ops reached e h.encoded full bad)

-- With JSON that parses back, an append whose line reaches the file but not `sync_all` returns the
-- error, and yet a replay of the file will give the operation, behind those that were there.
pub append-unsynced :
    {codec : Codec} (faithful : IsFaithful codec) (error line : String) (op : Operation) (w : Wal)
    (ops : List Operation)
    → codec.to_string (record { seq = (w.sequence + 1) % 2 ^ 64; op = op }) ≡ ok line
    → IsLog codec w.file ops
    → let (r, w') = append codec (unsynced error) op w in
      (r ≡ err (io error)) × (replay codec (some w'.file) ≡ ok (ops ++ op ∷ []))
unfolding append append_line write_line
append-unsynced {codec} faithful error line op w ops e h = rw e (
  refl,
  replay-IsLog codec _ _ (
      IsLog-writeln codec w.file line ops op h
        (entry-Encodes faithful ((w.sequence + 1) % 2 ^ 64) op line e)),
)
