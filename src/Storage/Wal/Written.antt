-- ===== src/Storage/Wal/Written.antt =====
-- An append of wal.rs that reaches the disk.
use otters.Base.{◌+◌, ◌%◌, ◌^◌, String, ◌≡◌, refl}
use otters.Base.Result.{ok}
use otters.Core.Operation.{Operation}
use otters.Storage.Wal.{Wal, WalEntry, Codec, written, write_line, append_line, append}

-- It returns the next number.
pub append_written :
    (codec : Codec) (op : Operation) (w : Wal)
    → ((e : WalEntry) → (line : String) × (codec.to_string e ≡ ok line))
    → (append codec written op w).0 ≡ ok ((w.sequence + 1) % 2 ^ 64)
unfolding append append_line write_line
append_written codec op w encodes =
    let (line, e) = encodes (record { seq = (w.sequence + 1) % 2 ^ 64; op = op }) in rw e refl
