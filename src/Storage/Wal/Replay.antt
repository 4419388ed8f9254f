-- ===== src/Storage/Wal/Replay.antt =====
-- The log of wal.rs as a list of operations: what a replay of its file gives.
use otters.Base.{ℕ, ◌+◌, ◌%◌, ◌^◌, String, ◌≡◌, ◌≢◌, refl, some, List, [], ◌∷◌, ◌++◌, ne→eq_false}
use otters.Base.Lists.{All}
use otters.Base.Text.{◌<>◌, IsLine, lines, unlines, lines-unlines, unlines-append}
use otters.Base.Result.{Result, ok, err}
use otters.Core.Operation.{Operation}
use text.Mathlib.TextLemmas.{append-nil}
use otters.Storage.Wal.{
  Wal, WalEntry, WalError, Codec, WriteOutcome, written, torn, unsynced, write_line, append_line,
  append, replay_lines, replay,
}

-- What `serde_json` documents of its compact texts: they parse back, and hold no line break.
pub record IsFaithful (codec : Codec) : Type 0 where
  pub parses :
      (e : WalEntry) (line : String) → codec.to_string e ≡ ok line → codec.from_str line ≡ ok e
  pub one_line : (e : WalEntry) (line : String) → codec.to_string e ≡ ok line → IsLine line
  pub not_empty : (e : WalEntry) (line : String) → codec.to_string e ≡ ok line → line ≢ ""

module _ (codec : Codec) where
  -- The line is an entry for the operation.
  pub record Encodes (line : String) (op : Operation) : Type 0 where
    pub seq : ℕ
    pub parses : codec.from_str line ≡ ok (record { seq = seq; op = op })
    pub one_line : IsLine line
    pub not_empty : line ≢ ""

  abbrev pub EncodesAll : List String → List Operation → Type 0
  EncodesAll [] [] = Unit
  EncodesAll [] (op ∷ ops) = ⊥
  EncodesAll (l ∷ ls) [] = ⊥
  EncodesAll (l ∷ ls) (op ∷ ops) = Encodes l op × EncodesAll ls ops

  -- The file holds exactly these operations, in this order, a line for each.
  pub record IsLog (file : String) (ops : List Operation) : Type 0 where
    pub file_lines : List String
    pub is_file : file ≡ unlines file_lines
    pub encoded : EncodesAll file_lines ops

  pub EncodesAll-IsLine :
      (ls : List String) (ops : List Operation) → EncodesAll ls ops → All IsLine ls
  EncodesAll-IsLine [] ops h = tt
  EncodesAll-IsLine (l ∷ ls) [] h = absurd h
  EncodesAll-IsLine (l ∷ ls) (op ∷ ops) h = (h.0.one_line, EncodesAll-IsLine ls ops h.1)

  EncodesAll-append :
      (ls : List String) (ops : List Operation) (l : String) (op : Operation)
      → EncodesAll ls ops
      → Encodes l op
      → EncodesAll (ls ++ l ∷ []) (ops ++ op ∷ [])
  EncodesAll-append [] [] l op h e = (e, tt)
  EncodesAll-append [] (o ∷ ops) l op h e = absurd h
  EncodesAll-append (k ∷ ls) [] l op h e = absurd h
  EncodesAll-append (k ∷ ls) (o ∷ ops) l op h e = (h.0, EncodesAll-append ls ops l op h.1 e)

  replay_lines-EncodesAll :
      (ls : List String) (ops : List Operation) → EncodesAll ls ops → replay_lines codec ls ≡ ok ops
  unfolding replay_lines
  replay_lines-EncodesAll [] [] h = refl
  replay_lines-EncodesAll [] (op ∷ ops) h = absurd h
  replay_lines-EncodesAll (l ∷ ls) [] h = absurd h
  replay_lines-EncodesAll (l ∷ ls) (op ∷ ops) h =
      rw (ne→eq_false l "" h.0.not_empty, h.0.parses, replay_lines-EncodesAll ls ops h.1)

  pub replay-IsLog :
      (file : String) (ops : List Operation) → IsLog file ops → replay codec (some file) ≡ ok ops
  unfolding replay
  replay-IsLog file ops h =
      rw (h.is_file, lines-unlines h.file_lines (EncodesAll-IsLine _ _ h.encoded))
        (replay_lines-EncodesAll h.file_lines ops h.encoded)

  pub IsLog-empty : IsLog "" []
  IsLog-empty = record { file_lines = []; is_file = refl; encoded = tt }

  -- One line more is one operation more.
  pub IsLog-writeln :
      (file line : String) (ops : List Operation) (op : Operation)
      → IsLog file ops
      → Encodes line op
      → IsLog (file <> line <> "\n") (ops ++ op ∷ [])
  IsLog-writeln file line ops op h e = record {
    file_lines = h.file_lines ++ line ∷ [];
    is_file = rw h.is_file (unlines-append h.file_lines line);
    encoded = EncodesAll-append h.file_lines ops line op h.encoded e;
  }

  pub lines-IsLog :
      (file : String) (ops : List Operation) (h : IsLog file ops) → lines file ≡ h.file_lines
  lines-IsLog file ops h =
      rw h.is_file (lines-unlines h.file_lines (EncodesAll-IsLine _ _ h.encoded))

-- A write that fails leaves nothing in the file: it is not torn, and it fails before the sync.
abbrev pub IsAtomic : WriteOutcome → Type 0
IsAtomic written = Unit
IsAtomic (torn reached error) = reached ≡ ""
IsAtomic (unsynced error) = ⊥

-- The operations of the file after an append, by what it returned.
abbrev pub LogAfter : Codec → Result WalError ℕ → String → List Operation → Operation → Type 0
LogAfter codec (ok seq) file ops op = IsLog codec file (ops ++ op ∷ [])
LogAfter codec (err e) file ops op = IsLog codec file ops

module _ {codec : Codec} (faithful : IsFaithful codec) where
  pub entry-Encodes :
      (seq : ℕ) (op : Operation) (line : String)
      → codec.to_string (record { seq = seq; op = op }) ≡ ok line
      → Encodes codec line op
  entry-Encodes seq op line e = record {
    seq = seq;
    parses = faithful.parses _ line e;
    one_line = faithful.one_line _ line e;
    not_empty = faithful.not_empty _ line e;
  }

  write_line-LogAfter :
      (outcome : WriteOutcome) (seq : ℕ) (line : String) (op : Operation) (w : Wal)
      (ops : List Operation)
      → IsAtomic outcome
      → Encodes codec line op
      → IsLog codec w.file ops
      → LogAfter codec
          (write_line seq line outcome w).0
          (write_line seq line outcome w).1.file
          ops
          op
  unfolding write_line
  write_line-LogAfter written seq line op w ops a e h = IsLog-writeln codec w.file line ops op h e
  write_line-LogAfter (torn reached error) seq line op w ops a e h = rw a (rw append-nil h)
  write_line-LogAfter (unsynced error) seq line op w ops a e h = absurd a

  append_line-LogAfter :
      (r : Result String String) (outcome : WriteOutcome) (seq : ℕ) (op : Operation) (w : Wal)
      (ops : List Operation)
      → codec.to_string (record { seq = seq; op = op }) ≡ r
      → IsAtomic outcome
      → IsLog codec w.file ops
      → LogAfter codec
          (append_line codec seq r outcome w).0
          (append_line codec seq r outcome w).1.file
          ops
          op
  unfolding append_line
  append_line-LogAfter (err e) outcome seq op w ops p a h = h
  append_line-LogAfter (ok line) outcome seq op w ops p a h =
      write_line-LogAfter outcome seq line op w ops a (entry-Encodes seq op line p) h

  -- With JSON that parses back and a write that is atomic, to a file that holds a line for each of
  -- some operations, an append that succeeds adds the operation behind those of the
  -- file, and one that fails leaves them as they were.
  pub append-LogAfter :
      (outcome : WriteOutcome) (op : Operation) (w : Wal) (ops : List Operation)
      → IsAtomic outcome
      → IsLog codec w.file ops
      → LogAfter codec (append codec outcome op w).0 (append codec outcome op w).1.file ops op
  unfolding append
  append-LogAfter outcome op w ops a h =
      append_line-LogAfter _ outcome ((w.sequence + 1) % 2 ^ 64) op w ops refl a h
