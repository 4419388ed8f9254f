-- ===== src/Storage/Wal/Sequence.antt =====
-- The numbers of the entries of wal.rs: `open` counts the lines of the file, `append` goes on.
use otters.Base.{ℕ, suc, ◌+◌, ◌%◌, ◌^◌, String, ◌≡◌, refl, sym, ap, ◌∙◌, List, [], ◌∷◌, arith}
use otters.Base.Lists.{length, length-append}
use otters.Base.Result.{ok}
use otters.Core.Operation.{Operation}
use otters.Storage.Wal.{Wal, Codec, written, open_wal, write_line, append_line, append}
use otters.Storage.Wal.Replay.{
  IsFaithful, IsLog, IsLog-writeln, EncodesAll, entry-Encodes, lines-IsLog,
}

module _ (codec : Codec) where
  length-EncodesAll :
      (ls : List String) (ops : List Operation) → EncodesAll codec ls ops → length ls ≡ length ops
  length-EncodesAll [] [] h = refl
  length-EncodesAll [] (op ∷ ops) h = absurd h
  length-EncodesAll (l ∷ ls) [] h = absurd h
  length-EncodesAll (l ∷ ls) (op ∷ ops) h = ap suc (length-EncodesAll ls ops h.1)

  pub open_wal-IsLog :
      (file : String) (ops : List Operation)
      → IsLog codec file ops
      → (open_wal file).sequence ≡ length ops % 2 ^ 64
  unfolding open_wal
  open_wal-IsLog file ops h =
      ap (λ ls. length ls % 2 ^ 64) (lines-IsLog codec file ops h)
      ∙ ap (λ n. n % 2 ^ 64) (length-EncodesAll h.file_lines ops h.encoded)

pub wrap : (n s : ℕ) → n % 2 ^ 64 ≡ s → (n + 1) % 2 ^ 64 ≡ (s + 1) % 2 ^ 64
wrap n s h = omega (arith, h)

-- With JSON that parses back, an append that reaches the disk, to a log whose number is the one that
-- `open` counts from its file, returns the next number, and `open` counts that one from the new file.
pub append-sequence :
    {codec : Codec} (faithful : IsFaithful codec) (line : String) (op : Operation) (w : Wal)
    (ops : List Operation)
    → codec.to_string (record { seq = (w.sequence + 1) % 2 ^ 64; op = op }) ≡ ok line
    → IsLog codec w.file ops
    → (open_wal w.file).sequence ≡ w.sequence
    → let (r, w') = append codec written op w in
      (r ≡ ok ((w.sequence + 1) % 2 ^ 64))
      × (w'.sequence ≡ (w.sequence + 1) % 2 ^ 64)
      × ((open_wal w'.file).sequence ≡ w'.sequence)
unfolding append append_line write_line
append-sequence {codec} faithful line op w ops e h counted =
    let n = length ops in
    let log' =
      IsLog-writeln codec w.file line ops op h
        (entry-Encodes faithful ((w.sequence + 1) % 2 ^ 64) op line e) in
    rw e (
      refl,
      refl,
      open_wal-IsLog codec _ _ log'
          ∙ ap (λ k. k % 2 ^ 64) (length-append ops (op ∷ []))
          ∙ wrap n w.sequence (sym (open_wal-IsLog codec w.file ops h) ∙ counted),
    )
