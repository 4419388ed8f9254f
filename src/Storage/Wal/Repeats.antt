-- ===== src/Storage/Wal/Repeats.antt =====
-- The numbers of wal.rs behind an append that failed: the log that is open counts that append, and
-- an `open` of its file does not.
use otters.Base.{ℕ, ◌+◌, ◌%◌, ◌^◌, String, ◌≡◌, refl, sym, ap, ◌∙◌, List, [], ◌∷◌}
use otters.Base.Lists.{length, length-append}
use otters.Base.Text.{◌<>◌}
use otters.Base.Result.{Result, ok, err}
use otters.Core.Operation.{Operation}
use text.Mathlib.TextLemmas.{append-nil}
use otters.Storage.Wal.{Wal, Codec, written, torn, io, open_wal, write_line, append_line, append}
use otters.Storage.Wal.Replay.{IsFaithful, IsLog, IsLog-writeln, entry-Encodes}
use otters.Storage.Wal.Sequence.{open_wal-IsLog, wrap}

-- The number of the second append from here.
abbrev pub second_number : Wal → ℕ
second_number w = ((w.sequence + 1) % 2 ^ 64 + 1) % 2 ^ 64

module _ (codec : Codec) where
  -- An append of which nothing reaches the file counts up, be it that JSON or the disk refuses it.
  torn_nothing :
      (seq : ℕ) (r : Result String String) (error : String) (w : Wal)
      → append_line codec seq r (torn "" error) w
        ≡ ((append_line codec seq r (torn "" error) w).0, record w { sequence = seq })
  unfolding append_line write_line
  torn_nothing seq (ok line) error w =
      ap (λ f. (err (io error), record w { file = f; sequence = seq })) (append-nil w.file)
  torn_nothing seq (err e) error w = refl

  append_written :
      (op : Operation) (w : Wal) (line : String)
      → codec.to_string (record { seq = (w.sequence + 1) % 2 ^ 64; op = op }) ≡ ok line
      → append codec written op w ≡ (
        ok ((w.sequence + 1) % 2 ^ 64),
        record { file = w.file <> line <> "\n"; sequence = (w.sequence + 1) % 2 ^ 64 },
      )
  unfolding append append_line write_line
  append_written op w line e = rw e

  append_torn :
      (op : Operation) (error : String) (w : Wal)
      → (append codec (torn "" error) op w).1 ≡ record w { sequence = (w.sequence + 1) % 2 ^ 64 }
  unfolding append
  append_torn op error w = ap (λ x. x.1) (torn_nothing _ _ error w)

module _ {codec : Codec} (faithful : IsFaithful codec) where
  -- What `open` counts from the file that a successful append leaves.
  counted-append :
      (seq : ℕ) (op : Operation) (line file : String) (ops : List Operation) (n : ℕ)
      → codec.to_string (record { seq = seq; op = op }) ≡ ok line
      → IsLog codec file ops
      → (open_wal file).sequence ≡ n
      → (open_wal (file <> line <> "\n")).sequence ≡ (n + 1) % 2 ^ 64
  counted-append seq op line file ops n e h counted =
      open_wal-IsLog codec _ _
        (IsLog-writeln codec file line ops op h (entry-Encodes faithful seq op line e))
      ∙ ap (λ k. k % 2 ^ 64) (length-append ops (op ∷ []))
      ∙ wrap (length ops) n (sym (open_wal-IsLog codec file ops h) ∙ counted)

  -- Two appends, the second behind an `open` of the file that the first one leaves.
  reopened :
      (w : Wal) (kept later : Operation) (line line' : String)
      → (open_wal (w.file <> line <> "\n")).sequence ≡ w.sequence
      → codec.to_string (record { seq = (w.sequence + 1) % 2 ^ 64; op = kept }) ≡ ok line
      → codec.to_string (record { seq = (w.sequence + 1) % 2 ^ 64; op = later }) ≡ ok line'
      → ((append codec written kept w).0 ≡ ok ((w.sequence + 1) % 2 ^ 64))
        × ((append codec written later (open_wal (append codec written kept w).1.file)).0
            ≡ ok ((w.sequence + 1) % 2 ^ 64))
  reopened w kept later line line' counted e e' =
      let first = append_written codec kept w line e in
      let again = open_wal (append codec written kept w).1.file in
      let same : again.sequence ≡ w.sequence =
        ap (λ x. (open_wal x.1.file).sequence) first ∙ counted in
      (
        ap (λ x. x.0) first,
        ap (λ x. x.0)
              (append_written codec later again line' (
                ap (λ k. codec.to_string (record { seq = (k + 1) % 2 ^ 64; op = later })) same
                ∙ e'))
            ∙ ap (λ k. ok ((k + 1) % 2 ^ 64)) same,
      )

  -- With JSON that parses back, in a log whose number is the one that `open` counts from its file, a
  -- number is given twice: if an append fails and nothing of it reaches the file, then the next append
  -- that succeeds returns the same number as the first one that succeeds behind a restart.
  pub append-repeats :
      (w : Wal) (ops : List Operation) (lost kept later : Operation) (error line line' : String)
      → IsLog codec w.file ops
      → (open_wal w.file).sequence ≡ w.sequence
      → codec.to_string (record { seq = second_number w; op = kept }) ≡ ok line
      → codec.to_string (record { seq = second_number w; op = later }) ≡ ok line'
      → let failed = (append codec (torn "" error) lost w).1 in
        ((append codec written kept failed).0 ≡ ok (second_number w))
        × ((append codec written later (open_wal (append codec written kept failed).1.file)).0
            ≡ ok (second_number w))
  append-repeats w ops lost kept later error line line' h counted e e' =
      let counts = counted-append (second_number w) kept line w.file ops w.sequence e h counted in
      rw (append_torn codec lost error w) (
        reopened (record w { sequence = (w.sequence + 1) % 2 ^ 64 }) kept later line line' counts e
          e')
