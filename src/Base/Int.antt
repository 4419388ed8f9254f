-- ===== src/Base/Int.antt =====
-- Exit codes (`i32`) and their decimal text.
use Prim.Native.Nat.{ℕ, zero, suc, ◌+◌, ◌/◌, ◌%◌}
use Prim.Native.String.{String}
use mathlib.Core.Bool.{Bool, false}
use mathlib.Core.List.{List, [], ◌∷◌}
use otters.Base.Tests.{if◌then◌else◌, eqb, ltb}
use otters.Base.Lists.{get_elem?}
use otters.Base.Text.{◌<>◌}
use mathlib.Core.Option.{none, some}

-- `negsuc n` is -(n + 1).
pub data ℤ : Type 0 where
  pos : ℕ → ℤ
  negsuc : ℕ → ℤ

-- `code == 0`
abbrev pub is_zero : ℤ → Bool
is_zero (pos n) = eqb n 0
is_zero (negsuc n) = false

abbrev digits : List String
digits = "0" ∷ "1" ∷ "2" ∷ "3" ∷ "4" ∷ "5" ∷ "6" ∷ "7" ∷ "8" ∷ "9" ∷ []

digit : ℕ → String
digit d = elim (get_elem? digits d) [ none ↦ "" | some s ↦ s ]

show_digits : ℕ → ℕ → String
unfolding digit
show_digits zero n = ""
show_digits (suc f) n =
    let front = show_digits f (n / 10) in if ltb n 10 then digit n else front <> digit (n % 10)

-- `format!("{}", n)`: a number has at most n + 1 digits.
unfoldable pub show_ℕ : ℕ → String
unfolding show_digits
show_ℕ n = show_digits (suc n) n

unfoldable pub show_ℤ : ℤ → String
unfolding show_ℕ
show_ℤ (pos n) = show_ℕ n
show_ℤ (negsuc n) = "-" <> show_ℕ (n + 1)
