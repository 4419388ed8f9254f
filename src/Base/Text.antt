-- ===== src/Base/Text.antt =====
-- Rust's `str` by its characters: concatenation, prefixes, suffixes, lines, paths.
use Prim.Native.String
use Prim.Native.String.{String}
use Prim.Native.Char.{Char, code}
use Prim.Native.Nat.{ℕ}
use mathlib.Core.Path.{◌≡◌, refl, ap}
use mathlib.Core.Bool.{Bool, true, false, ◌&&◌, ◌||◌}
use mathlib.Core.Logic.{◌≢◌}
use mathlib.Core.Option.{Option, none, some}
use mathlib.Core.List.{List, [], ◌∷◌, ◌++◌}
use native.Mathlib.Omega.{arith}
use text.Mathlib.Text.{◌==◌}
use text.Mathlib.TextPositions.{eq_refl}
use text.Mathlib.TextLemmas.{
  cons-append, nil-append, length-cons, length-append, append-nil, append_assoc, cons≢nil,
}
use otters.Base.Tests.{if◌then◌else◌, eqb, eqb_refl, leb, ne→eq_false}
use otters.Base.Lists.{All}

-- `format!("{}{}", a, b)`
infixr 65 ◌<>◌
abbrev pub ◌<>◌ : String → String → String
a <> b = String.◌++◌ a b

-- `s.strip_prefix(p)`
unfoldable pub strip_prefix : String → String → Option String
strip_prefix s String.[] = some s
strip_prefix String.[] (String.◌∷◌ c p) = none
strip_prefix (String.◌∷◌ d s) (String.◌∷◌ c p) =
    let rest = strip_prefix s p in if eqb (code d) (code c) then rest else none

push_front : Char → Option String → Option String
push_front c none = none
push_front c (some s) = some (String.◌∷◌ c s)

-- `s.strip_suffix(p)`: one place at most leaves as many characters as `p` has.
unfoldable pub strip_suffix : String → String → Option String
unfolding push_front
strip_suffix String.[] p = if "" == p then some "" else none
strip_suffix (String.◌∷◌ c s) p =
    let rest = push_front c (strip_suffix s p) in if String.◌∷◌ c s == p then some "" else rest

abbrev pub is_some {ℓ} : {A : Type ℓ} → Option A → Bool
is_some none = false
is_some (some a) = true

-- What was put in front is stripped.
pub strip_prefix-append : (p s : String) → strip_prefix (p <> s) p ≡ some s
unfolding strip_prefix
strip_prefix-append String.[] s = rw nil-append
strip_prefix-append (String.◌∷◌ c p) s =
    rw cons-append (rw (eqb_refl (code c)) (strip_prefix-append p s))

longer : (c : Char) (s p : String) → String.◌∷◌ c (s <> p) ≢ p
longer c s p e =
    absurd (omega (arith, ap String.count e, length-cons c (s <> p), length-append s p))

strip_suffix_self : (p : String) → strip_suffix p p ≡ some ""
unfolding strip_suffix
strip_suffix_self String.[] = refl
strip_suffix_self (String.◌∷◌ c p) = rw (eq_refl (String.◌∷◌ c p))

-- What was put behind is stripped.
pub strip_suffix-append : (s p : String) → strip_suffix (s <> p) p ≡ some s
unfolding strip_suffix
strip_suffix-append String.[] p = rw nil-append (strip_suffix_self p)
strip_suffix-append (String.◌∷◌ c s) p =
    rw cons-append
      (rw (ne→eq_false (String.◌∷◌ c (s <> p)) p (longer c s p), strip_suffix-append s p))

abbrev lf : ℕ
lf = 10

abbrev cr : ℕ
cr = 13

starts_lf : String → Bool
starts_lf String.[] = false
starts_lf (String.◌∷◌ c s) = eqb (code c) lf

push_line : Char → List String → List String
push_line c [] = String.◌∷◌ c "" ∷ []
push_line c (l ∷ ls) = String.◌∷◌ c l ∷ ls

-- `BufRead::lines`: a line ends at a line feed, and loses a carriage return before it; what stands
-- behind the last line feed is a line unless it is empty.
unfoldable pub lines : String → List String
unfolding starts_lf push_line
lines String.[] = []
lines (String.◌∷◌ c s) =
    let rest = lines s in
    if eqb (code c) lf
    then "" ∷ rest
    else if eqb (code c) cr && starts_lf s
    then rest
    else push_line c rest

-- No character of the text ends a line.
abbrev pub IsLine : String → Type 0
IsLine String.[] = Unit
IsLine (String.◌∷◌ c s) = (eqb (code c) lf ≡ false) × (eqb (code c) cr ≡ false) × IsLine s

-- One `writeln!`, then the rest of a file.
pub lines-writeln : (l rest : String) → IsLine l → lines (l <> "\n" <> rest) ≡ l ∷ lines rest
unfolding lines
lines-writeln String.[] rest h = rw nil-append (rw cons-append (rw nil-append))
lines-writeln (String.◌∷◌ c l) rest h =
    rw (cons-append c l ("\n" <> rest), h.0, h.1, lines-writeln l rest h.2)

-- A file that was written a line at a time.
abbrev pub unlines : List String → String
unlines [] = ""
unlines (l ∷ ls) = l <> "\n" <> unlines ls

pub lines-unlines : (ls : List String) → All IsLine ls → lines (unlines ls) ≡ ls
lines-unlines [] h = unfold lines in refl
lines-unlines (l ∷ ls) h = rw (lines-writeln l (unlines ls) h.0, lines-unlines ls h.1)

pub unlines-append :
    (ls : List String) (l : String) → unlines ls <> l <> "\n" ≡ unlines (ls ++ l ∷ [])
unlines-append [] l = rw nil-append (rw append-nil)
unlines-append (k ∷ ls) l =
    rw append_assoc (rw append_assoc (ap (λ t. k <> "\n" <> t) (unlines-append ls l)))

-- What stands behind the last line feed.
pub lines_last : (l : String) → IsLine l → l ≢ "" → lines l ≡ l ∷ []
unfolding lines
lines_last String.[] h full = absurd (full refl)
lines_last (String.◌∷◌ c String.[]) h full = rw (h.0, h.1) refl
lines_last (String.◌∷◌ c (String.◌∷◌ d l)) h full =
    rw (h.0, h.1, lines_last (String.◌∷◌ d l) h.2 cons≢nil)

pub lines-rest :
    (ls : List String) (l : String)
    → All IsLine ls
    → IsLine l
    → l ≢ ""
    → lines (unlines ls <> l) ≡ ls ++ l ∷ []
lines-rest [] l h line full = rw nil-append (lines_last l line full)
lines-rest (k ∷ ls) l h line full = rw append_assoc (
    rw append_assoc (
      rw (lines-writeln k (unlines ls <> l) h.0)
        (ap (λ xs. k ∷ xs) (lines-rest ls l h.1 line full))))

-- `Path::is_absolute`, on Unix
unfoldable pub is_absolute : String → Bool
is_absolute String.[] = false
is_absolute (String.◌∷◌ c s) = eqb (code c) b'/'

ends_slash : String → Bool
ends_slash String.[] = false
ends_slash (String.◌∷◌ c String.[]) = eqb (code c) b'/'
ends_slash (String.◌∷◌ c (String.◌∷◌ d s)) = ends_slash (String.◌∷◌ d s)

-- `Path::join`, on Unix
unfoldable pub join_path : String → String → String
unfolding is_absolute ends_slash
join_path p q =
    if is_absolute q
    then q
    else if p == ""
    then q
    else if ends_slash p
    then p <> q
    else p <> "/" <> q

-- `s.contains(t)`
unfoldable pub contains : String → String → Bool
unfolding strip_prefix
contains String.[] t = is_some (strip_prefix "" t)
contains (String.◌∷◌ c s) t =
    let rest = contains s t in if is_some (strip_prefix (String.◌∷◌ c s) t) then true else rest

-- `char::is_whitespace`
unfoldable pub is_whitespace : ℕ → Bool
is_whitespace c =
    leb 9 c && leb c 13
    || eqb c 0x20
    || eqb c 0x85
    || eqb c 0xa0
    || eqb c 0x1680
    || leb 0x2000 c && leb c 0x200a
    || eqb c 0x2028
    || eqb c 0x2029
    || eqb c 0x202f
    || eqb c 0x205f
    || eqb c 0x3000

-- `s.trim().is_empty()`
unfoldable pub is_blank : String → Bool
unfolding is_whitespace
is_blank String.[] = true
is_blank (String.◌∷◌ c s) = is_whitespace (code c) && is_blank s
