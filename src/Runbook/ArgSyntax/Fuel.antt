-- ===== src/Runbook/ArgSyntax/Fuel.antt =====
-- The loop of `parse_arg_spec` ends.
use Prim.Native.String
use Prim.Native.Char.{Char, code}
use text.Mathlib.TextLemmas.{length-cons}
use otters.Base.{
  Bool, ℕ, zero, suc, ◌≤◌, String, ◌≡◌, refl, inl, inr, Option, some, true, false, ◌-◌,
  if◌then◌else◌, eqb, Bool-cases, ◌==◌, arith,
}
use otters.Base.Text.{is_whitespace}
use otters.Base.Chars.{trim_start, trim}
use otters.Base.Result.{Result, ok, err}
use otters.Runbook.Command.{ArgSpec}
use otters.Runbook.ArgSyntax.{Parsing, Step, ArgSpecError, start, empty_spec}
use otters.Runbook.ArgSyntax.Loop.{
  read_until, read_bracket, read_word, dashed, turn, proceed, parse_loop, parse_arg_spec, finished,
}

abbrev Shorter : ℕ → String → Type 0
Shorter n s = String.count s ≤ n

-- What is left of a text is no longer than the text.
behind :
    (c : Char) (s rest : String)
    → Shorter (String.count s) rest
    → Shorter (String.count (String.◌∷◌ c s)) rest
behind c s rest h = omega (arith, length-cons c s, h)

read_until-Shorter : (stop : ℕ) (s : String) → Shorter (String.count s) (read_until stop s).1
unfolding read_until
read_until-Shorter stop String.[] = omega arith
read_until-Shorter stop (String.◌∷◌ c s) = elim (Bool-cases (eqb (code c) stop)) [
  | inl y ↦ rw y (behind c s s (omega arith))
  | inr n ↦ rw n (behind c s _ (read_until-Shorter stop s))
]

read_bracket-Shorter : (depth : ℕ) (s : String) → Shorter (String.count s) (read_bracket depth s).1
unfolding read_bracket
read_bracket-Shorter depth String.[] = omega arith
read_bracket-Shorter depth (String.◌∷◌ c s) =
    let depth' =
      if eqb (code c) b'[' then suc depth else if eqb (code c) b']' then depth - 1 else depth in
    elim (Bool-cases (eqb depth' 0)) [
      | inl y ↦ rw y (behind c s s (omega arith))
      | inr n ↦ rw n (behind c s _ (read_bracket-Shorter depth' s))
    ]

read_word-Shorter : (s : String) → Shorter (String.count s) (read_word s).1
unfolding read_word
read_word-Shorter String.[] = omega arith
read_word-Shorter (String.◌∷◌ c s) = elim (Bool-cases (is_whitespace (code c))) [
  | inl y ↦ rw y (omega arith)
  | inr n ↦ rw n (behind c s _ (read_word-Shorter s))
]

trim_start-Shorter : (s : String) → Shorter (String.count s) (trim_start s)
unfolding trim_start
trim_start-Shorter String.[] = omega arith
trim_start-Shorter (String.◌∷◌ c s) = elim (Bool-cases (is_whitespace (code c))) [
  | inl y ↦ rw y (behind c s _ (trim_start-Shorter s))
  | inr n ↦ rw n (omega arith)
]

if-Shorter :
    (b : Bool) (x y : Step × String) (n : ℕ)
    → Shorter n x.1
    → Shorter n y.1
    → Shorter n (if b then x else y).1
if-Shorter true x y n hx hy = hx
if-Shorter false x y n hx hy = hy

dashed-Shorter :
    (token : String) (p : Parsing) (s : String) → Shorter (String.count s) (dashed token p s).1
unfolding dashed
dashed-Shorter token p String.[] = omega arith
dashed-Shorter token p (String.◌∷◌ c s) =
    if-Shorter (eqb (code c) b'<') _ _ _ (behind c s _ (read_until-Shorter b'>' s)) (omega arith)

turn-Shorter : (c : Char) (s : String) (p : Parsing) → Shorter (String.count s) (turn c s p).1
unfolding turn
turn-Shorter c s p =
    let rest = (read_word s).1 in
    if-Shorter (eqb (code c) b'<') _ _ _ (read_until-Shorter b'>' s) (
      if-Shorter (eqb (code c) b'[') _ _ _ (read_bracket-Shorter 1 s) (
        if-Shorter (eqb (code c) b'-') _ _ _
          (omega (
            arith,
            dashed-Shorter (String.◌∷◌ c (read_word s).0) p (trim_start rest),
            trim_start-Shorter rest,
            read_word-Shorter s,
          ))
          (if-Shorter (is_whitespace (code c)) _ _ _ (omega arith) (omega arith))))

proceed_ends :
    (m : Step) (k : Parsing → Option Step)
    → ((q : Parsing) → (r : Step) × (k q ≡ some r))
    → (r : Step) × (proceed m k ≡ some r)
proceed_ends (ok p) k h = h p
proceed_ends (err e) k h = (err e, refl)

-- With as much fuel as there are characters the loop comes to an end.
parse_loop_ends :
    (fuel : ℕ) (s : String) (p : Parsing)
    → Shorter fuel s
    → (r : Step) × (parse_loop fuel s p ≡ some r)
unfolding parse_loop
parse_loop_ends fuel String.[] p h = (ok p, refl)
parse_loop_ends zero (String.◌∷◌ c s) p h = absurd (omega (arith, length-cons c s, h))
parse_loop_ends (suc fuel) (String.◌∷◌ c s) p h =
    proceed_ends (turn c s p).0 (parse_loop fuel (turn c s p).1) λ q.
      parse_loop_ends fuel (turn c s p).1 q (omega (arith, length-cons c s, turn-Shorter c s p, h))

finished_ends :
    (o : Option Step)
    → (r : Step) × (o ≡ some r)
    → (r : Result ArgSpecError ArgSpec) × (finished o ≡ some r)
finished_ends o (ok p, e) = rw e (ok p.result, refl)
finished_ends o (err f, e) = rw e (err f, refl)

-- `parse_arg_spec` ends on every text, with a specification or an error: its loop needs no more
-- turns than the text has characters.
pub parse_arg_spec_ends :
    (text : String) → (r : Result ArgSpecError ArgSpec) × (parse_arg_spec text ≡ some r)
unfolding parse_arg_spec
parse_arg_spec_ends text = elim (Bool-cases (trim text == "")) [
  | inl y ↦ rw y (ok empty_spec, refl)
  | inr n ↦
      rw n (
        finished_ends _
          (parse_loop_ends (String.count (trim text)) (trim text) start (omega arith)))
]
