-- ===== src/Runbook/ArgSyntax/Accepted.antt =====
-- Every specification that `parse_arg_spec` accepts is valid.
use Prim.Native.String
use Prim.Native.Char.{Char, code}
use otters.Base.{
  ℕ, zero, suc, String, ◌≡◌, inl, inr, Option, none, some, Bool, true, false, Bool-cases,
  if◌then◌else◌, eqb, ◌==◌,
}
use otters.Base.Text.{◌<>◌, is_whitespace}
use otters.Base.Chars.{trim, starts_with, ends_with, trim_start, char_text, before}
use otters.Base.Result.{Result, ok, err, Result-cases, Holds}
use otters.Runbook.Command.{ArgSpec}
use otters.Runbook.ArgSyntax.{
  Parsing, Step, ArgSpecError, invalid_syntax, empty_spec, start, parse_flag_names,
  parse_flag_or_option, flag_or_option,
}
use otters.Runbook.ArgSyntax.Loop.{
  read_until, read_bracket, read_word, required_argument, optional_argument, dashed, turn, proceed,
  parse_loop, parse_arg_spec, finished,
}
use otters.Runbook.ArgSyntax.Names.{spec_names}
use otters.Runbook.ArgSyntax.Valid.{
  IsValid, IsParsing, Kept, either, add_variadic-Kept, add_required-Kept, add_optional-Kept,
  add_option-Kept, add_flag-Kept,
}

flag_or_option-Kept :
    (content : String) (required : Bool) (p : Parsing) (o : Option String)
    → IsParsing p
    → Kept (flag_or_option content required p o)
flag_or_option-Kept content required p none h = elim (Result-cases (parse_flag_names content)) [
  | inl (names, e) ↦ rw e (add_flag-Kept p names h)
  | inr (f, e) ↦ rw e tt
]
flag_or_option-Kept content required p (some part) h =
    elim (Result-cases (parse_flag_names (trim part))) [
      | inl (names, e) ↦ rw e (add_option-Kept required p names h)
      | inr (f, e) ↦ rw e tt
    ]

parse_flag_or_option-Kept :
    (text : String) (required : Bool) (p : Parsing)
    → IsParsing p
    → Kept (parse_flag_or_option text required p)
unfolding parse_flag_or_option
parse_flag_or_option-Kept text required p h =
    flag_or_option-Kept (trim text) required p (before b'<' (trim text)) h

required_argument-Kept :
    (token : String) (p : Parsing) → IsParsing p → Kept (required_argument token p)
unfolding required_argument
required_argument-Kept token p h =
    either (ends_with (trim token) "...") _ _ (add_variadic-Kept _ true p h)
      (add_required-Kept (trim token) p h)

optional_argument-Kept :
    (token : String) (p : Parsing) → IsParsing p → Kept (optional_argument token p)
unfolding optional_argument
optional_argument-Kept token p h =
    either (starts_with (trim token) "-") _ _ (parse_flag_or_option-Kept (trim token) false p h) (
      either (ends_with (trim token) "...") _ _ (add_variadic-Kept _ false p h)
        (add_optional-Kept (trim token) p h))

if_kept : (b : Bool) (x y : Step × String) → Kept x.0 → Kept y.0 → Kept (if b then x else y).0
if_kept true x y hx hy = hx
if_kept false x y hx hy = hy

dashed-Kept : (token : String) (p : Parsing) (s : String) → IsParsing p → Kept (dashed token p s).0
unfolding dashed
dashed-Kept token p String.[] h = parse_flag_or_option-Kept token true p h
dashed-Kept token p (String.◌∷◌ c s) h =
    if_kept (eqb (code c) b'<') _ _
      (parse_flag_or_option-Kept (token <> " <" <> (read_until b'>' s).0 <> ">") true p h)
      (parse_flag_or_option-Kept token true p h)

turn-Kept : (c : Char) (s : String) (p : Parsing) → IsParsing p → Kept (turn c s p).0
unfolding turn
turn-Kept c s p h =
    let (word, rest) = read_word s in
    if_kept (eqb (code c) b'<') _ _ (required_argument-Kept (read_until b'>' s).0 p h) (
      if_kept (eqb (code c) b'[') _ _ (optional_argument-Kept (read_bracket 1 s).0 p h) (
        if_kept (eqb (code c) b'-') _ _ (dashed-Kept (String.◌∷◌ c word) p (trim_start rest) h) (
          if_kept (is_whitespace (code c)) (ok p, s)
            (err (invalid_syntax ("unexpected character: " <> char_text c)), s) h tt)))

abbrev Done : Option Step → Type 0
Done none = Unit
Done (some m) = Kept m

proceed-Done :
    (m : Step) (k : Parsing → Option Step)
    → Kept m
    → ((q : Parsing) → IsParsing q → Done (k q))
    → Done (proceed m k)
proceed-Done (ok p) k h hk = hk p h
proceed-Done (err e) k h hk = tt

parse_loop-Done : (fuel : ℕ) (s : String) (p : Parsing) → IsParsing p → Done (parse_loop fuel s p)
unfolding parse_loop
parse_loop-Done fuel String.[] p h = h
parse_loop-Done zero (String.◌∷◌ c s) p h = tt
parse_loop-Done (suc fuel) (String.◌∷◌ c s) p h =
    proceed-Done (turn c s p).0 (parse_loop fuel (turn c s p).1) (turn-Kept c s p h)
      (parse_loop-Done fuel (turn c s p).1)

start-IsParsing : IsParsing start
unfolding start empty_spec spec_names
start-IsParsing = record {
  valid = record { unique = tt; required_first = tt };
  known = λ k h. absurd h;
  unseen = λ _. tt;
}

abbrev Accepted : Option (Result ArgSpecError ArgSpec) → Type 0
Accepted none = Unit
Accepted (some r) = Holds IsValid r

finished-Accepted : (o : Option Step) → Done o → Accepted (finished o)
finished-Accepted none h = tt
finished-Accepted (some (ok p)) h = h.valid
finished-Accepted (some (err e)) h = tt

empty_spec-IsValid : IsValid empty_spec
unfolding empty_spec spec_names
empty_spec-IsValid = record { unique = tt; required_first = tt }

parse_arg_spec-Accepted : (text : String) → Accepted (parse_arg_spec text)
unfolding parse_arg_spec
parse_arg_spec-Accepted text = elim (Bool-cases (trim text == "")) [
  | inl y ↦ rw y empty_spec-IsValid
  | inr n ↦ rw n (
      finished-Accepted _
        (parse_loop-Done (String.count (trim text)) (trim text) start start-IsParsing))
]

-- A specification that `parse_arg_spec` accepts names no two of its arguments alike, whether they
-- are positional, flags, options or variadic, and has no required positional argument behind an
-- optional one.
pub parse_arg_spec-IsValid :
    (text : String) (s : ArgSpec) → parse_arg_spec text ≡ some (ok s) → IsValid s
parse_arg_spec-IsValid text s e = rw e at (parse_arg_spec-Accepted text)
