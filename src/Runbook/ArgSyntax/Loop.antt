-- ===== src/Runbook/ArgSyntax/Loop.antt =====
-- The loop of `parse_arg_spec` of command.rs of crates/runbook, over the characters of the text. It is
-- on fuel, of which there is as much as there are characters.
use Prim.Native.String
use Prim.Native.Char.{Char, code}
use otters.Base.{
  ℕ, zero, suc, String, Option, none, some, ◌-◌, true, false, if◌then◌else◌, eqb, ◌==◌,
}
use otters.Base.Text.{◌<>◌, is_whitespace}
use otters.Base.Chars.{trim, trim_start, starts_with, ends_with, trim_end_matches, char_text}
use otters.Base.Result.{Result, ok, err}
use otters.Runbook.Command.{ArgSpec}
use otters.Runbook.ArgSyntax.{
  Parsing, Step, ArgSpecError, invalid_syntax, empty_spec, start, add_variadic, add_required,
  add_optional, parse_flag_or_option, dots,
}

-- The characters up to `stop`, which is read too, and what is behind it.
unfoldable pub read_until : ℕ → String → String × String
read_until stop String.[] = ("", "")
read_until stop (String.◌∷◌ c s) =
    let (token, rest) = read_until stop s in
    if eqb (code c) stop then ("", s) else (String.◌∷◌ c token, rest)

-- The characters up to the `]` that closes the bracket.
unfoldable pub read_bracket : ℕ → String → String × String
read_bracket depth String.[] = ("", "")
read_bracket depth (String.◌∷◌ c s) =
    let depth' =
      if eqb (code c) b'[' then suc depth else if eqb (code c) b']' then depth - 1 else depth in
    let (token, rest) = read_bracket depth' s in
    if eqb depth' 0 then ("", s) else (String.◌∷◌ c token, rest)

-- The characters before the next whitespace.
unfoldable pub read_word : String → String × String
unfolding is_whitespace
read_word String.[] = ("", "")
read_word (String.◌∷◌ c s) =
    let (token, rest) = read_word s in
    if is_whitespace (code c) then ("", String.◌∷◌ c s) else (String.◌∷◌ c token, rest)

unfoldable pub required_argument : String → Parsing → Step
unfolding add_variadic add_required trim trim_end_matches
required_argument token p =
    let name = trim token in
    if ends_with name dots
    then add_variadic (trim_end_matches name dots) true p
    else add_required name p

unfoldable pub optional_argument : String → Parsing → Step
unfolding add_variadic add_optional parse_flag_or_option trim trim_end_matches
optional_argument token p =
    let content = trim token in
    if starts_with content "-"
    then parse_flag_or_option content false p
    else if ends_with content dots
    then add_variadic (trim_end_matches content dots) false p
    else add_optional content p

-- What follows a flag at the top level: a `<val>`, or anything else.
unfoldable pub dashed : String → Parsing → String → Step × String
unfolding read_until parse_flag_or_option
dashed token p String.[] = (parse_flag_or_option token true p, "")
dashed token p (String.◌∷◌ c s) =
    if eqb (code c) b'<'
    then (let (val_name, rest) = read_until b'>' s in
        (parse_flag_or_option (token <> " <" <> val_name <> ">") true p, rest))
    else (parse_flag_or_option token true p, String.◌∷◌ c s)

-- One turn of the loop, which has read `c`: what it makes of the variables and what is left.
unfoldable pub turn : Char → String → Parsing → Step × String
unfolding read_until read_bracket read_word required_argument optional_argument dashed trim_start
turn c s p =
    if eqb (code c) b'<'
    then (let (token, rest) = read_until b'>' s in (required_argument token p, rest))
    else if eqb (code c) b'['
    then (let (token, rest) = read_bracket 1 s in (optional_argument token p, rest))
    else if eqb (code c) b'-'
    then (let (token, rest) = read_word s in dashed (String.◌∷◌ c token) p (trim_start rest))
    else if is_whitespace (code c)
    then (ok p, s)
    else (err (invalid_syntax ("unexpected character: " <> char_text c)), s)

-- The loop goes on after a turn that does not fail.
abbrev pub proceed : Step → (Parsing → Option Step) → Option Step
proceed (ok p) k = k p
proceed (err e) k = some (err e)

unfoldable pub parse_loop : ℕ → String → Parsing → Option Step
unfolding turn
parse_loop fuel String.[] p = some (ok p)
parse_loop zero (String.◌∷◌ c s) p = none
parse_loop (suc fuel) (String.◌∷◌ c s) p =
    let (outcome, rest) = turn c s p in proceed outcome (parse_loop fuel rest)

abbrev pub finished : Option Step → Option (Result ArgSpecError ArgSpec)
finished none = none
finished (some (ok p)) = some (ok p.result)
finished (some (err e)) = some (err e)

unfoldable pub parse_arg_spec : String → Option (Result ArgSpecError ArgSpec)
unfolding parse_loop trim start
parse_arg_spec text =
    let spec = trim text in
    if spec == ""
    then some (ok empty_spec)
    else finished (parse_loop (String.count spec) spec start)
