-- ===== src/Runbook/ArgSyntax.antt =====
-- `parse_arg_spec` of command.rs of crates/runbook: the text that declares a command's arguments.
-- `Loop` reads the characters; what it makes of each argument is here.
pub mod Loop
pub mod Fuel
pub mod Names
pub mod Valid
pub mod Accepted
use Prim.Native.String
use Prim.Native.Char.{Char, code}
use otters.Base.{
  ℕ, zero, suc, String, Option, none, some, List, [], ◌∷◌, ◌++◌, map, ◌-◌, Bool, true, false, not,
  ◌&&◌, if◌then◌else◌, eqb, ◌==◌,
}
use otters.Base.Text.{◌<>◌, is_some, is_whitespace, strip_prefix, contains}
use otters.Base.Chars.{
  trim, trim_start, starts_with, ends_with, trim_end_matches, split, before, second_char, char_text,
}
use otters.Base.Result.{Result, ok, err, ◌>>=◌, or_fail}
use otters.Runbook.Command.{ArgDef, FlagDef, OptionDef, VariadicDef, ArgSpec}

pub data ArgSpecError : Type 0 where
  invalid_syntax : String → ArgSpecError
  variadic_not_last : String → ArgSpecError
  optional_before_required : String → ArgSpecError
  duplicate_name : String → ArgSpecError

-- The variables of the loop.
pub record Parsing : Type 0 where
  pub result : ArgSpec
  pub seen_optional_positional : Bool
  pub names : List String

-- `ArgSpec::default()`
unfoldable pub empty_spec : ArgSpec
empty_spec = record { positional = []; flags = []; options = []; variadic = none }

unfoldable pub start : Parsing
unfolding empty_spec
start = record { result = empty_spec; seen_optional_positional = false; names = [] }

abbrev pub Step : Type 0
Step = Result ArgSpecError Parsing

unfoldable pub mem : String → List String → Bool
mem k [] = false
mem k (j ∷ js) = let rest = mem k js in if j == k then true else rest

abbrev pub recorded : String → Parsing → Parsing
recorded name p = record p { names = name ∷ p.names }

unfoldable pub check_name : String → Parsing → Step
unfolding mem
check_name name p = if mem name p.names then err (duplicate_name name) else ok (recorded name p)

-- `result.positional.push(..)` and its like.
abbrev pub push_positional : ArgDef → Parsing → Parsing
push_positional a p = record p {
  result = record p.result { positional = p.result.positional ++ a ∷ [] };
}

abbrev pub push_flag : FlagDef → Parsing → Parsing
push_flag f p = record p { result = record p.result { flags = p.result.flags ++ f ∷ [] } }

abbrev pub push_option : OptionDef → Parsing → Parsing
push_option o p = record p { result = record p.result { options = p.result.options ++ o ∷ [] } }

abbrev pub put_variadic : VariadicDef → Parsing → Parsing
put_variadic v p = record p { result = record p.result { variadic = some v } }

abbrev pub dots : String
dots = "..."

abbrev pub new_variadic : VariadicDef → Parsing → Step
new_variadic v p =
    if is_some p.result.variadic then err (variadic_not_last v.name) else ok (put_variadic v p)

-- The branch of a variadic argument, which `<..>` and `[..]` have in common.
unfoldable pub add_variadic : String → Bool → Parsing → Step
unfolding check_name
add_variadic name required p =
    check_name name p >>= new_variadic (record { name = name; required = required })

unfoldable pub add_required : String → Parsing → Step
unfolding check_name
add_required name p =
    if is_some p.result.variadic
    then err (variadic_not_last name)
    else if p.seen_optional_positional
    then err (optional_before_required name)
    else check_name name p >>= λ q. ok (push_positional (record { name = name; required = true }) q)

unfoldable pub add_optional : String → Parsing → Step
unfolding check_name
add_optional name p =
    if is_some p.result.variadic
    then err (variadic_not_last name)
    else check_name name p >>= λ q. ok (
        push_positional (record { name = name; required = false })
          (record q { seen_optional_positional = true }))

abbrev FlagNames : Type 0
FlagNames = Result ArgSpecError (Option Char × String)

abbrev short_name : String → Result ArgSpecError (Option Char)
short_name part =
    if starts_with part "-" && not (starts_with part "--")
    then ok (second_char part)
    else err (invalid_syntax ("invalid short flag: " <> part))

abbrev long_name : String → Result ArgSpecError String
long_name part = or_fail (strip_prefix part "--") (invalid_syntax ("invalid long flag: " <> part))

abbrev slash_names : String → List String → FlagNames
slash_names flag_part (short ∷ long ∷ []) =
    short_name (trim short) >>= λ s. long_name (trim long) >>= λ name. ok (s, name)
slash_names flag_part parts = err (invalid_syntax ("invalid flag syntax: " <> flag_part))

abbrev single_names : String → Option String → FlagNames
single_names flag_part (some name) = ok (none, name)
single_names flag_part none =
    if starts_with flag_part "-"
    then (or_fail (second_char flag_part) (invalid_syntax "empty flag") >>= λ c.
        ok (some c, char_text c))
    else err (invalid_syntax ("flag must start with -: " <> flag_part))

unfoldable pub parse_flag_names : String → FlagNames
unfolding trim split contains strip_prefix
parse_flag_names text =
    let flag_part = trim text in
    if contains flag_part "/"
    then slash_names flag_part (split b'/' flag_part)
    else single_names flag_part (strip_prefix flag_part "--")

unfoldable pub add_option : Bool → Parsing → Option Char × String → Step
unfolding check_name
add_option required p (short, name) = check_name name p >>= λ q.
    ok (push_option (record { name = name; short = short; required = required }) q)

unfoldable pub add_flag : Parsing → Option Char × String → Step
unfolding check_name
add_flag p (short, name) =
    check_name name p >>= λ q. ok (push_flag (record { name = name; short = short }) q)

abbrev pub flag_or_option : String → Bool → Parsing → Option String → Step
flag_or_option content required p none = parse_flag_names content >>= add_flag p
flag_or_option content required p (some flag_part) =
    parse_flag_names (trim flag_part) >>= add_option required p

unfoldable pub parse_flag_or_option : String → Bool → Parsing → Step
unfolding trim before parse_flag_names add_option add_flag
parse_flag_or_option text required p =
    let content = trim text in flag_or_option content required p (before b'<' content)

-- `ArgSpec::positional_names`
unfoldable pub positional_names : ArgSpec → List String
positional_names s = map (λ a. a.name) s.positional
