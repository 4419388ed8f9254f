-- ===== src/Examples/Syntax.antt =====
-- The theorems on argument specifications, on one that has every kind of argument.
use otters.Base.{ℕ, String, true, false, ◌≡◌, refl, Option, none, some, [], ◌∷◌}
use otters.Base.Result.{Result, ok, err}
use otters.Runbook.Command.{ArgSpec}
use otters.Runbook.ArgSyntax.{ArgSpecError, duplicate_name}
use otters.Runbook.ArgSyntax.Loop.{parse_arg_spec}
use otters.Runbook.ArgSyntax.Fuel.{parse_arg_spec_ends}
use otters.Runbook.ArgSyntax.Valid.{IsValid}
use otters.Runbook.ArgSyntax.Accepted.{parse_arg_spec-IsValid}

abbrev text : String
text = "<name> [dir] -v/--verbose [--out <path>] <files...>"

abbrev spec : ArgSpec
spec = record {
  positional =
      record { name = "name"; required = true } ∷ record { name = "dir"; required = false } ∷ [];
  flags = record { name = "verbose"; short = some "v" } ∷ [];
  options = record { name = "out"; short = none; required = false } ∷ [];
  variadic = some (record { name = "files"; required = true });
}

parsed : parse_arg_spec text ≡ some (ok spec)
unfolding parse_arg_spec otters.Base.Text.strip_suffix otters.Runbook.ArgSyntax.start
parsed = refl

-- A name that stands twice.
refused : parse_arg_spec "<a> --a" ≡ some (err (duplicate_name "a"))
unfolding parse_arg_spec otters.Base.Text.strip_suffix otters.Runbook.ArgSyntax.start
refused = refl

parse_arg_spec-IsValid_example : IsValid spec
parse_arg_spec-IsValid_example = parse_arg_spec-IsValid text spec parsed

parse_arg_spec_ends_example : (r : Result ArgSpecError ArgSpec) × (parse_arg_spec text ≡ some r)
parse_arg_spec_ends_example = parse_arg_spec_ends text
