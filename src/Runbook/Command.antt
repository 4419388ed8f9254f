-- ===== src/Runbook/Command.antt =====
-- command.rs of crates/runbook: commands, their arguments and what they run.
pub mod Keys
pub mod Arguments
use otters.Base.{
  ℕ, zero, suc, ◌+◌, String, Option, none, some, List, [], ◌∷◌, Bool, true, false, ◌||◌, ltb,
  if◌then◌else◌,
}
use Prim.Native.Char.{Char}
use otters.Base.Lists.{length, get_elem?}
use otters.Base.Text.{◌<>◌, is_some}
use otters.Base.Result.{Result, ok, err}
use otters.Base.Dict.{Dict, get, insert}

pub data RunDirective : Type 0 where
  shell : (command : String) → RunDirective
  pipeline : (name : String) → RunDirective
  agent : (name : String) → RunDirective
  strategy : (name : String) → RunDirective

unfoldable pub is_shell : RunDirective → Bool
is_shell (shell c) = true
is_shell _ = false

unfoldable pub is_pipeline : RunDirective → Bool
is_pipeline (pipeline p) = true
is_pipeline _ = false

unfoldable pub is_agent : RunDirective → Bool
is_agent (agent a) = true
is_agent _ = false

unfoldable pub is_strategy : RunDirective → Bool
is_strategy (strategy s) = true
is_strategy _ = false

unfoldable pub shell_command : RunDirective → Option String
shell_command (shell c) = some c
shell_command _ = none

unfoldable pub pipeline_name : RunDirective → Option String
pipeline_name (pipeline p) = some p
pipeline_name _ = none

unfoldable pub agent_name : RunDirective → Option String
agent_name (agent a) = some a
agent_name _ = none

unfoldable pub strategy_name : RunDirective → Option String
strategy_name (strategy s) = some s
strategy_name _ = none

pub record ArgDef : Type 0 where
  pub name : String
  pub required : Bool

pub record FlagDef : Type 0 where
  pub name : String
  pub short : Option Char

pub record OptionDef : Type 0 where
  pub name : String
  pub short : Option Char
  pub required : Bool

pub record VariadicDef : Type 0 where
  pub name : String
  pub required : Bool

pub record ArgSpec : Type 0 where
  pub positional : List ArgDef
  pub flags : List FlagDef
  pub options : List OptionDef
  pub variadic : Option VariadicDef

pub data ArgValidationError : Type 0 where
  missing_positional : String → ArgValidationError
  missing_option : String → ArgValidationError
  missing_variadic : String → ArgValidationError

pub record CommandDef : Type 0 where
  pub name : String
  pub args : ArgSpec
  pub defaults : Dict String
  pub run : RunDirective

abbrev pub contains_key : Dict String → String → Bool
contains_key d k = is_some (get d k)

module _ (defaults : Dict String) (positional : List String) (named : Dict String) where
  -- The first required positional, from index `i` on, that has no value.
  check_positional : ℕ → List ArgDef → Option ArgValidationError
  check_positional i [] = none
  check_positional i (a ∷ rest_args) =
      let rest = check_positional (suc i) rest_args in
      let has_value =
        is_some (get_elem? positional i)
        || (contains_key named a.name || contains_key defaults a.name) in
      if a.required then (if has_value then rest else some (missing_positional a.name)) else rest

  check_options : List OptionDef → Option ArgValidationError
  check_options [] = none
  check_options (o ∷ os) =
      let rest = check_options os in
      let has_value = contains_key named o.name || contains_key defaults o.name in
      if o.required then (if has_value then rest else some (missing_option o.name)) else rest

  check_variadic : ℕ → Option VariadicDef → Option ArgValidationError
  check_variadic start none = none
  check_variadic start (some v) =
      let has_values =
        ltb start (length positional)
        || (contains_key named v.name || contains_key defaults v.name) in
      if v.required then (if has_values then none else some (missing_variadic v.name)) else none

abbrev first_error :
    Option ArgValidationError
    → Result ArgValidationError (Unit {0})
    → Result ArgValidationError (Unit {0})
first_error (some e) rest = err e
first_error none rest = rest

unfoldable pub validate_args :
    CommandDef → List String → Dict String → Result ArgValidationError (Unit {0})
unfolding check_positional check_options check_variadic
validate_args c positional named =
    first_error (check_positional c.defaults positional named zero c.args.positional) (
      first_error (check_options c.defaults positional named c.args.options) (
        first_error
          (check_variadic c.defaults positional named (length c.args.positional) c.args.variadic)
          (ok tt)))

-- Values for the positional arguments, from index `i` on.
pub insert_positional : List String → ℕ → List ArgDef → Dict String → Dict String
insert_positional positional i [] result = result
insert_positional positional i (a ∷ rest_args) result =
    insert_positional positional (suc i) rest_args
      (elim (get_elem? positional i) [ none ↦ result | some value ↦ insert result a.name value ])

drop : ℕ → List String → List String
drop zero xs = xs
drop (suc n) [] = []
drop (suc n) (x ∷ xs) = drop n xs

-- `values.join(" ")`
join : List String → String
join [] = ""
join (x ∷ []) = x
join (x ∷ y ∷ ys) = x <> " " <> join (y ∷ ys)

pub insert_variadic : List String → ℕ → Option VariadicDef → Dict String → Dict String
unfolding drop join
insert_variadic positional start none result = result
insert_variadic positional start (some v) result =
    if ltb start (length positional)
    then insert result v.name (join (drop start positional))
    else result

pub insert_all : List (String × String) → Dict String → Dict String
insert_all [] result = result
insert_all ((k, v) ∷ es) result = insert_all es (insert result k v)

unfoldable pub parse_args : CommandDef → List String → Dict String → Dict String
unfolding insert_positional insert_variadic insert_all
parse_args c positional named = insert_all named.entries (
    insert_variadic positional (length c.args.positional) c.args.variadic
      (insert_positional positional zero c.args.positional c.defaults))
