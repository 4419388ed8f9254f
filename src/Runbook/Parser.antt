-- ===== src/Runbook/Parser.antt =====
-- parser.rs of crates/runbook: from TOML values to a runbook. The values and the formats that serde
-- derives are the toml crate's and parameters here.
pub mod Sections
use otters.Base.{ℕ, ◌-◌, ◌%◌, ◌^◌, String, true, false, Option, none, some, List, [], ◌∷◌, map, ◌≡◌}
use otters.Base.Int.{ℤ, pos, negsuc}
use otters.Base.Text.{◌<>◌}
use otters.Base.Result.{Result, ok, err, ◌>>=◌, map_err, or_fail}
use otters.Base.Dict.{Dict, empty, get, insert, keys, IsDistinct}
use otters.Runbook.Command.{RunDirective, agent, ArgSpec, ArgDef, OptionDef, CommandDef}
use otters.Runbook.Pipeline.{PhaseDef, PipelineDef}
use otters.Runbook.Agent.{AgentDef}
use otters.Runbook.Book
use otters.Runbook.Book.{WorkerDef, Runbook}
use otters.Runbook.ArgSyntax
use otters.Runbook.ArgSyntax.{
  ArgSpecError, invalid_syntax, variadic_not_last, optional_before_required, duplicate_name,
}
use otters.Runbook.ArgSyntax.Loop.{parse_arg_spec}

-- The old format of arguments, a table.
pub record ArgSpecStruct : Type 0 where
  pub positional : List String
  pub named : Dict (Option String)

-- `toml::Value` and what serde derives on it. A failure is the text of its error, and `custom` is
-- the text of an error that the code raises itself.
pub record Toml (T : Type 0) : Type 0 where
  pub from_str : String → Result String T
  pub as_table : T → Option (Dict T)
  pub as_array : T → Option (List T)
  pub as_str : T → Option String
  pub as_integer : T → Option ℤ
  pub to_run : T → Result String RunDirective
  pub to_agent : T → Result String AgentDef
  pub to_struct : T → Result String ArgSpecStruct
  pub custom : String → String

-- A table holds each key once.
pub record IsToml {T : Type 0} (t : Toml T) : Type 0 where
  pub distinct : (v : T) (d : Dict T) → t.as_table v ≡ some d → IsDistinct d

pub data ParseError : Type 0 where
  toml : (message : String) → ParseError
  missing_field : String → ParseError
  invalid_format : String → ParseError
  arg_spec : ArgSpecError → ParseError

-- `ArgSpecError::to_string`
abbrev show_arg_spec : ArgSpecError → String
show_arg_spec (invalid_syntax s) = "invalid argument syntax: " <> s
show_arg_spec (variadic_not_last s) = "variadic must be last: " <> s
show_arg_spec (optional_before_required s) = "optional positional cannot precede required: " <> s
show_arg_spec (duplicate_name s) = "duplicate argument name: " <> s

-- `ParseError::to_string`
abbrev pub show_parse : ParseError → String
show_parse (toml message) = "TOML parse error: " <> message
show_parse (missing_field field) = "missing required field: " <> field
show_parse (invalid_format s) = "invalid format: " <> s
show_parse (arg_spec e) = "invalid argument spec: " <> show_arg_spec e

unfoldable pub convert_struct : ArgSpecStruct → ArgSpec
convert_struct s = record {
  positional = map (λ name. record { name = name; required = true }) s.positional;
  flags = [];
  options = map (λ name. record { name = name; short = none; required = false }) (keys s.named);
  variadic = none;
}

-- The loop of `parse_arg_spec` never runs out of fuel.
abbrev settled : Option (Result ArgSpecError ArgSpec) → Result ArgSpecError ArgSpec
settled none = err (invalid_syntax "")
settled (some r) = r

abbrev pub and_then : {A B : Type 0} → Option A → (A → Option B) → Option B
and_then none f = none
and_then (some a) f = f a

abbrev or_else : {A : Type 0} → Option A → Option A → Option A
or_else none o = o
or_else (some a) o = some a

abbrev or_default : {A : Type 0} → A → Option A → A
or_default a none = a
or_default a (some b) = b

-- `v as u32`
unfoldable pub as_u32 : ℤ → ℕ
as_u32 (pos n) = n % 2 ^ 32
as_u32 (negsuc n) = 2 ^ 32 - 1 - n % 2 ^ 32

module _ {T : Type 0} (t : Toml T) where
  -- `impl Deserialize for ArgSpec`: a text, or else a table.
  arg_spec_of : T → Option String → Result String ArgSpec
  unfolding parse_arg_spec convert_struct
  arg_spec_of v (some s) = map_err (λ e. t.custom (show_arg_spec e)) (settled (parse_arg_spec s))
  arg_spec_of v none = t.to_struct v >>= λ s. ok (convert_struct s)

  unfoldable pub to_args : T → Result String ArgSpec
  unfolding arg_spec_of
  to_args v = arg_spec_of v (t.as_str v)

  abbrev pub field_table : Dict T → String → Option (Dict T)
  field_table d k = and_then (get d k) t.as_table

  abbrev field_str : Dict T → String → Option String
  field_str d k = and_then (get d k) t.as_str

  abbrev field_array : Dict T → String → Option (List T)
  field_array d k = and_then (get d k) t.as_array

  -- `filter_map(|v| v.as_str().map(String::from)).collect()`
  texts : List T → List String
  texts [] = []
  texts (v ∷ vs) = let rest = texts vs in elim (t.as_str v) [ none ↦ rest | some s ↦ s ∷ rest ]

  -- The entries of a table that are texts.
  text_entries : List (String × T) → Dict String → Dict String
  text_entries [] d = d
  text_entries ((k, v) ∷ es) d =
      text_entries es (elim (t.as_str v) [ none ↦ d | some s ↦ insert d k s ])

  abbrev defaults_of : Option (Dict T) → Dict String
  defaults_of none = empty
  defaults_of (some d) = text_entries d.entries empty

  run_of : String → Option T → Result ParseError RunDirective
  run_of place none = err (missing_field place)
  run_of place (some v) = map_err (λ e. invalid_format (place <> ": " <> e)) (t.to_run v)

  args_of : String → Option T → Result ParseError ArgSpec
  unfolding to_args ArgSyntax.empty_spec
  args_of place none = ok ArgSyntax.empty_spec
  args_of place (some v) = map_err (λ e. invalid_format (place <> ": " <> e)) (to_args v)

  abbrev table_of : String → T → Result ParseError (Dict T)
  table_of place v = or_fail (t.as_table v) (invalid_format (place <> " must be a table"))

  unfoldable pub parse_command : String → T → Result ParseError CommandDef
  unfolding run_of args_of text_entries
  parse_command name value = table_of ("command." <> name) value >>= λ table.
      run_of ("command." <> name <> ".run") (get table "run") >>= λ run.
      args_of ("command." <> name <> ".args") (get table "args") >>= λ args. ok (record {
        name = name;
        args = args;
        defaults = defaults_of (field_table table "defaults");
        run = run;
      })

  concurrency_of : Option ℤ → ℕ
  unfolding as_u32
  concurrency_of none = 1
  concurrency_of (some v) = as_u32 v

  unfoldable pub parse_worker : String → T → Result ParseError WorkerDef
  unfolding concurrency_of texts
  parse_worker name value = table_of ("worker." <> name) value >>= λ table. ok (record {
    name = name;
    concurrency = concurrency_of (and_then (get table "concurrency") t.as_integer);
    pipelines = texts (or_default [] (field_array table "pipelines"));
  })

  -- A phase runs what `run` says, or the agent of the legacy field.
  phase_run_of : String → Option T → Option String → Result ParseError RunDirective
  unfolding run_of
  phase_run_of place (some v) legacy = run_of place (some v)
  phase_run_of place none (some name) = ok (agent name)
  phase_run_of place none none = err (missing_field place)

  unfoldable pub parse_phase : T → Result ParseError PhaseDef
  unfolding phase_run_of
  parse_phase value = table_of "phase" value >>= λ table.
      or_fail (field_str table "name") (missing_field "phase.name") >>= λ name.
      phase_run_of ("phase." <> name <> ".run") (get table "run") (field_str table "agent")
      >>= λ run. ok (record {
        name = name;
        run = run;
        next = field_str table "next";
        on_fail = field_str table "on_fail";
      })

  -- `filter_map(|v| parse_phase(v).ok()).collect()`
  unfoldable pub parse_phases : List T → List PhaseDef
  unfolding parse_phase
  parse_phases [] = []
  parse_phases (v ∷ vs) =
      let rest = parse_phases vs in elim (parse_phase v) [ ok p ↦ p ∷ rest | err e ↦ rest ]

  unfoldable pub parse_pipeline : String → T → Result ParseError PipelineDef
  unfolding texts text_entries parse_phases
  parse_pipeline name value = table_of ("pipeline." <> name) value >>= λ table. ok (record {
    name = name;
    inputs = texts (or_default [] (field_array table "inputs"));
    defaults = defaults_of (field_table table "defaults");
    phases =
        parse_phases
          (or_default [] (or_else (field_array table "phase") (field_array table "phases")));
  })

  unfoldable pub parse_agent : String → T → Result ParseError AgentDef
  parse_agent name value =
      map_err (λ e. invalid_format ("agent." <> name <> ": " <> e)) (t.to_agent value) >>= λ a.
      ok (record a { name = name })

  -- One loop of `parse_runbook`: the first definition that does not parse ends it.
  unfoldable pub parse_each :
      {A : Type 0}
      → (String → T → Result ParseError A)
      → List (String × T)
      → Dict A
      → Result ParseError (Dict A)
  parse_each parse [] d = ok d
  parse_each parse ((k, v) ∷ es) d = parse k v >>= λ a. parse_each parse es (insert d k a)

  unfoldable pub parse_section :
      {A : Type 0}
      → (String → T → Result ParseError A)
      → Option (Dict T)
      → Result ParseError (Dict A)
  unfolding parse_each
  parse_section parse none = ok empty
  parse_section parse (some table) = parse_each parse table.entries empty

  unfoldable pub parse_sections : Dict T → Result ParseError Runbook
  unfolding parse_section parse_command parse_worker parse_pipeline parse_agent
  parse_sections table = parse_section parse_command (field_table table "command") >>= λ commands.
      parse_section parse_worker (field_table table "worker") >>= λ workers.
      parse_section parse_pipeline (field_table table "pipeline") >>= λ pipelines.
      parse_section parse_agent (field_table table "agent") >>= λ agents.
      ok (record { commands = commands; workers = workers; pipelines = pipelines; agents = agents })

  unfoldable pub parse_runbook : String → Result ParseError Runbook
  unfolding parse_sections
  parse_runbook content = map_err toml (t.from_str content) >>= λ raw.
      or_fail (t.as_table raw) (invalid_format "root must be a table") >>= parse_sections
