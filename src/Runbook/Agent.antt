-- ===== src/Runbook/Agent.antt =====
-- agent.rs of crates/runbook: agents and what to do when one is idle, exits or fails.
use otters.Base.{String, Option, none, some, List, [], ◌∷◌, Bool, true, false}
use otters.Base.Lists.{find}
use otters.Base.Result.{Result, ok, ◌>>=◌}
use otters.Base.Dict.{Dict, empty}
use otters.Runbook.Template.{Templates, interpolate}

pub data AgentAction : Type 0 where
  nudge done fail restart recover escalate : AgentAction

pub data ActionConfig : Type 0 where
  simple : (action : AgentAction) → ActionConfig
  with_options : (action : AgentAction) → (message : Option String) → (append : Bool) → ActionConfig

pub data ErrorType : Type 0 where
  unauthorized out_of_credits no_internet rate_limited : ErrorType

pub record ErrorMatch : Type 0 where
  pub error_match : Option ErrorType
  pub action : AgentAction
  pub message : Option String
  pub append : Bool

pub data ErrorActionConfig : Type 0 where
  same : (config : ActionConfig) → ErrorActionConfig
  by_type : (matches : List ErrorMatch) → ErrorActionConfig

-- `ActionConfig::default()`, `default_on_exit()` and `default_on_error()`
abbrev pub default_on_idle : ActionConfig
default_on_idle = simple nudge

abbrev pub default_on_exit : ActionConfig
default_on_exit = simple escalate

abbrev pub default_on_error : ErrorActionConfig
default_on_error = same (simple escalate)

unfoldable pub with_message : AgentAction → String → ActionConfig
with_message action message = with_options action (some message) false

unfoldable pub with_append : AgentAction → String → ActionConfig
with_append action message = with_options action (some message) true

abbrev pub action_of : ActionConfig → AgentAction
action_of (simple action) = action
action_of (with_options action message append) = action

abbrev pub message_of : ActionConfig → Option String
message_of (simple action) = none
message_of (with_options action message append) = message

abbrev pub append_of : ActionConfig → Bool
append_of (simple action) = false
append_of (with_options action message append) = append

abbrev pub same_type : ErrorType → ErrorType → Bool
same_type unauthorized unauthorized = true
same_type out_of_credits out_of_credits = true
same_type no_internet no_internet = true
same_type rate_limited rate_limited = true
same_type _ _ = false

-- `m.error_match.is_none() || m.error_match.as_ref() == error_type`
abbrev pub matches_type : Option ErrorType → Option ErrorType → Bool
matches_type none t = true
matches_type (some e) none = false
matches_type (some e) (some t) = same_type e t

config_of : Option ErrorMatch → ActionConfig
config_of none = simple escalate
config_of (some m) = with_options m.action m.message m.append

unfoldable pub action_for : ErrorActionConfig → Option ErrorType → ActionConfig
unfolding config_of
action_for (same config) t = config
action_for (by_type matches) t = config_of (find (λ m. matches_type m.error_match t) matches)

pub record AgentDef : Type 0 where
  pub name : String
  pub run : String
  pub prompt : Option String
  pub prompt_file : Option String
  pub env : Dict String
  pub cwd : Option String
  pub on_idle : ActionConfig
  pub on_exit : ActionConfig
  pub on_error : ErrorActionConfig

-- `AgentDef::default()`
unfoldable pub init : AgentDef
init = record {
  name = "";
  run = "";
  prompt = none;
  prompt_file = none;
  env = empty;
  cwd = none;
  on_idle = default_on_idle;
  on_exit = default_on_exit;
  on_error = default_on_error;
}

module _ (t : Templates) where
  unfoldable pub build_command : AgentDef → Dict String → String
  build_command a vars = interpolate t a.run vars

  interpolate_all : Dict String → List (String × String) → List (String × String)
  interpolate_all vars [] = []
  interpolate_all vars ((k, v) ∷ es) = (k, interpolate t v vars) ∷ interpolate_all vars es

  unfoldable pub build_env : AgentDef → Dict String → List (String × String)
  unfolding interpolate_all
  build_env a vars = interpolate_all vars a.env.entries

  interpolated : Dict String → Result String String → Result String String
  interpolated vars r = r >>= λ template. ok (interpolate t template vars)

  inline_prompt : Dict String → Option String → Result String String
  inline_prompt vars none = ok ""
  inline_prompt vars (some prompt) = ok (interpolate t prompt vars)

  -- `read` is `std::fs::read_to_string`.
  unfoldable pub get_prompt :
      (String → Result String String) → AgentDef → Dict String → Result String String
  unfolding interpolated inline_prompt
  get_prompt read a vars = elim a.prompt_file [
    | some file ↦ interpolated vars (read file)
    | none ↦ inline_prompt vars a.prompt
  ]
