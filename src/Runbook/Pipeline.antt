-- ===== src/Runbook/Pipeline.antt =====
-- pipeline.rs of crates/runbook: the phases of a pipeline and their order.
pub mod Order
use otters.Base.{
  ℕ, zero, suc, ◌+◌, String, Option, none, some, List, [], ◌∷◌, Bool, ◌==◌, if◌then◌else◌,
}
use otters.Base.Lists.{find, get_elem?}
use otters.Base.Dict.{Dict}
use otters.Runbook.Command.{RunDirective}
use otters.Runbook.Command

pub record PhaseDef : Type 0 where
  pub name : String
  pub run : RunDirective
  pub next : Option String
  pub on_fail : Option String

unfoldable pub is_shell : PhaseDef → Bool
is_shell p = Command.is_shell p.run

unfoldable pub is_agent : PhaseDef → Bool
is_agent p = Command.is_agent p.run

unfoldable pub is_strategy : PhaseDef → Bool
is_strategy p = Command.is_strategy p.run

unfoldable pub agent_name : PhaseDef → Option String
agent_name p = Command.agent_name p.run

unfoldable pub shell_command : PhaseDef → Option String
shell_command p = Command.shell_command p.run

pub record PipelineDef : Type 0 where
  pub name : String
  pub inputs : List String
  pub defaults : Dict String
  pub phases : List PhaseDef

later : Option ℕ → Option ℕ
later none = none
later (some i) = some (suc i)

-- `iter().position(p)`
position : String → List PhaseDef → Option ℕ
unfolding later
position current [] = none
position current (p ∷ ps) =
    let rest = later (position current ps) in if p.name == current then some zero else rest

unfoldable pub get_phase : PipelineDef → String → Option PhaseDef
get_phase d name = find (λ p. p.name == name) d.phases

-- `phases.first()`
first : List PhaseDef → Option PhaseDef
first [] = none
first (p ∷ ps) = some p

unfoldable pub first_phase : PipelineDef → Option PhaseDef
unfolding first
first_phase d = first d.phases

-- `phases.get(idx + 1)`, where `position` has found an index
behind : Option ℕ → List PhaseDef → Option PhaseDef
behind none ps = none
behind (some idx) ps = get_elem? ps (idx + 1)

after_phase : PipelineDef → String → Option String → Option PhaseDef
unfolding behind
after_phase d current (some next) = get_phase d next
after_phase d current none = behind (position current d.phases) d.phases

after_found : PipelineDef → String → Option PhaseDef → Option PhaseDef
after_found d current none = none
after_found d current (some phase) = after_phase d current phase.next

-- An explicit next, else the next in order.
unfoldable pub next_phase : PipelineDef → String → Option PhaseDef
unfolding after_found after_phase get_phase position
next_phase d current = after_found d current (get_phase d current)
