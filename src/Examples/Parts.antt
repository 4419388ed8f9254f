-- ===== src/Examples/Parts.antt =====
-- The theorems on the parts, each on a small input.
use otters.Base.{
  ◌<◌, String, true, ◌≡◌, ◌↔◌, refl, none, some, [], ◌∷◌, inl, inr, sym, ◌==◌, eq_iff, Bool-cases,
  if◌then◌else◌,
}
use text.Mathlib.TextLemmas.{append-nil}
use otters.Base.Result.{ok, err}
use otters.Base.Dict.{empty, get, lookup}
use otters.Core.Event.{agent_error}
use otters.Core.Pipeline.{transition}
use otters.Core.Pipeline.Failure.{IsRuled, transition-IsRuled}
use otters.Runbook.Command.{CommandDef, shell, validate_args, parse_args}
use otters.Runbook.Command.Arguments.{AllGiven, validate_args-AllGiven}
use otters.Runbook.Pipeline.{PhaseDef, PipelineDef, get_phase, next_phase}
use otters.Runbook.Pipeline.Order.{following, next_phase-following}
use otters.Runbook.Template.{Templates, VarPiece, EnvPiece, var, source}
use otters.Runbook.Agent.{AgentAction, action_of}
use otters.Runbook.Agent
use otters.Engine.Error.{RuntimeError}
use otters.Engine.Monitor.{build_action_effects}
use otters.Engine.Monitor.Nudge.{build_action_effects-err}
use otters.Engine.Scheduler.Deadline.{fired_timers-next_deadline}
use otters.Engine.Scheduler.{next_deadline, Scheduler, fired_timers}
use otters.Engine.Scheduler.Firing.{IsScheduler, fires, due_at, fired_timers-due}
use otters.Examples.World.{env, fix}

transition-IsRuled_example :
    IsRuled {V = Unit {0}} fix
      (agent_error "abc" "no credit")
      (transition fix (agent_error "abc" "no credit"))
transition-IsRuled_example = transition-IsRuled fix (agent_error "abc" "no credit")

abbrev two_phases : PipelineDef
two_phases = record {
  name = "ship";
  inputs = [];
  defaults = empty;
  phases =
      record { name = "build"; run = shell "make"; next = none; on_fail = none }
      ∷ record { name = "test"; run = shell "make test"; next = none; on_fail = none }
      ∷ [];
}

first_of : (p : PhaseDef) × (get_phase two_phases "build" ≡ some p) × (p.next ≡ none)
unfolding get_phase
first_of = (_, refl, refl)

next_phase-following_example : next_phase two_phases "build" ≡ following "build" two_phases.phases
next_phase-following_example =
    next_phase-following two_phases "build" first_of.0 first_of.1 first_of.2

-- A template engine that knows one template with a variable in it.
abbrev one_variable : Templates
one_variable = record {
  find_vars = λ s.
      if s == "make {target}"
      then VarPiece.text "make " ∷ var "{target}" "target" ∷ []
      else VarPiece.text s ∷ [];
  find_envs = λ s. EnvPiece.text s ∷ [];
  env_var = λ s. none;
}

cut : (s : String) → source (one_variable.find_vars s) ≡ s
unfolding source
cut s = elim (Bool-cases (s == "make {target}")) [
  | inl y ↦ rw y (sym ((eq_iff s "make {target}").0 y))
  | inr n ↦ rw n (append-nil s)
]

absent : get (empty {V = String}) "target" ≡ none
unfolding get empty
absent = refl

abbrev greet : CommandDef
greet = record {
  name = "greet";
  args = record {
    positional = record { name = "who"; required = true } ∷ [];
    flags = [];
    options = record { name = "tone"; short = none; required = true } ∷ [];
    variadic = some (record { name = "rest"; required = true });
  };
  defaults = record { entries = ("tone", "warm") ∷ [] };
  run = shell "echo";
}

accepted : validate_args greet ("you" ∷ "and" ∷ "me" ∷ []) empty ≡ ok tt
unfolding validate_args get empty
accepted = refl

validate_args-AllGiven_example :
    AllGiven greet.args (parse_args greet ("you" ∷ "and" ∷ "me" ∷ []) empty)
validate_args-AllGiven_example =
    validate_args-AllGiven greet ("you" ∷ "and" ∷ "me" ∷ []) empty accepted

abbrev two_timers : Scheduler
two_timers = record {
  timers = record {
    entries = ("a", record { fires_at = 5 }) ∷ ("b", record { fires_at = 50 }) ∷ [];
  };
}

two_timers-IsScheduler : IsScheduler two_timers
unfolding lookup
two_timers-IsScheduler = record { distinct = (refl, (refl, tt)) }

fired_timers-due_example :
    (fires "a" (fired_timers {V = Unit {0}} two_timers 10).0
      ≡ due_at 10 (get two_timers.timers "a"))
    × (get (fired_timers {V = Unit {0}} two_timers 10).1.timers "a"
        ≡ (if due_at 10 (get two_timers.timers "a") then none else get two_timers.timers "a"))
    × IsScheduler (fired_timers {V = Unit {0}} two_timers 10).1
fired_timers-due_example = fired_timers-due (Unit {0}) two_timers 10 "a" two_timers-IsScheduler

deadline : next_deadline two_timers ≡ some 5
unfolding next_deadline
deadline = refl

fired_timers-next_deadline_example : ((fired_timers {V = Unit {0}} two_timers 3).0 ≡ []) ↔ (3 < 5)
fired_timers-next_deadline_example = fired_timers-next_deadline (Unit {0}) two_timers 3 5 deadline

build_action_effects-err_example :
    ((e : RuntimeError) × (build_action_effects env fix Agent.init
          (Agent.with_message AgentAction.nudge "go on")
          "idle"
          empty
        ≡ err e))
    ↔ ((action_of (Agent.with_message AgentAction.nudge "go on") ≡ AgentAction.nudge)
        × (fix.session_id ≡ none))
build_action_effects-err_example =
    build_action_effects-err env fix Agent.init (Agent.with_message AgentAction.nudge "go on")
      "idle" empty
