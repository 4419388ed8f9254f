-- ===== src/Engine/Frame/Phases.antt =====
-- What the moves between phases keep.
use otters.Base.{String, Option, none, some, List}
use otters.Base.Exec.{Keeps, keeps_rules}
use otters.Base.Dict.{Dict}
use otters.Core.Effect.{Effect}
use otters.Core.Pipeline.{Pipeline}
use otters.Runbook.Command.{RunDirective, agent, pipeline, strategy}
use otters.Runbook.Command
use otters.Engine.Machine.{Env, Machine}
use otters.Engine.Runtime.{
  Setup, run_effects, run_effect, complete_pipeline, spawn_agent, dispatch_run, start_phase,
  enter_phase, advance_to, advance_pipeline, fail_to, fail_pipeline,
}
use otters.Engine.Frame.Effects.{
  Framed, build_spawn_effects-Keeps, execute-Keeps, execute_all-Keeps,
}

module _ {V W : Type 0} {env : Env V W} {P : Machine W → Type 0} (fr : Framed env P)
    (setup : Setup) where
  pub run_effects-Keeps : (effects : List (Effect V)) → Keeps P (run_effects env setup effects)
  unfolding run_effects
  run_effects-Keeps effects = search (keeps_rules, (execute_all-Keeps fr))

  pub run_effect-Keeps : (effect : Effect V) → Keeps P (run_effect env setup effect)
  unfolding run_effect
  run_effect-Keeps effect = search (keeps_rules, (execute-Keeps fr))

  complete_pipeline-Keeps : (p : Pipeline) → Keeps P (complete_pipeline env setup p)
  unfolding complete_pipeline
  complete_pipeline-Keeps p = run_effects-Keeps _

  pub spawn_agent-Keeps :
      (pipeline_id agent_name : String) (inputs : Dict String)
      → Keeps P (spawn_agent env setup pipeline_id agent_name inputs)
  unfolding spawn_agent
  spawn_agent-Keeps pipeline_id agent_name inputs =
      search (keeps_rules, (build_spawn_effects-Keeps fr), run_effects-Keeps) depth 9

  dispatch_run-Keeps :
      (run : RunDirective) (p : Pipeline) (pipeline_id phase_name : String) (inputs : Dict String)
      (workspace : String)
      → Keeps P (dispatch_run env setup run p pipeline_id phase_name inputs workspace)
  unfolding dispatch_run
  dispatch_run-Keeps (Command.shell cmd) p pipeline_id phase_name inputs workspace =
      run_effects-Keeps _
  dispatch_run-Keeps (agent name) p pipeline_id phase_name inputs workspace =
      spawn_agent-Keeps pipeline_id name inputs
  dispatch_run-Keeps _ p pipeline_id phase_name inputs workspace = search keeps_rules

  pub start_phase-Keeps :
      (pipeline_id phase_name : String) (inputs : Dict String) (workspace : String)
      → Keeps P (start_phase env setup pipeline_id phase_name inputs workspace)
  unfolding start_phase
  start_phase-Keeps pipeline_id phase_name inputs workspace =
      search (keeps_rules, run_effects-Keeps, dispatch_run-Keeps) depth 12

  enter_phase-Keeps : (p : Pipeline) (next : String) → Keeps P (enter_phase env setup p next)
  unfolding enter_phase
  enter_phase-Keeps p next = search (keeps_rules, complete_pipeline-Keeps, start_phase-Keeps)

  advance_to-Keeps : (p : Pipeline) (next : Option String) → Keeps P (advance_to env setup p next)
  unfolding advance_to
  advance_to-Keeps p none = search (keeps_rules, run_effects-Keeps, complete_pipeline-Keeps)
  advance_to-Keeps p (some next) = search (keeps_rules, run_effects-Keeps, enter_phase-Keeps)

  pub advance_pipeline-Keeps : (p : Pipeline) → Keeps P (advance_pipeline env setup p)
  unfolding advance_pipeline
  advance_pipeline-Keeps p = search (keeps_rules, complete_pipeline-Keeps, advance_to-Keeps)

  fail_to-Keeps :
      (p : Pipeline) (error : String) (on_fail : Option String)
      → Keeps P (fail_to env setup p error on_fail)
  unfolding fail_to
  fail_to-Keeps p error none = run_effects-Keeps _
  fail_to-Keeps p error (some on_fail) = search (keeps_rules, run_effects-Keeps, start_phase-Keeps)

  pub fail_pipeline-Keeps :
      (p : Pipeline) (error : String) → Keeps P (fail_pipeline env setup p error)
  unfolding fail_pipeline
  fail_pipeline-Keeps p error = fail_to-Keeps p error _
