-- ===== src/Engine/Runtime/Phase.antt =====
-- The part of runtime.rs that starts, advances, fails and completes phases.
use otters.Base.{String, Bool, Option, none, some, List, [], ◌∷◌, ◌++◌, ◌&&◌, not, if◌then◌else◌}
use otters.Base.Text.{◌<>◌, join_path, is_some}
use otters.Base.Result.{or_fail}
use otters.Base.Exec.{pure, raise, lift, gets, mapping, ◌>>=◌, ◌>>◌}
use otters.Base.Dict.{Dict, empty, get}
use otters.Core.Clock.{from_secs}
use otters.Core.Event.{Event}
use otters.Core.Effect.{Effect, set_timer}
use otters.Core.Pipeline.{Pipeline, is_terminal, is_terminal_phase}
use otters.Storage.State
use otters.Runbook.Template.{interpolate}
use otters.Runbook.Command.{RunDirective, shell, agent, pipeline, strategy}
use otters.Runbook.Pipeline.{get_phase, next_phase}
use otters.Runbook.Book.{Runbook, get_pipeline, get_agent}
use otters.Engine.Error.{
  RuntimeError, pipeline_not_found, pipeline_def_not_found, agent_not_found, invalid_run_directive,
}
use otters.Engine.Machine.{Env, Action}
use otters.Engine.Executor.{execute, execute_all}
use otters.Engine.Phases.{
  phase_start_effects, phase_transition_effects, failure_transition_effects, failure_effects,
  completion_effects,
}
use otters.Engine.SessionLog.{and_then}
use otters.Engine.Spawn.{session_timer, template_vars, build_spawn_effects}

-- What a `Runtime` holds beside the executor.
pub record Setup : Type 0 where
  pub runbook : Runbook
  pub project_root : String
  pub worktree_root : String

-- Explicit next, else the order of the phases, else nothing.
unfoldable pub next_phase_name : Runbook → Pipeline → Option String
next_phase_name book p = and_then (get_pipeline book p.kind) λ d.
    and_then (get_phase d p.phase) λ phase_def. elim phase_def.next [
      | some next ↦ some next
      | none ↦ and_then (next_phase d p.phase) (λ pd. some pd.name)
    ]

-- The phase to go to when the current one fails.
unfoldable pub on_fail_name : Runbook → Pipeline → Option String
on_fail_name book p =
    and_then (get_pipeline book p.kind)
      λ d. and_then (get_phase d p.phase) λ phase_def. phase_def.on_fail

-- The pipeline's definition has a phase of that name.
unfoldable pub has_phase_def : Runbook → Pipeline → String → Bool
has_phase_def book p name = is_some (and_then (get_pipeline book p.kind) (λ d. get_phase d name))

unfoldable pub workspace_path : Setup → Pipeline → String
workspace_path setup p = elim p.workspace_path [
  | some path ↦ path
  | none ↦ join_path setup.worktree_root p.name
]

module _ {V W : Type 0} (env : Env V W) (setup : Setup) where
  unfoldable pub run_effects : List (Effect V) → Action W RuntimeError (List (Event V))
  run_effects effects = mapping RuntimeError.execute (execute_all env effects)

  -- One effect, whose event is dropped.
  unfoldable pub run_effect : Effect V → Action W RuntimeError (Unit {0})
  run_effect effect = do mapping RuntimeError.execute (execute env effect); pure tt

  unfoldable pub start_session_monitor : String → Effect V
  start_session_monitor pipeline_id = set_timer (session_timer pipeline_id) (from_secs 10)

  unfoldable pub complete_pipeline : Pipeline → Action W RuntimeError (List (Event V))
  complete_pipeline p = run_effects (completion_effects env p)

  unfoldable pub spawn_agent :
      (pipeline_id agent_name : String) → Dict String → Action W RuntimeError (List (Event V))
  spawn_agent pipeline_id agent_name inputs = do
    agent_def ← lift (or_fail (get_agent setup.runbook agent_name) (agent_not_found agent_name))
    found ← gets (λ m. State.get_pipeline m.state pipeline_id)
    p ← lift (or_fail found (pipeline_not_found pipeline_id))
    effects ←
        build_spawn_effects env agent_def p pipeline_id agent_name inputs (workspace_path setup p)
          setup.project_root
    run_effects (effects ++ start_session_monitor pipeline_id ∷ [])

  unfoldable pub dispatch_run :
      RunDirective
      → Pipeline
      → (pipeline_id phase_name : String) → Dict String
      → (workspace : String) → Action W RuntimeError (List (Event V))
  dispatch_run (shell cmd) p pipeline_id phase_name inputs workspace = run_effects (
      Effect.shell pipeline_id phase_name
        (interpolate env.templates cmd (template_vars inputs pipeline_id p.name workspace))
        workspace empty
      ∷ [])
  dispatch_run (agent name) p pipeline_id phase_name inputs workspace =
      spawn_agent pipeline_id name inputs
  dispatch_run (pipeline name) p pipeline_id phase_name inputs workspace =
      raise (invalid_run_directive ("phase " <> phase_name) ("nested pipeline (" <> name <> ")"))
  dispatch_run (strategy name) p pipeline_id phase_name inputs workspace =
      raise (invalid_run_directive ("phase " <> phase_name) ("strategy (" <> name <> ")"))

  unfoldable pub start_phase :
      (pipeline_id phase_name : String)
      → Dict String
      → (workspace : String) → Action W RuntimeError (List (Event V))
  start_phase pipeline_id phase_name inputs workspace = do
    found ← gets (λ m. get m.state.pipelines pipeline_id)
    p ← lift (or_fail found (pipeline_not_found pipeline_id))
    pipeline_def ←
        lift (or_fail (get_pipeline setup.runbook p.kind) (pipeline_def_not_found p.kind))
    phase_def ← lift (
        or_fail (get_phase pipeline_def phase_name)
          (pipeline_not_found ("phase " <> phase_name <> " not found")))
    started ← run_effects (phase_start_effects env pipeline_id phase_name)
    events ← dispatch_run phase_def.run p pipeline_id phase_name inputs workspace
    pure (started ++ events)

  -- A terminal name that the runbook does not define completes the pipeline.
  unfoldable pub enter_phase : Pipeline → String → Action W RuntimeError (List (Event V))
  enter_phase p next_phase =
      if not (has_phase_def setup.runbook p next_phase) && is_terminal_phase next_phase
      then complete_pipeline p
      else start_phase p.id next_phase p.inputs (workspace_path setup p)

  unfoldable pub advance_to : Pipeline → Option String → Action W RuntimeError (List (Event V))
  advance_to p (some next_phase) = do
    moved ← run_effects (phase_transition_effects env p next_phase)
    events ← enter_phase p next_phase
    pure (moved ++ events)
  advance_to p none = do
    moved ← run_effects (phase_transition_effects env p "done")
    events ← complete_pipeline p
    pure (moved ++ events)

  unfoldable pub advance_pipeline : Pipeline → Action W RuntimeError (List (Event V))
  advance_pipeline p =
      if is_terminal p then complete_pipeline p else advance_to p (next_phase_name setup.runbook p)

  unfoldable pub fail_to :
      Pipeline → String → Option String → Action W RuntimeError (List (Event V))
  fail_to p error (some on_fail) = do
    moved ← run_effects (failure_transition_effects env p on_fail error)
    events ← start_phase p.id on_fail p.inputs (workspace_path setup p)
    pure (moved ++ events)
  fail_to p error none = run_effects (failure_effects env p error)

  unfoldable pub fail_pipeline : Pipeline → String → Action W RuntimeError (List (Event V))
  fail_pipeline p error = fail_to p error (on_fail_name setup.runbook p)
