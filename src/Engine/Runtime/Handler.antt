-- ===== src/Engine/Runtime/Handler.antt =====
-- The part of runtime.rs that handles events.
use otters.Base.{
  String, Bool, true, false, Option, none, some, List, [], ◌∷◌, ◌++◌, ◌==◌, if◌then◌else◌,
}
use otters.Base.Int.{ℤ, is_zero, show_ℤ}
use otters.Base.Lists.{find}
use otters.Base.Text.{◌<>◌, join_path, strip_prefix, strip_suffix, is_some}
use otters.Base.Result.{or_fail}
use otters.Base.Exec.{pure, raise, lift, gets, ◌>>=◌}
use otters.Base.Dict.{Dict, get, values}
use otters.Core.Event.{
  Event, command_invoked, worker_wake, session_started, session_output, session_exited, timer,
  agent_done, agent_error, shell_completed, custom,
}
use otters.Core.Effect.{Effect, emit, persist, worktree_add}
use otters.Core.Operation.{
  PhaseStatus, completed, workspace_create, pipeline_create, default_init_phase,
}
use otters.Core.Pipeline.{Pipeline, transition, same_session}
use otters.Storage.State
use otters.Runbook.Template.{get_or}
use otters.Runbook.Command.{RunDirective, shell, agent, pipeline, strategy}
use otters.Runbook.Pipeline.{PhaseDef, PipelineDef, first_phase}
use otters.Runbook.Book.{get_command, get_pipeline}
use otters.Engine.Error.{
  RuntimeError, pipeline_not_found, command_not_found, pipeline_def_not_found,
  invalid_run_directive,
}
use otters.Engine.Machine.{Env, Action, ask}
use otters.Engine.Events.{handle_custom_event}
use otters.Engine.SessionLog.{and_then}
use otters.Engine.Runtime.Phase.{Setup, run_effects, start_phase, advance_pipeline, fail_pipeline}
use otters.Engine.Runtime.Session.{handle_session_monitor}

abbrev pub initial_phase : Option PhaseDef → String
initial_phase none = default_init_phase
initial_phase (some p) = p.name

is_completed : PhaseStatus → Bool
is_completed completed = true
is_completed _ = false

-- The pipeline that a timer's id names: `session:<pipeline_id>:check`.
unfoldable pub monitored_pipeline : String → Option String
monitored_pipeline id =
    if is_some (strip_prefix id "session:")
    then (if is_some (strip_suffix id ":check")
        then some (get_or (and_then (strip_prefix id "session:") (λ s. strip_suffix s ":check")) id)
        else none)
    else none

module _ {V W : Type 0} (env : Env V W) (setup : Setup) where
  unfoldable pub create_effects :
      (pipeline_id name kind workspace initial : String) → Dict String → List (Effect V)
  create_effects pipeline_id name kind workspace initial args =
      persist (workspace_create pipeline_id workspace ("feature/" <> name))
      ∷ worktree_add ("feature/" <> name) workspace
      ∷ persist (pipeline_create pipeline_id kind name args initial)
      ∷ emit (
          custom "pipeline:created"
            (env.object (("id", pipeline_id) ∷ ("name", name) ∷ ("kind", kind) ∷ [])))
      ∷ []

  unfoldable pub start_first :
      Option PhaseDef → String → Dict String → String → Action W RuntimeError (List (Event V))
  start_first none pipeline_id args workspace = pure []
  start_first (some phase) pipeline_id args workspace =
      start_phase env setup pipeline_id phase.name args workspace

  unfoldable pub create_pipeline :
      String → PipelineDef → Dict String → Action W RuntimeError (List (Event V))
  create_pipeline kind pipeline_def args = do
    pipeline_id ← ask env.next_id
    let name = get_or (get args "name") pipeline_id
    let workspace = join_path setup.worktree_root name
    created ← run_effects env setup (
        create_effects pipeline_id name kind workspace (initial_phase (first_phase pipeline_def))
          args)
    events ← start_first (first_phase pipeline_def) pipeline_id args workspace
    pure (created ++ events)

  unfoldable pub run_command : RunDirective → Dict String → Action W RuntimeError (List (Event V))
  run_command (pipeline name) args = do
    pipeline_def ← lift (or_fail (get_pipeline setup.runbook name) (pipeline_def_not_found name))
    create_pipeline name pipeline_def args
  run_command (shell cmd) args = raise (invalid_run_directive "command" ("shell (" <> cmd <> ")"))
  run_command (agent name) args = raise (invalid_run_directive "command" ("agent (" <> name <> ")"))
  run_command (strategy name) args =
      raise (invalid_run_directive "command" ("strategy (" <> name <> ")"))

  unfoldable pub handle_command : String → Dict String → Action W RuntimeError (List (Event V))
  handle_command command args = do
    cmd_def ← lift (or_fail (get_command setup.runbook command) (command_not_found command))
    run_command cmd_def.run args

  unfoldable pub session_exit :
      ℤ → String → Option Pipeline → Action W RuntimeError (List (Event V))
  unfolding is_completed
  session_exit exit_code session_id none = pure []
  session_exit exit_code session_id (some p) =
      let (new_pipeline, effects) = transition p (session_exited session_id exit_code) in
      do
        events ← run_effects env setup effects
        more ←
            (if is_completed new_pipeline.phase_status
              then advance_pipeline env setup new_pipeline
              else pure [])
        pure (events ++ more)

  unfoldable pub handle_session_exit : String → ℤ → Action W RuntimeError (List (Event V))
  handle_session_exit session_id exit_code = do
    found ← gets (λ m. find (λ p. same_session p.session_id session_id) (values m.state.pipelines))
    session_exit exit_code session_id found

  -- `none` is `AgentDone`, and an error is `AgentError`.
  unfoldable pub agent_event : Option String → Pipeline → Action W RuntimeError (List (Event V))
  agent_event none p = advance_pipeline env setup p
  agent_event (some error) p = fail_pipeline env setup p error

  unfoldable pub handle_agent_event :
      String → Option String → Action W RuntimeError (List (Event V))
  handle_agent_event pipeline_id error = do
    found ← gets (λ m. State.get_pipeline m.state pipeline_id)
    p ← lift (or_fail found (pipeline_not_found pipeline_id))
    agent_event error p

  unfoldable pub monitor_timer : Option String → Action W RuntimeError (List (Event V))
  monitor_timer none = pure []
  monitor_timer (some pipeline_id) = handle_session_monitor env setup pipeline_id

  unfoldable pub handle_timer : String → Action W RuntimeError (List (Event V))
  handle_timer id = monitor_timer (monitored_pipeline id)

  unfoldable pub handle_shell_completed :
      (pipeline_id phase : String) → ℤ → Action W RuntimeError (List (Event V))
  handle_shell_completed pipeline_id phase exit_code = do
    found ← gets (λ m. get m.state.pipelines pipeline_id)
    p ← lift (or_fail found (pipeline_not_found pipeline_id))
    if p.phase == phase
        then (if is_zero exit_code
            then advance_pipeline env setup p
            else fail_pipeline env setup p ("shell exited with code " <> show_ℤ exit_code))
        else pure []

  unfoldable pub handle_event : Event V → Action W RuntimeError (List (Event V))
  handle_event (command_invoked command args) = handle_command command args
  handle_event (session_exited session_id exit_code) = handle_session_exit session_id exit_code
  handle_event (agent_done pipeline_id) = handle_agent_event pipeline_id none
  handle_event (agent_error pipeline_id error) = handle_agent_event pipeline_id (some error)
  handle_event (shell_completed pipeline_id phase exit_code) =
      handle_shell_completed pipeline_id phase exit_code
  handle_event (timer id) = handle_timer id
  handle_event (custom name value) = handle_custom_event env name value
  handle_event (worker_wake worker) = pure []
  handle_event (session_started session_id) = pure []
  handle_event (session_output session_id output) = pure []
