-- ===== src/Engine/Runtime/Session.antt =====
-- The part of runtime.rs that watches the sessions of agents.
use otters.Base.{String, Option, none, some, List, [], ◌∷◌, ◌++◌, if◌then◌else◌}
use otters.Base.Result.{ok, or_fail}
use otters.Base.Exec.{pure, lift, gets, ◌>>=◌, ◌>>◌}
use otters.Base.Dict.{Dict, get, insert}
use otters.Core.Event.{Event}
use otters.Core.Effect.{kill, worktree_remove}
use otters.Core.Pipeline.{Pipeline, is_terminal}
use otters.Storage.State
use otters.Runbook.Template.{get_or}
use otters.Runbook.Agent.{AgentDef, action_for}
use otters.Engine.Error.{RuntimeError, pipeline_not_found}
use otters.Engine.Machine.{Env, Action}
use otters.Engine.SessionLog.{
  SessionState, working, waiting_for_input, unknown, failed, check_state, find_session_log,
}
use otters.Engine.Monitor.{
  ActionEffects, failure_to_error_type, failure_to_message, get_agent_def, build_action_effects,
}
use otters.Engine.Runtime.Phase.{
  Setup, run_effects, run_effect, start_session_monitor, spawn_agent, advance_pipeline,
  fail_pipeline,
}

module _ {V W : Type 0} (env : Env V W) (setup : Setup) where
  unfoldable pub kill_old : Option String → Action W RuntimeError (Unit {0})
  kill_old none = pure tt
  kill_old (some sid) = run_effect env setup (kill sid)

  -- `Some(Some(path))`
  unfoldable pub remove_old : Option (Option String) → Action W RuntimeError (Unit {0})
  remove_old (some (some path)) = run_effect env setup (worktree_remove path)
  remove_old (some none) = pure tt
  remove_old none = pure tt

  unfoldable pub kill_and_respawn :
      Option String
      → Option (Option String)
      → (pipeline_id agent_name : String) → Dict String
      → Action W RuntimeError (List (Event V))
  kill_and_respawn kill_session workspace pipeline_id agent_name inputs = do
    kill_old kill_session
    remove_old workspace
    spawn_agent env setup pipeline_id agent_name inputs

  unfoldable pub execute_action_effects :
      Pipeline → ActionEffects V → Action W RuntimeError (List (Event V))
  execute_action_effects p (ActionEffects.nudge effects) =
      run_effects env setup (effects ++ start_session_monitor env setup p.id ∷ [])
  execute_action_effects p ActionEffects.advance_pipeline = advance_pipeline env setup p
  execute_action_effects p (ActionEffects.fail_pipeline error) = fail_pipeline env setup p error
  execute_action_effects p (ActionEffects.restart kill_session workspace agent_name inputs) =
      kill_and_respawn kill_session (some workspace) p.id agent_name inputs
  execute_action_effects p (ActionEffects.recover kill_session agent_name inputs) =
      kill_and_respawn kill_session none p.id agent_name inputs
  execute_action_effects p (ActionEffects.escalate effects) = run_effects env setup effects

  abbrev watcher_path : Option String → String → String
  watcher_path none log_path = log_path
  watcher_path (some path) log_path = path

  -- The first path that was found for a pipeline stays its watcher's.
  unfoldable pub watch_log : String → String → Action W RuntimeError SessionState
  watch_log pipeline_id log_path m =
      let path = watcher_path (get m.watchers pipeline_id) log_path in
      (
        ok (check_state env m.world path),
        record m { watchers = insert m.watchers pipeline_id path },
      )

  unfoldable pub act_on_state :
      (pipeline_id : String)
      → Pipeline
      → AgentDef
      → SessionState
      → Action W RuntimeError (List (Event V))
  act_on_state pipeline_id p agent_def working = do
    run_effect env setup (start_session_monitor env setup pipeline_id)
    pure []
  act_on_state pipeline_id p agent_def unknown = do
    run_effect env setup (start_session_monitor env setup pipeline_id)
    pure []
  act_on_state pipeline_id p agent_def waiting_for_input = do
    effects ← lift (build_action_effects env p agent_def agent_def.on_idle "idle" p.inputs)
    execute_action_effects p effects
  act_on_state pipeline_id p agent_def (failed reason) = do
    effects ← lift (
        build_action_effects env p agent_def
          (action_for agent_def.on_error (failure_to_error_type reason)) (failure_to_message reason)
          p.inputs)
    execute_action_effects p effects

  unfoldable pub check_log :
      String → Pipeline → AgentDef → Option String → Action W RuntimeError (List (Event V))
  check_log pipeline_id p agent_def none = do
    run_effect env setup (start_session_monitor env setup pipeline_id)
    pure []
  check_log pipeline_id p agent_def (some log_path) = do
    state ← watch_log pipeline_id log_path
    act_on_state pipeline_id p agent_def state

  unfoldable pub monitor_active : String → Pipeline → Action W RuntimeError (List (Event V))
  monitor_active pipeline_id p = do
    agent_def ← lift (get_agent_def setup.runbook p)
    workspace ← lift (or_fail p.workspace_path (pipeline_not_found "no workspace"))
    log_path ← gets (λ m. find_session_log env m.world workspace (get_or p.session_id ""))
    check_log pipeline_id p agent_def log_path

  unfoldable pub handle_session_monitor : String → Action W RuntimeError (List (Event V))
  handle_session_monitor pipeline_id = do
    found ← gets (λ m. State.get_pipeline m.state pipeline_id)
    p ← lift (or_fail found (pipeline_not_found pipeline_id))
    if is_terminal p then pure [] else monitor_active pipeline_id p

  unfoldable pub exit_active : Pipeline → Action W RuntimeError (List (Event V))
  exit_active p = do
    agent_def ← lift (get_agent_def setup.runbook p)
    effects ← lift (build_action_effects env p agent_def agent_def.on_exit "exit" p.inputs)
    execute_action_effects p effects

  unfoldable pub handle_claude_exited : String → Action W RuntimeError (List (Event V))
  handle_claude_exited pipeline_id = do
    found ← gets (λ m. State.get_pipeline m.state pipeline_id)
    p ← lift (or_fail found (pipeline_not_found pipeline_id))
    if is_terminal p then pure [] else exit_active p

  unfoldable pub handle_tmux_exited : String → Action W RuntimeError (List (Event V))
  handle_tmux_exited pipeline_id = do
    found ← gets (λ m. State.get_pipeline m.state pipeline_id)
    p ← lift (or_fail found (pipeline_not_found pipeline_id))
    fail_pipeline env setup p "tmux session exited"
