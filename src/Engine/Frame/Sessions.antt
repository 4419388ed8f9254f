-- ===== src/Engine/Frame/Sessions.antt =====
-- What the watch over sessions keeps.
use otters.Base.{String, Option, none, some}
use otters.Base.Exec.{Keeps, keeps_rules, Keeps-pure}
use otters.Base.Dict.{Dict}
use otters.Core.Pipeline.{Pipeline}
use otters.Runbook.Agent.{AgentDef}
use otters.Engine.Machine.{Env, Machine}
use otters.Engine.Runtime.{
  Setup, kill_old, remove_old, kill_and_respawn, execute_action_effects, watch_log, act_on_state,
  check_log, monitor_active, handle_session_monitor, exit_active, handle_claude_exited,
  handle_tmux_exited,
}
use otters.Engine.SessionLog.{SessionState}
use otters.Engine.Monitor.{ActionEffects}
use otters.Engine.Frame.Effects.{Framed}
use otters.Engine.Frame.Phases.{
  advance_pipeline-Keeps, fail_pipeline-Keeps, run_effect-Keeps, run_effects-Keeps,
  spawn_agent-Keeps,
}

module _ {V W : Type 0} {env : Env V W} {P : Machine W → Type 0} (fr : Framed env P)
    (setup : Setup) where
  kill_old-Keeps : (session : Option String) → Keeps P (kill_old env setup session)
  unfolding kill_old
  kill_old-Keeps none = Keeps-pure _
  kill_old-Keeps (some sid) = (run_effect-Keeps fr setup) _

  remove_old-Keeps : (w : Option (Option String)) → Keeps P (remove_old env setup w)
  unfolding remove_old
  remove_old-Keeps none = Keeps-pure _
  remove_old-Keeps (some none) = Keeps-pure _
  remove_old-Keeps (some (some path)) = (run_effect-Keeps fr setup) _

  kill_and_respawn-Keeps :
      (session : Option String) (w : Option (Option String)) (pipeline_id agent_name : String)
      (inputs : Dict String)
      → Keeps P (kill_and_respawn env setup session w pipeline_id agent_name inputs)
  unfolding kill_and_respawn
  kill_and_respawn-Keeps session w pipeline_id agent_name inputs =
      search (keeps_rules, kill_old-Keeps, remove_old-Keeps, (spawn_agent-Keeps fr setup))

  execute_action_effects-Keeps :
      (p : Pipeline) (effects : ActionEffects V)
      → Keeps P (execute_action_effects env setup p effects)
  unfolding execute_action_effects
  execute_action_effects-Keeps p (ActionEffects.nudge effects) = (run_effects-Keeps fr setup) _
  execute_action_effects-Keeps p (ActionEffects.escalate effects) = (run_effects-Keeps fr setup) _
  execute_action_effects-Keeps p ActionEffects.advance_pipeline =
      (advance_pipeline-Keeps fr setup) p
  execute_action_effects-Keeps p (ActionEffects.fail_pipeline error) =
      (fail_pipeline-Keeps fr setup) p error
  execute_action_effects-Keeps p (ActionEffects.restart s w a inputs) =
      kill_and_respawn-Keeps s (some w) p.id a inputs
  execute_action_effects-Keeps p (ActionEffects.recover s a inputs) =
      kill_and_respawn-Keeps s none p.id a inputs

  watch_log-Keeps :
      (pipeline_id log_path : String) → Keeps P (watch_log env setup pipeline_id log_path)
  unfolding watch_log
  watch_log-Keeps pipeline_id log_path = record { at = λ m h. fr.frame m m.scheduler _ m.world h }

  act_on_state-Keeps :
      (pipeline_id : String) (p : Pipeline) (d : AgentDef) (state : SessionState)
      → Keeps P (act_on_state env setup pipeline_id p d state)
  unfolding act_on_state
  act_on_state-Keeps pipeline_id p d (SessionState.failed reason) =
      search (keeps_rules, execute_action_effects-Keeps)
  act_on_state-Keeps pipeline_id p d SessionState.waiting_for_input =
      search (keeps_rules, execute_action_effects-Keeps)
  act_on_state-Keeps pipeline_id p d _ = search (keeps_rules, (run_effect-Keeps fr setup))

  check_log-Keeps :
      (pipeline_id : String) (p : Pipeline) (d : AgentDef) (path : Option String)
      → Keeps P (check_log env setup pipeline_id p d path)
  unfolding check_log
  check_log-Keeps pipeline_id p d none = search (keeps_rules, (run_effect-Keeps fr setup))
  check_log-Keeps pipeline_id p d (some path) =
      search (keeps_rules, watch_log-Keeps, act_on_state-Keeps)

  monitor_active-Keeps :
      (pipeline_id : String) (p : Pipeline) → Keeps P (monitor_active env setup pipeline_id p)
  unfolding monitor_active
  monitor_active-Keeps pipeline_id p = search (keeps_rules, check_log-Keeps) depth 9

  pub handle_session_monitor-Keeps :
      (pipeline_id : String) → Keeps P (handle_session_monitor env setup pipeline_id)
  unfolding handle_session_monitor
  handle_session_monitor-Keeps pipeline_id = search (keeps_rules, monitor_active-Keeps) depth 9

  exit_active-Keeps : (p : Pipeline) → Keeps P (exit_active env setup p)
  unfolding exit_active
  exit_active-Keeps p = search (keeps_rules, execute_action_effects-Keeps)

  pub handle_claude_exited-Keeps :
      (pipeline_id : String) → Keeps P (handle_claude_exited env setup pipeline_id)
  unfolding handle_claude_exited
  handle_claude_exited-Keeps pipeline_id = search (keeps_rules, exit_active-Keeps) depth 9

  pub handle_tmux_exited-Keeps :
      (pipeline_id : String) → Keeps P (handle_tmux_exited env setup pipeline_id)
  unfolding handle_tmux_exited
  handle_tmux_exited-Keeps pipeline_id =
      search (keeps_rules, (fail_pipeline-Keeps fr setup)) depth 9
