-- ===== src/Engine/Frame/Handlers.antt =====
-- What the handlers of events keep.
use otters.Base.{String, Option, none, some}
use otters.Base.Int.{ℤ}
use otters.Base.Exec.{Keeps, keeps_rules, Keeps-pure}
use otters.Base.Dict.{Dict}
use otters.Core.Event.{
  Event, command_invoked, session_exited, timer, agent_done, agent_error, shell_completed, custom,
}
use otters.Core.Pipeline.{Pipeline}
use otters.Runbook.Command.{RunDirective, pipeline}
use otters.Runbook.Pipeline.{PhaseDef, PipelineDef}
use otters.Engine.Machine.{Env, Machine}
use otters.Engine.Runtime.{
  Setup, start_first, create_pipeline, run_command, handle_command, session_exit,
  handle_session_exit, agent_event, handle_agent_event, monitor_timer, handle_timer,
  handle_shell_completed, handle_event,
}
use otters.Engine.Frame.Effects.{Framed, Keeps-ask, handle_custom_event-Keeps}
use otters.Engine.Frame.Phases.{
  advance_pipeline-Keeps, fail_pipeline-Keeps, run_effects-Keeps, start_phase-Keeps,
}
use otters.Engine.Frame.Sessions.{handle_session_monitor-Keeps}

module _ {V W : Type 0} {env : Env V W} {P : Machine W → Type 0} (fr : Framed env P)
    (setup : Setup) where
  start_first-Keeps :
      (phase : Option PhaseDef) (pipeline_id : String) (inputs : Dict String) (workspace : String)
      → Keeps P (start_first env setup phase pipeline_id inputs workspace)
  unfolding start_first
  start_first-Keeps none pipeline_id inputs workspace = Keeps-pure _
  start_first-Keeps (some phase) pipeline_id inputs workspace = (start_phase-Keeps fr setup) _ _ _ _

  create_pipeline-Keeps :
      (kind : String) (d : PipelineDef) (args : Dict String)
      → Keeps P (create_pipeline env setup kind d args)
  unfolding create_pipeline
  create_pipeline-Keeps kind d args =
      search (keeps_rules, Keeps-ask fr, (run_effects-Keeps fr setup), start_first-Keeps) depth 9

  run_command-Keeps :
      (run : RunDirective) (args : Dict String) → Keeps P (run_command env setup run args)
  unfolding run_command
  run_command-Keeps (pipeline name) args = search (keeps_rules, create_pipeline-Keeps)
  run_command-Keeps _ args = search keeps_rules

  handle_command-Keeps :
      (command : String) (args : Dict String) → Keeps P (handle_command env setup command args)
  unfolding handle_command
  handle_command-Keeps command args = search (keeps_rules, run_command-Keeps)

  session_exit-Keeps :
      (exit_code : ℤ) (session_id : String) (p : Option Pipeline)
      → Keeps P (session_exit env setup exit_code session_id p)
  unfolding session_exit
  session_exit-Keeps exit_code session_id none = Keeps-pure _
  session_exit-Keeps exit_code session_id (some p) =
      search (keeps_rules, (run_effects-Keeps fr setup), (advance_pipeline-Keeps fr setup))

  agent_event-Keeps :
      (error : Option String) (p : Pipeline) → Keeps P (agent_event env setup error p)
  unfolding agent_event
  agent_event-Keeps none p = (advance_pipeline-Keeps fr setup) p
  agent_event-Keeps (some error) p = (fail_pipeline-Keeps fr setup) p error

  monitor_timer-Keeps : (id : Option String) → Keeps P (monitor_timer env setup id)
  unfolding monitor_timer
  monitor_timer-Keeps none = Keeps-pure _
  monitor_timer-Keeps (some id) = (handle_session_monitor-Keeps fr setup) id

  -- Whatever the event, and whether it is handled or fails.
  pub handle_event-Keeps : (event : Event V) → Keeps P (handle_event env setup event)
  unfolding handle_event handle_session_exit handle_agent_event handle_timer handle_shell_completed
  handle_event-Keeps (command_invoked command args) = handle_command-Keeps command args
  handle_event-Keeps (session_exited session_id exit_code) =
      search (keeps_rules, session_exit-Keeps)
  handle_event-Keeps (agent_done pipeline_id) = search (keeps_rules, agent_event-Keeps) depth 9
  handle_event-Keeps (agent_error pipeline_id error) =
      search (keeps_rules, agent_event-Keeps) depth 9
  handle_event-Keeps (shell_completed pipeline_id phase exit_code) =
      search (keeps_rules, (advance_pipeline-Keeps fr setup), (fail_pipeline-Keeps fr setup)) depth
        12
  handle_event-Keeps (timer id) = monitor_timer-Keeps _
  handle_event-Keeps (custom name value) = (handle_custom_event-Keeps fr) name value
  handle_event-Keeps _ = Keeps-pure _
