-- ===== src/Engine/Unlinked.antt =====
-- The session monitor of runtime.rs on a pipeline without a workspace.
use otters.Base.{String, false, ◌≡◌, none, some}
use otters.Base.Result.{ok, err}
use otters.Base.Exec.{◌>>=◌}
use otters.Base.Dict.{get}
use otters.Core.Event.{timer}
use otters.Core.Pipeline.{Pipeline, is_terminal}
use otters.Storage.State.Lookup.{get_pipeline_exact}
use otters.Runbook.Agent.{AgentDef}
use otters.Engine.Error.{pipeline_not_found}
use otters.Engine.Machine.{Env, Machine}
use otters.Engine.Monitor.{get_agent_def}
use otters.Engine.Spawn.{session_timer}
use otters.Engine.Runtime.{
  Setup, monitor_timer, handle_timer, monitor_active, handle_session_monitor, handle_event,
}
use otters.Engine.Runtime.Timer.{monitored_pipeline-session_timer}

-- A session timer that fires for a stored pipeline which is in an agent's phase, is not terminal and
-- has no workspace path ends in an error and changes nothing: no next timer is set.
pub handle_event-no_workspace :
    {V W : Type 0} (env : Env V W) (setup : Setup) (m : Machine W) (id : String) (p : Pipeline)
    (agent_def : AgentDef)
    → get m.state.pipelines id ≡ some p
    → is_terminal p ≡ false
    → get_agent_def setup.runbook p ≡ ok agent_def
    → p.workspace_path ≡ none
    → handle_event env setup (timer (session_timer id)) m
      ≡ (err (pipeline_not_found "no workspace"), m)
unfolding handle_event handle_timer monitor_timer handle_session_monitor monitor_active ◌>>=◌
handle_event-no_workspace env setup m id p agent_def stored running agent no_workspace = rw (
  monitored_pipeline-session_timer id,
  get_pipeline_exact m.state id p stored,
  running,
  agent,
  no_workspace,
)
