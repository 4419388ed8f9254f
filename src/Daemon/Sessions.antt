-- ===== src/Daemon/Sessions.antt =====
-- `check_sessions` of lifecycle.rs and the arm of main.rs that acts on what it finds.
use otters.Base.{String, Bool, true, false, Option, none, some, List, [], ◌∷◌, ◌++◌, if◌then◌else◌}
use otters.Base.Result.{Result, ok, err}
use otters.Base.Dict.{values}
use otters.Core.Pipeline.{Pipeline, is_terminal}
use otters.Storage.State.{MaterializedState}
use otters.Engine.Error.{SessionError}
use otters.Engine.Machine.{Env}
use otters.Engine.Runtime.{Setup, handle_tmux_exited, handle_claude_exited}
use otters.Daemon.Lifecycle.{Daemon}

pub data SessionEvent : Type 0 where
  tmux_exited : (pipeline_id : String) → SessionEvent
  claude_exited : (pipeline_id : String) → SessionEvent

-- The answers of the session adapter at the time of the check.
pub record Probe : Type 0 where
  pub is_alive : String → Result SessionError Bool
  pub is_process_running : (id pattern : String) → Result SessionError Bool

claude_event : String → Result SessionError Bool → List SessionEvent
claude_event pipeline_id (ok false) = claude_exited pipeline_id ∷ []
claude_event pipeline_id (ok true) = []
claude_event pipeline_id (err e) = []

session_event : Probe → String → String → Result SessionError Bool → List SessionEvent
unfolding claude_event
session_event probe pipeline_id session_id (ok false) = tmux_exited pipeline_id ∷ []
session_event probe pipeline_id session_id (err e) = []
session_event probe pipeline_id session_id (ok true) =
    claude_event pipeline_id (probe.is_process_running session_id "claude")

unfoldable pub check_session : Probe → Pipeline → Option String → List SessionEvent
unfolding session_event
check_session probe p none = []
check_session probe p (some session_id) =
    session_event probe p.id session_id (probe.is_alive session_id)

unfoldable pub check_pipelines : Probe → List Pipeline → List SessionEvent
check_pipelines probe [] = []
check_pipelines probe (p ∷ ps) =
    (if is_terminal p then [] else check_session probe p p.session_id) ++ check_pipelines probe ps

unfoldable pub check_sessions : Probe → MaterializedState → List SessionEvent
unfolding check_pipelines
check_sessions probe s = check_pipelines probe (values s.pipelines)

-- Errors are logged, and the events that a handler returns are dropped.
module _ {V W : Type 0} (env : Env V W) (setup : Setup) where
  unfoldable pub on_session_event : SessionEvent → Daemon W → Daemon W
  on_session_event (tmux_exited pipeline_id) d = record d {
    machine = (handle_tmux_exited env setup pipeline_id d.machine).1;
  }
  on_session_event (claude_exited pipeline_id) d = record d {
    machine = (handle_claude_exited env setup pipeline_id d.machine).1;
  }

  unfoldable pub on_session_events : List SessionEvent → Daemon W → Daemon W
  on_session_events [] d = d
  on_session_events (e ∷ es) d = on_session_events es (on_session_event e d)
