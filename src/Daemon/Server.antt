-- ===== src/Daemon/Server.antt =====
-- server.rs and the messages of protocol.rs of crates/daemon: requests and their responses.
use otters.Base.{ℕ, ◌-◌, ◌/◌, String, Bool, true, not, Option, none, some, List, [], ◌∷◌, map}
use otters.Base.Text.{◌<>◌}
use otters.Base.Lists.{length, filter}
use otters.Base.Result.{ok, err}
use otters.Base.Dict.{Dict, get, values}
use otters.Core.Clock.{Instant}
use otters.Core.Event.{Event, custom, agent_error}
use otters.Core.Operation.{PhaseStatus, pending, running, waiting, completed, failed}
use otters.Core.Pipeline.{Pipeline, is_terminal}
use otters.Storage.State
use otters.Storage.State.{MaterializedState, Session}
use otters.Engine.Error.{show_wal}
use otters.Engine.Machine.{Env}
use otters.Engine.Runtime.{Setup}
use otters.Engine.SessionLog.{and_then}
use otters.Runbook.Parser.{show_parse}
use otters.Daemon.Lifecycle.{
  Daemon, LifecycleError, Outcome, project_not_found, no_state_dir, lock_failed, bind_failed, io,
  runbook, wal, runtime, process_event,
}

pub data Query : Type 0 where
  list_pipelines : Query
  get_pipeline : (id : String) → Query
  list_sessions : Query

pub data Request (V : Type 0) : Type 0 where
  ping : Request V
  hello : (version : String) → Request V
  event : Event V → Request V
  query : Query → Request V
  shutdown : Request V
  status : Request V
  session_send : (id input : String) → Request V
  pipeline_resume : (id : String) → Request V
  pipeline_fail : (id error : String) → Request V

pub record PipelineSummary : Type 0 where
  pub id : String
  pub name : String
  pub kind : String
  pub phase : String
  pub phase_status : String

pub record PipelineDetail : Type 0 where
  pub id : String
  pub name : String
  pub kind : String
  pub phase : String
  pub phase_status : String
  pub inputs : Dict String
  pub workspace_path : Option String
  pub session_id : Option String
  pub error : Option String

pub record SessionSummary : Type 0 where
  pub id : String
  pub pipeline_id : Option String

pub data Response : Type 0 where
  done : Response
  pong : Response
  hello : (version : String) → Response
  shutting_down : Response
  event : (accepted : Bool) → Response
  pipelines : List PipelineSummary → Response
  pipeline : Option PipelineDetail → Response
  sessions : List SessionSummary → Response
  status : (uptime_secs pipelines_active sessions_active : ℕ) → Response
  error : (message : String) → Response

-- `format!("{:?}", status)`
abbrev pub show_status : PhaseStatus → String
show_status pending = "Pending"
show_status running = "Running"
show_status waiting = "Waiting"
show_status completed = "Completed"
show_status failed = "Failed"

abbrev pub summary : Pipeline → PipelineSummary
summary p = record {
  id = p.id;
  name = p.name;
  kind = p.kind;
  phase = p.phase;
  phase_status = show_status p.phase_status;
}

abbrev pub detail : Pipeline → PipelineDetail
detail p = record {
  id = p.id;
  name = p.name;
  kind = p.kind;
  phase = p.phase;
  phase_status = show_status p.phase_status;
  inputs = p.inputs;
  workspace_path = p.workspace_path;
  session_id = p.session_id;
  error = p.error;
}

abbrev pub session_summary : Session → SessionSummary
session_summary s = record { id = s.id; pipeline_id = some s.pipeline_id }

abbrev pub detail_of : Option Pipeline → Option PipelineDetail
detail_of none = none
detail_of (some p) = some (detail p)

unfoldable pub handle_query : MaterializedState → Query → Response
handle_query s list_pipelines = pipelines (map summary (values s.pipelines))
handle_query s (get_pipeline id) = pipeline (detail_of (State.get_pipeline s id))
handle_query s list_sessions = sessions (map session_summary (values s.sessions))

-- `LifecycleError::to_string`
abbrev pub show_lifecycle : LifecycleError → String
show_lifecycle (project_not_found path e) = "Project not found at " <> path <> ": " <> e
show_lifecycle no_state_dir = "Could not determine state directory"
show_lifecycle (lock_failed e) = "Failed to acquire lock: daemon already running?"
show_lifecycle (bind_failed path e) = "Failed to bind socket at " <> path <> ": " <> e
show_lifecycle (io e) = "IO error: " <> e
show_lifecycle (runbook e) = "Runbook parse error: " <> show_parse e
show_lifecycle (wal e) = "WAL error: " <> show_wal e
show_lifecycle (runtime message) = "Runtime error: " <> message

-- The session that a request means: a session's id, or that of a pipeline.
abbrev or_pipeline : MaterializedState → String → Option Session → Option String
or_pipeline s id (some session) = some id
or_pipeline s id none = and_then (get s.pipelines id) (λ p. p.session_id)

unfoldable pub session_target : MaterializedState → String → Option String
session_target s id = or_pipeline s id (get s.sessions id)

-- `Status`: the pipelines that are not terminal, and the sessions.
unfoldable pub active_pipelines : MaterializedState → ℕ
active_pipelines s = length (filter (λ p. not (is_terminal p)) (values s.pipelines))

module _ {V W : Type 0} (env : Env V W) (setup : Setup) where
  -- The response to an event that was processed.
  unfoldable pub answer : Response → Outcome W (Unit {0}) → Option (Response × Daemon W)
  answer r none = none
  answer r (some (ok u, d)) = some (r, d)
  answer r (some (err e, d)) = some (error (show_lifecycle e), d)

  unfoldable pub send_to :
      (fuel : ℕ) → (id input : String) → Daemon W → Option String → Option (Response × Daemon W)
  unfolding answer
  send_to fuel id input d none = some (error ("Session not found: " <> id), d)
  send_to fuel id input d (some sid) = answer done (
      process_event env setup fuel
        (custom "session:send" (env.object (("session_id", sid) ∷ ("input", input) ∷ []))) d)

  unfoldable pub handle_request :
      (fuel : ℕ)
      → (version : String) → (now : Instant) → Daemon W
      → Request V
      → Option (Response × Daemon W)
  unfolding send_to
  handle_request fuel version now d ping = some (pong, d)
  handle_request fuel version now d (hello v) = some (hello version, d)
  handle_request fuel version now d (event e) =
      answer (event true) (process_event env setup fuel e d)
  handle_request fuel version now d (query q) = some (handle_query d.machine.state q, d)
  handle_request fuel version now d shutdown =
      some (shutting_down, record d { shutdown_requested = true })
  handle_request fuel version now d status = some (
    status ((now - d.start_time) / 1000) (active_pipelines d.machine.state)
        (length (values d.machine.state.sessions)),
    d,
  )
  handle_request fuel version now d (session_send id input) =
      send_to fuel id input d (session_target d.machine.state id)
  handle_request fuel version now d (pipeline_resume id) = answer done (
      process_event env setup fuel
        (custom "pipeline:resume" (env.object (("pipeline_id", id) ∷ []))) d)
  handle_request fuel version now d (pipeline_fail id message) =
      answer done (process_event env setup fuel (agent_error id message) d)
