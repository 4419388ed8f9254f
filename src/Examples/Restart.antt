-- ===== src/Examples/Restart.antt =====
-- The theorems of Daemon, on a daemon that starts on a log and gets an agent's error.
use otters.Base.{false, String, ◌≡◌, refl, none, some, [], ◌∷◌}
use otters.Base.Text.{lines}
use otters.Base.Int.{pos}
use otters.Base.Result.{ok, err}
use otters.Base.Dict.{get, empty}
use otters.Core.Event.{Event, agent_error, session_exited}
use otters.Core.Pipeline.{Pipeline, new}
use otters.Storage.State.{replay_state}
use otters.Storage.State.Times.{erase, erase-replay_state}
use otters.Storage.Wal.{open_wal, replay}
use otters.Storage.Wal.Replay.{IsLog}
use otters.Engine.Machine.{Machine}
use otters.Engine.Runtime.{handle_event}
use otters.Engine.Scheduler
use otters.Engine.Error.{RuntimeError}
use otters.Engine.Monitor.{build_action_effects}
use otters.Runbook.Agent
use otters.Runbook.Agent.{default_on_idle}
use otters.Engine.Durable.{IsDurable, handle_event-IsDurable}
use otters.Daemon.Lifecycle.{Daemon, startup, process_event, check_heartbeats}
use otters.Daemon.Sessions.{Probe, check_sessions}
use otters.Daemon.Reach.{Reach, here, next, receives}
use otters.Daemon.Recovery.{startup-Reach}
use otters.Daemon.Timers.{check_heartbeats-Reach}
use otters.Daemon.Invariants.{
  build_action_effects-Reach, IsKeyed-Reach, IsBare-Reach, check_sessions-Reach,
  handle_event-session_exited,
}
use otters.Examples.World.{env, setup, codec, faithful, created, moved}
use otters.Base.Exec.{◌>>=◌, mapping, lift, gets, pure}
use otters.Base.Dict.{insert, modify}
use otters.Engine.Runtime.{
  handle_agent_event, agent_event, fail_pipeline, fail_to, on_fail_name, run_effects,
}
use otters.Engine.Executor.{execute_all, execute, persist_operation, record_state}
use otters.Engine.Machine.{ask, outside}
use otters.Engine.Phases.{failure_effects}
use otters.Runbook.Book
use otters.Storage.State
use otters.Storage.Wal.{append}

abbrev file : String
file = "a\n"

abbrev failure : Event (Unit {0})
failure = agent_error "p" "no network"

abbrev started : Daemon (Unit {0})
started = record {
  machine = record {
    wal = open_wal file;
    state = replay_state 1 (created ∷ []);
    scheduler = Scheduler.init;
    watchers = empty;
    world = tt;
  };
  scheduler = Scheduler.init;
  start_time = 1;
  shutdown_requested = false;
}

-- The machine after the failure: the log has a line more, and the pipeline has failed.
abbrev failed_machine : Machine (Unit {0})
failed_machine = record started.machine {
  wal = record { file = "a\nb\n"; sequence = 2 };
  state = replay_state 1 (created ∷ moved ∷ []);
}

abbrev failed : Daemon (Unit {0})
failed = record started { machine = failed_machine }

startup-started : startup env tt 1 (some file) ≡ ok started
unfolding startup replay lines
startup-started = refl

handle_event-failure : handle_event env setup failure started.machine ≡ (ok [], failed_machine)
unfolding handle_event handle_agent_event agent_event fail_pipeline fail_to on_fail_name run_effects
    ◌>>=◌ mapping lift gets pure execute_all execute persist_operation record_state ask outside
    append failure_effects replay_state State.init State.get_pipeline open_wal lines Book.init
    Book.get_pipeline empty get insert modify new
handle_event-failure = refl

process_event-failure : process_event env setup 2 failure started ≡ some (ok tt, failed)
unfolding process_event
process_event-failure = rw handle_event-failure

reach : Reach env setup started failed
reach = next here (receives 2 failure (ok tt) process_event-failure)

log : IsLog codec file (created ∷ [])
log = record {
  file_lines = "a" ∷ [];
  is_file = refl;
  encoded =
      (record { seq = 1; parses = refl; one_line = (refl, refl, tt); not_empty = λ x. cc }, tt);
}

durable : IsDurable codec started.machine
unfolding open_wal
durable = record {
  ops = created ∷ [];
  logged = log;
  replayed = erase-replay_state 1 (created ∷ []);
}

startup-Reach_example :
    (f : Daemon (Unit {0})) × (startup env tt 9 (some "a\nb\n") ≡ ok f)
    × (erase f.machine.state ≡ erase failed_machine.state)
startup-Reach_example =
    startup-Reach env faithful (λ w. tt) setup tt tt 1 9 file (created ∷ []) started failed log
      startup-started reach

handle_event-IsDurable_example : IsDurable codec (handle_event env setup failure started.machine).1
handle_event-IsDurable_example =
    handle_event-IsDurable env faithful (λ w. tt) setup failure started.machine durable

check_heartbeats-Reach_example : check_heartbeats env setup 3 20000 failed ≡ some (ok tt, failed)
check_heartbeats-Reach_example =
    check_heartbeats-Reach env setup tt 1 (some file) started failed 3 20000 startup-started reach

stored : (p : Pipeline) × (get failed_machine.state.pipelines "p" ≡ some p)
unfolding get replay_state insert empty State.init modify
stored = (_, refl)

IsKeyed-Reach_example : stored.0.id ≡ "p"
IsKeyed-Reach_example =
    IsKeyed-Reach env setup tt 1 (some file) started failed startup-started reach "p" stored.0
      stored.1

IsBare-Reach_example : (stored.0.session_id ≡ none) × (stored.0.error ≡ none)
IsBare-Reach_example =
    IsBare-Reach env setup tt 1 (some file) started failed startup-started reach "p" stored.0
      stored.1

-- A tmux that says that all sessions are gone.
abbrev gone : Probe
gone = record { is_alive = λ id. ok false; is_process_running = λ id pattern. ok false }

check_sessions-Reach_example : check_sessions gone failed_machine.state ≡ []
check_sessions-Reach_example =
    check_sessions-Reach env setup tt 1 (some file) started failed startup-started reach gone

handle_event-session_exited_example :
    handle_event env setup (session_exited "p" (pos 1)) failed_machine ≡ (ok [], failed_machine)
handle_event-session_exited_example =
    handle_event-session_exited env setup tt 1 (some file) started failed startup-started reach "p"
      (pos 1)

build_action_effects-Reach_example :
    (x : RuntimeError) × (build_action_effects env stored.0 Agent.init default_on_idle "idle" empty
      ≡ err x)
build_action_effects-Reach_example =
    build_action_effects-Reach env setup tt 1 (some file) started failed startup-started reach "p"
      stored.0 Agent.init default_on_idle "idle" empty stored.1 refl
