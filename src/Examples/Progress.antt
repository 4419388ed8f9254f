-- ===== src/Examples/Progress.antt =====
-- The theorem on the event loop, on a pipeline with two shell phases whose commands succeed.
use otters.Base.{false, ◌≡◌, refl, some, none, [], ◌∷◌, inl, arith}
use otters.Base.Int.{pos}
use otters.Base.Result.{ok, err}
use otters.Base.Dict.{empty, get}
use otters.Core.Operation.{running}
use otters.Core.Pipeline.{Pipeline, is_terminal}
use otters.Storage.State
use otters.Runbook.Command.{shell}
use otters.Runbook.Pipeline.{PipelineDef, PhaseDef}
use otters.Runbook.Book
use otters.Engine.Scheduler
use otters.Engine.Machine.{Env}
use otters.Engine.Yields.{Works}
use otters.Engine.Completion.{IsLast}
use otters.Engine.Progress.{Succeeds, IsShellNext, entered}
use otters.Engine.Runtime.{Setup, next_phase_name}
use otters.Daemon.Lifecycle.{Daemon}
use otters.Daemon.Progress.{last, more, Completes, process_event-Completes}
use otters.Examples.World.{env}

abbrev live_env : Env (Unit {0}) (Unit {0})
live_env = record env {
  codec = record { to_string = λ e. ok "entry"; from_str = λ s. err "unread" };
  run_shell = λ command cwd vars w. (ok (some (pos 0)), w);
}

works : Works live_env
works = record {
  encodes = λ e. ("entry", refl);
  writes = λ w. refl;
  notifies = λ channel message w. refl;
}

succeeds : Succeeds live_env
succeeds = record { exits = λ command cwd vars w. refl }

abbrev pack : PhaseDef
pack = record { name = "pack"; run = shell "make dist"; next = none; on_fail = none }

abbrev pipeline_def : PipelineDef
pipeline_def = record {
  name = "ship";
  inputs = [];
  defaults = empty;
  phases = record { name = "build"; run = shell "make"; next = none; on_fail = none } ∷ pack ∷ [];
}

abbrev setup : Setup
setup = record {
  runbook = record Book.init { pipelines = record { entries = ("ship", pipeline_def) ∷ [] } };
  project_root = "/project";
  worktree_root = "/trees";
}

abbrev building : Pipeline
building = record {
  id = "p";
  name = "fix";
  kind = "ship";
  phase = "build";
  phase_status = running;
  inputs = empty;
  workspace_path = none;
  session_id = none;
  created_at = 1;
  phase_started_at = 1;
  error = none;
}

abbrev daemon : Daemon (Unit {0})
daemon = record {
  machine = record {
    wal = record { file = ""; sequence = 0 };
    state = record State.init { pipelines = record { entries = ("p", building) ∷ [] } };
    scheduler = Scheduler.init;
    watchers = empty;
    world = tt;
  };
  scheduler = Scheduler.init;
  start_time = 0;
  shutdown_requested = false;
}

stored : get daemon.machine.state.pipelines "p" ≡ some building
unfolding get
stored = refl

build_going : is_terminal building ≡ false
unfolding is_terminal
build_going = refl

pack_going : is_terminal (entered building "pack") ≡ false
unfolding is_terminal
pack_going = refl

pack-IsShellNext : IsShellNext setup building "pack"
unfolding next_phase_name otters.Runbook.Book.get_pipeline get otters.Runbook.Pipeline.get_phase
    otters.Runbook.Pipeline.next_phase
pack-IsShellNext = record {
  next = refl;
  pipeline_def = pipeline_def;
  phase_def = pack;
  command = "make dist";
  kind = refl;
  found = refl;
  run = refl;
}

pack-IsLast : IsLast setup (entered building "pack")
unfolding next_phase_name otters.Runbook.Book.get_pipeline get otters.Runbook.Pipeline.get_phase
    otters.Runbook.Pipeline.next_phase
pack-IsLast = inl refl

process_event-Completes_example : Completes live_env works succeeds setup 3 building daemon
process_event-Completes_example =
    process_event-Completes live_env works succeeds setup 2 3 building daemon (omega arith) stored
      refl (more "pack" build_going pack-IsShellNext (last pack_going pack-IsLast))
