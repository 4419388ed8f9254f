-- ===== src/Examples/Ends.antt =====
-- The theorems on how events end phases, on a runbook with two phases.
use otters.Base.{String, false, ◌≡◌, refl, none, some, [], ◌∷◌, inr}
use otters.Base.Int.{pos}
use otters.Base.Result.{ok, err}
use otters.Base.Dict.{empty, get}
use otters.Core.Event.{shell_completed, timer}
use otters.Core.Operation.{pending, running, completed}
use otters.Core.Pipeline.{Pipeline, is_terminal}
use otters.Storage.State
use otters.Runbook.Command.{shell, agent}
use otters.Runbook.Pipeline.{PipelineDef, get_phase}
use otters.Runbook.Agent
use otters.Runbook.Book.{Runbook, get_pipeline}
use otters.Runbook.Book
use otters.Engine.Scheduler
use otters.Engine.Error.{pipeline_not_found}
use otters.Engine.Machine.{Env, Machine}
use otters.Engine.Monitor.{get_agent_def}
use otters.Engine.Spawn.{session_timer}
use otters.Engine.Yields.{Works}
use otters.Engine.Completion.{IsLast, handle_event-done, handle_event-failed}
use otters.Engine.Stranded.{handle_event-stranded}
use otters.Engine.Unlinked.{handle_event-no_workspace}
use otters.Engine.Runtime.{Setup, next_phase_name, on_fail_name, has_phase_def, handle_event}
use otters.Examples.World.{env}

-- Every entry has the same text: nothing is read back here.
abbrev works_env : Env (Unit {0}) (Unit {0})
works_env = record env {
  codec = record { to_string = λ e. ok "entry"; from_str = λ s. err "unread" };
}

works : Works works_env
works = record {
  encodes = λ e. ("entry", refl);
  writes = λ w. refl;
  notifies = λ channel message w. refl;
}

-- "build" goes to a phase "failed" that is not defined, "test" fails to it, and "watch" has an agent.
abbrev pipeline_def : PipelineDef
pipeline_def = record {
  name = "ship";
  inputs = [];
  defaults = empty;
  phases =
      record { name = "build"; run = shell "make"; next = some "failed"; on_fail = none }
      ∷ record { name = "test"; run = shell "make test"; next = none; on_fail = some "failed" }
      ∷ record { name = "watch"; run = agent "fixer"; next = none; on_fail = none }
      ∷ [];
}

abbrev book : Runbook
book = record {
  commands = empty;
  workers = empty;
  pipelines = record { entries = ("ship", pipeline_def) ∷ [] };
  agents = record { entries = ("fixer", record Agent.init { name = "fixer" }) ∷ [] };
}

abbrev setup : Setup
setup = record { runbook = book; project_root = "/project"; worktree_root = "/trees" }

abbrev in_phase : String → Pipeline
in_phase phase = record {
  id = "p";
  name = "fix";
  kind = "ship";
  phase = phase;
  phase_status = running;
  inputs = empty;
  workspace_path = none;
  session_id = none;
  created_at = 1;
  phase_started_at = 1;
  error = none;
}

abbrev pub machine : String → Machine (Unit {0})
machine phase = record {
  wal = record { file = ""; sequence = 0 };
  state = record State.init { pipelines = record { entries = ("p", in_phase phase) ∷ [] } };
  scheduler = Scheduler.init;
  watchers = empty;
  world = tt;
}

stored : (phase : String) → get (machine phase).state.pipelines "p" ≡ some (in_phase phase)
unfolding get
stored phase = refl

build-IsLast : IsLast setup (in_phase "build")
unfolding next_phase_name has_phase_def get_pipeline get get_phase
build-IsLast = inr ("failed", refl, refl, refl)

running_in : is_terminal (in_phase "build") ≡ false
unfolding is_terminal
running_in = refl

handle_event-done_example :
    ((handle_event works_env setup (shell_completed "p" "build" (pos 0)) (machine "build")).0
      ≡ ok [])
    × (get
          (handle_event works_env setup
            (shell_completed "p" "build" (pos 0))
            (machine "build")).1.state.pipelines
          "p"
        ≡ some (record (in_phase "build") { phase = "done"; phase_status = completed }))
handle_event-done_example =
    handle_event-done works_env works setup (machine "build") (in_phase "build") (stored "build")
      running_in refl build-IsLast

no_on_fail : on_fail_name book (in_phase "build") ≡ none
unfolding on_fail_name get_pipeline get get_phase
no_on_fail = refl

handle_event-failed_example :
    ((handle_event works_env setup (shell_completed "p" "build" (pos 2)) (machine "build")).0
      ≡ ok [])
    × (get
          (handle_event works_env setup
            (shell_completed "p" "build" (pos 2))
            (machine "build")).1.state.pipelines
          "p"
        ≡ some (record (in_phase "build") { phase = "failed"; phase_status = pending }))
handle_event-failed_example =
    handle_event-failed works_env works setup (machine "build") (in_phase "build") (pos 2)
      (stored "build") refl no_on_fail

fails_to : on_fail_name book (in_phase "test") ≡ some "failed"
unfolding on_fail_name get_pipeline get get_phase
fails_to = refl

defined : get_pipeline book "ship" ≡ some pipeline_def
unfolding get_pipeline get
defined = refl

undefined : get_phase pipeline_def "failed" ≡ none
unfolding get_phase
undefined = refl

handle_event-stranded_example :
    ((handle_event works_env setup (shell_completed "p" "test" (pos 2)) (machine "test")).0
      ≡ err (pipeline_not_found "phase failed not found"))
    × (get
          (handle_event works_env setup
            (shell_completed "p" "test" (pos 2))
            (machine "test")).1.state.pipelines
          "p"
        ≡ some (record (in_phase "test") { phase = "failed"; phase_status = pending }))
handle_event-stranded_example =
    handle_event-stranded works_env works setup (machine "test") (in_phase "test") pipeline_def
      (pos 2) "failed" (stored "test") refl fails_to defined undefined

watch_running : is_terminal (in_phase "watch") ≡ false
unfolding is_terminal
watch_running = refl

watch_agent : get_agent_def book (in_phase "watch") ≡ ok (record Agent.init { name = "fixer" })
unfolding get_agent_def get_pipeline get get_phase Book.get_agent
watch_agent = refl

handle_event-no_workspace_example :
    handle_event works_env setup (timer (session_timer "p")) (machine "watch")
    ≡ (err (pipeline_not_found "no workspace"), machine "watch")
handle_event-no_workspace_example =
    handle_event-no_workspace works_env setup (machine "watch") "p" (in_phase "watch")
      (record Agent.init { name = "fixer" }) (stored "watch") watch_running watch_agent refl
