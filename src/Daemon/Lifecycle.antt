-- ===== src/Daemon/Lifecycle.antt =====
-- lifecycle.rs of crates/daemon: the daemon's state, its start from the log, and its event loop.
use mathlib.Core.List.{reverse}
use otters.Base.{ℕ, zero, suc, String, Bool, false, Option, none, some, List, [], ◌∷◌, ◌++◌}
use otters.Base.Result.{Result, ok, err}
use otters.Base.Dict
use otters.Core.Clock.{Instant}
use otters.Core.Event.{Event}
use otters.Core.Operation.{Operation}
use otters.Storage.State.{replay_state}
use otters.Storage.Wal.{WalError, open_wal, replay}
use otters.Runbook.Parser.{ParseError}
use otters.Engine.Scheduler.{Scheduler, fired_timers}
use otters.Engine.Scheduler
use otters.Engine.Error.{RuntimeError, show_runtime}
use otters.Engine.Machine.{Env, Machine}
use otters.Engine.Runtime.{Setup, handle_event}

-- An error of the system is its text.
pub data LifecycleError : Type 0 where
  project_not_found : (path error : String) → LifecycleError
  no_state_dir : LifecycleError
  lock_failed : (error : String) → LifecycleError
  bind_failed : (path error : String) → LifecycleError
  io : (error : String) → LifecycleError
  runbook : ParseError → LifecycleError
  wal : WalError → LifecycleError
  runtime : (message : String) → LifecycleError

-- `machine` is what the runtime shares. `scheduler` is the daemon's own: `startup` makes it, and
-- `Runtime::new` makes another one.
pub record Daemon (W : Type 0) : Type 0 where
  pub machine : Machine W
  pub scheduler : Scheduler
  pub start_time : Instant
  pub shutdown_requested : Bool

-- The outcome of a call, where `none` is a loop that did not end within the fuel.
abbrev pub Outcome : Type 0 → Type 0 → Type 0
Outcome W A = Option (Result LifecycleError A × Daemon W)

unfoldable pub start_with :
    {W : Type 0}
    → W
    → Instant
    → String
    → Result WalError (List Operation)
    → Result LifecycleError (Daemon W)
start_with world now file (err e) = err (wal e)
start_with world now file (ok ops) = ok (record {
  machine = record {
    wal = open_wal file;
    state = replay_state now ops;
    scheduler = Scheduler.init;
    watchers = Dict.empty;
    world = world;
  };
  scheduler = Scheduler.init;
  start_time = now;
  shutdown_requested = false;
})

-- An open of the log creates its file, so a missing file is an empty one.
abbrev pub content_of : Option String → String
content_of none = ""
content_of (some file) = file

module _ {V W : Type 0} (env : Env V W) where
  -- Steps 5, 11 and 12 of `startup_inner`, for the content of the log's file.
  unfoldable pub startup : W → Instant → Option String → Result LifecycleError (Daemon W)
  unfolding start_with
  startup world now file =
      start_with world now (content_of file) (replay env.codec (some (content_of file)))

module _ {V W : Type 0} (env : Env V W) (setup : Setup) where
  -- A failure ends the loop; else the loop goes on with the events that were produced.
  unfoldable pub resume :
      (List (Event V) → Daemon W → Outcome W (Unit {0}))
      → List (Event V)
      → Result RuntimeError (List (Event V))
      → Daemon W
      → Outcome W (Unit {0})
  resume loop rest (err e) d = some (err (runtime (show_runtime e)), d)
  resume loop rest (ok events) d = loop (reverse events ++ rest) d

  -- The pending events, the last one first: `pop` takes the last, and `extend` adds behind it.
  unfoldable pub process_events : (fuel : ℕ) → List (Event V) → Daemon W → Outcome W (Unit {0})
  unfolding resume
  process_events zero pending d = none
  process_events (suc fuel) [] d = some (ok tt, d)
  process_events (suc fuel) (event ∷ rest) d =
      let (r, machine) = handle_event env setup event d.machine in
      resume (process_events fuel) rest r (record d { machine = machine })

  unfoldable pub process_event : (fuel : ℕ) → Event V → Daemon W → Outcome W (Unit {0})
  unfolding process_events
  process_event fuel event = process_events fuel (event ∷ [])

  unfoldable pub after_event :
      (Daemon W → Outcome W (Unit {0})) → Outcome W (Unit {0}) → Outcome W (Unit {0})
  after_event loop none = none
  after_event loop (some (err e, d)) = some (err e, d)
  after_event loop (some (ok u, d)) = loop d

  -- One timer event after the other, until one fails.
  unfoldable pub process_each : (fuel : ℕ) → List (Event V) → Daemon W → Outcome W (Unit {0})
  unfolding after_event
  process_each fuel [] d = some (ok tt, d)
  process_each fuel (event ∷ rest) d =
      after_event (process_each fuel rest) (process_event fuel event d)

  unfoldable pub check_heartbeats : (fuel : ℕ) → Instant → Daemon W → Outcome W (Unit {0})
  unfolding process_each
  check_heartbeats fuel now d =
      let (events, scheduler) = fired_timers d.scheduler now in
      process_each fuel events (record d { scheduler = scheduler })
