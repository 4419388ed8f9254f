-- ===== src/Engine/Machine.antt =====
-- What the engine shares behind its mutexes, and what it takes from outside: the adapters of the
-- traits of crates/adapters, the clock, the id generator, the disk, JSON, processes. `W` is the
-- state of that outside world, and `V` the type of JSON values.
use otters.Base.{String, Option, List, Bool}
use otters.Base.Int.{ℤ}
use otters.Base.Dict.{Dict}
use otters.Base.Result.{Result}
use otters.Base.Exec.{Exec}
use otters.Core.Clock.{Instant}
use otters.Core.Event.{Event}
use otters.Storage.State.{MaterializedState}
use otters.Storage.Wal.{Wal, Codec, WriteOutcome}
use otters.Runbook.Template.{Templates}
use otters.Engine.Scheduler.{Scheduler}
use otters.Engine.Error.{SessionError, RepoError, NotifyError}

pub record Env (V W : Type 0) : Type 0 where
  -- serde_json
  pub codec : Codec
  pub object : List (String × String) → V
  pub field : V → String → Option V
  pub as_str : V → Option String
  pub parse_json : String → Option V
  -- regex, std::env, Debug, str::to_lowercase
  pub templates : Templates
  pub debug_event : Event V → String
  pub to_lowercase : String → String
  -- Clock and IdGen
  pub now : W → Instant × W
  pub next_id : W → String × W
  -- the disk under the log
  pub write_log : W → WriteOutcome × W
  -- SessionAdapter
  pub spawn_session :
      (id cwd command : String) → List (String × String) → Exec W SessionError (Unit {0})
  pub send_session : (id input : String) → Exec W SessionError (Unit {0})
  pub kill_session : (id : String) → Exec W SessionError (Unit {0})
  -- RepoAdapter
  pub add_worktree : (branch path : String) → Exec W RepoError (Unit {0})
  pub remove_worktree : (path : String) → Exec W RepoError (Unit {0})
  -- NotifyAdapter
  pub send_notification : (channel message : String) → Exec W NotifyError (Unit {0})
  -- `sh -c`, and the desktop notifier, whose outcome is dropped
  pub run_shell : (command cwd : String) → Dict String → Exec W String (Option ℤ)
  pub notify_desktop : (title message : String) → W → W
  -- std::fs
  pub exists : W → String → Bool
  pub read_file : W → String → Result String String
  -- what can be opened of a log, up to its first line that is not UTF-8
  pub log_text : W → String → Option String
  pub create_dir_all : String → Exec W String (Unit {0})
  pub write_file : (path content : String) → Exec W String (Unit {0})
  pub copy_file : (from to : String) → Exec W String (Unit {0})
  -- the newest `.jsonl` file of a directory, and the hash of a path
  pub newest_log : W → String → Option String
  pub hash_path : String → String
  pub home_dir : Option String

pub record Machine (W : Type 0) : Type 0 where
  pub wal : Wal
  pub state : MaterializedState
  pub scheduler : Scheduler
  -- `SessionLogWatcher`s by pipeline id: each is the path that it reads
  pub watchers : Dict String
  pub world : W

-- An action of the engine.
abbrev pub Action : Type 0 → Type 0 → Type 0 → Type 0
Action W E A = Exec (Machine W) E A

module _ {W E A : Type 0} where
  -- A call of the outside world.
  unfoldable pub outside : Exec W E A → Action W E A
  outside f m = let (r, w) = f m.world in (r, record m { world = w })

  -- A call of the outside world that cannot fail.
  unfoldable pub ask : (W → A × W) → Action W E A
  ask f m = let (a, w) = f m.world in (Result.ok a, record m { world = w })
