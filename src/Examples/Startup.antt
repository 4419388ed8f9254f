-- ===== src/Examples/Startup.antt =====
-- The theorem on a start that fails, on a second daemon of a project.
use otters.Base.{String, Bool, true, false, none, some, [], ◌==◌, ◌≡◌, refl, eq_refl, if◌then◌else◌}
use otters.Base.Result.{ok, err}
use otters.Base.Exec.{pure, mapping, ◌>>=◌}
use otters.Daemon.Lifecycle.{lock_failed}
use otters.Daemon.Startup.{
  Host, Config, create_parent, create_dir_of, acquire_lock, startup_inner, startup,
}
use otters.Daemon.Startup.Cleanup.{IsHost, AreGone, startup-AreGone}
use otters.Examples.World.{quiet_env}
use otters.Examples.Toml.{toml}

abbrev Files : Type 0
Files = String → Bool

abbrev without : String → Files → Files
without path files other = if other == path then false else files other

-- The lock is held.
abbrev host : Host Files
host = record {
  env_var = λ var. some "/state";
  sha256 = λ path. [];
  hex = λ n. "00";
  parent = λ path. some "/tmp/oj";
  extension = λ path. none;
  canonicalize = λ w path. ok path;
  exists = λ w path. w path;
  content = λ w path. none;
  create_dir_all = λ path w. (ok tt, w);
  create = λ path w. (ok tt, w);
  try_lock_exclusive = λ path w. (err "held", w);
  write_pid = λ path w. (ok tt, w);
  write = λ path text w. (ok tt, w);
  remove_file = λ path w. (ok tt, without path w);
  read_dir = λ path w. (ok [], w);
  read_to_string = λ path w. (ok "", w);
  open_append = λ path w. (ok tt, w);
  bind = λ path w. (ok tt, w);
}

without-keeps :
    (path other : String) (w : Files) (b : Bool)
    → w other ≡ false
    → (if b then false else w other) ≡ false
without-keeps path other w true h = refl
without-keeps path other w false h = h

host-IsHost : IsHost host
host-IsHost = record {
  removes = λ path w h. rw (eq_refl path);
  keeps = λ path other w h. without-keeps path other w (other == path) h;
}

abbrev config : Config
config = record {
  project_root = "/project";
  socket_path = "/tmp/oj/00.sock";
  lock_path = "/state/daemon.pid";
  version_path = "/state/daemon.version";
  log_path = "/state/daemon.log";
  wal_path = "/state/wal/events.wal";
  workspaces_path = "/state/workspaces";
}

-- The files of the daemon that runs.
abbrev running : Files
running path = true

locked :
    (startup_inner host (quiet_env Files) toml "0.1" 1 config running).0 ≡ err (lock_failed "held")
unfolding startup_inner create_parent create_dir_of acquire_lock ◌>>=◌ mapping pure
locked = refl

startup-AreGone_example :
    ((startup host (quiet_env Files) toml "0.1" 1 config running).0 ≡ err (lock_failed "held"))
    × AreGone host config.socket_path config.version_path config.lock_path
        (startup_inner host (quiet_env Files) toml "0.1" 1 config running).1
        (startup host (quiet_env Files) toml "0.1" 1 config running).1
startup-AreGone_example =
    startup-AreGone host host-IsHost (quiet_env Files) toml "0.1" 1 config running
      (lock_failed "held") locked
