-- ===== src/Daemon/Startup.antt =====
-- lifecycle.rs of crates/daemon: the files of a daemon, the steps of its start, what a failed start and
-- a shutdown remove. The file system, the locks and the sockets are parameters. The lock of a start
-- that fails goes with its file, which is not modelled.
pub mod Cleanup
use otters.Base.{ℕ, String, Bool, Option, none, some, List, [], ◌∷◌, ◌==◌, if◌then◌else◌}
use otters.Base.Text.{◌<>◌, join_path}
use otters.Base.Lists.{take}
use otters.Base.Result.{Result, ok, err, map_err, or_fail}
use otters.Base.Result
use otters.Base.Exec.{Exec, pure, lift, gets, mapping, ◌>>=◌, ◌>>◌}
use otters.Core.Clock.{Instant}
use otters.Core.Operation.{Operation}
use otters.Storage.Wal.{replay}
use otters.Storage.Wal
use otters.Runbook.Book
use otters.Runbook.Book.{Runbook}
use otters.Runbook.Parser.{Toml, parse_runbook}
use otters.Engine.Machine.{Env}
use otters.Daemon.Lifecycle.{
  Daemon, LifecycleError, project_not_found, no_state_dir, lock_failed, bind_failed, io, runbook,
  wal, start_with, content_of,
}

-- What the start asks of the system, whose state is `W`. An error is its text.
pub record Host (W : Type 0) : Type 0 where
  pub env_var : String → Option String
  pub sha256 : String → List ℕ
  -- `{:02x}`
  pub hex : ℕ → String
  pub parent : String → Option String
  pub extension : String → Option String
  pub canonicalize : W → String → Result String String
  pub exists : W → String → Bool
  -- The content of the log's file.
  pub content : W → String → Option String
  pub create_dir_all : String → Exec W String (Unit {0})
  pub create : String → Exec W String (Unit {0})
  pub try_lock_exclusive : String → Exec W String (Unit {0})
  pub write_pid : String → Exec W String (Unit {0})
  pub write : (path text : String) → Exec W String (Unit {0})
  pub remove_file : String → Exec W String (Unit {0})
  -- The paths of the entries that could be read.
  pub read_dir : String → Exec W String (List String)
  pub read_to_string : String → Exec W String String
  pub open_append : String → Exec W String (Unit {0})
  pub bind : String → Exec W String (Unit {0})

pub record Config : Type 0 where
  pub project_root : String
  pub socket_path : String
  pub lock_path : String
  pub version_path : String
  pub log_path : String
  pub wal_path : String
  pub workspaces_path : String

module _ {W : Type 0} (host : Host W) where
  state_dir_of : Option String → Option String → Result LifecycleError String
  state_dir_of (some xdg) home = ok (join_path xdg "oj")
  state_dir_of none (some home) = ok (join_path home ".local/state/oj")
  state_dir_of none none = err no_state_dir

  state_dir : Result LifecycleError String
  unfolding state_dir_of
  state_dir = state_dir_of (host.env_var "XDG_STATE_HOME") (host.env_var "HOME")

  socket_dir_of : Option String → String
  socket_dir_of (some dir) = dir
  socket_dir_of none = "/tmp/oj"

  socket_dir : String
  unfolding socket_dir_of
  socket_dir = socket_dir_of (host.env_var "OJ_SOCKET_DIR")

  hex_encode : List ℕ → String
  hex_encode [] = ""
  hex_encode (b ∷ bytes) = host.hex b <> hex_encode bytes

  project_hash : String → String
  unfolding hex_encode
  project_hash path = hex_encode (take 8 (host.sha256 path))

  abbrev config_of : (root hash dir : String) → Config
  unfolding socket_dir
  config_of root hash dir = record {
    project_root = root;
    socket_path = join_path socket_dir (hash <> ".sock");
    lock_path = join_path dir "daemon.pid";
    version_path = join_path dir "daemon.version";
    log_path = join_path dir "daemon.log";
    wal_path = join_path (join_path dir "wal") "events.wal";
    workspaces_path = join_path dir "workspaces";
  }

  unfoldable pub for_project : W → String → Result LifecycleError Config
  unfolding config_of project_hash state_dir
  for_project w root =
      Result.◌>>=◌ (map_err (project_not_found root) (host.canonicalize w root)) (λ canonical.
        Result.◌>>=◌ state_dir (λ dir.
          let hash = project_hash canonical in
          ok (config_of canonical hash (join_path (join_path dir "projects") hash))))

  abbrev pub Run : Type 0 → Type 0
  Run A = Exec W LifecycleError A

  unfoldable pub create_dir_of : Option String → Run (Unit {0})
  create_dir_of none = pure tt
  create_dir_of (some dir) = mapping io (host.create_dir_all dir)

  unfoldable pub create_parent : String → Run (Unit {0})
  unfolding create_dir_of
  create_parent path = create_dir_of (host.parent path)

  -- Step 2. The creation of the lock's file empties it.
  unfoldable pub acquire_lock : Config → Run (Unit {0})
  acquire_lock config =
      mapping io (host.create config.lock_path)
      >> mapping lock_failed (host.try_lock_exclusive config.lock_path)
      >> mapping io (host.write_pid config.lock_path)

  -- Step 3
  create_dirs : Config → Run (Unit {0})
  unfolding create_parent
  create_dirs config =
      create_parent config.socket_path
      >> create_parent config.wal_path
      >> mapping io (host.create_dir_all config.workspaces_path)

  is_toml : Option String → Bool
  is_toml none = Bool.false
  is_toml (some e) = e == "toml"

  combine : List String → Run String
  unfolding is_toml
  combine [] = pure ""
  combine (path ∷ paths) =
      let rest = combine paths in
      if is_toml (host.extension path)
      then (mapping io (host.read_to_string path) >>= λ content.
          rest >>= λ more. pure (content <> "\n" <> more))
      else rest

  module _ {T : Type 0} (t : Toml T) where
    parse_combined : String → Result LifecycleError Runbook
    parse_combined content =
        if content == "" then ok Book.init else map_err runbook (parse_runbook t content)

    load_from : String → Bool → Run Runbook
    unfolding combine parse_combined
    load_from dir Bool.false = pure Book.init
    load_from dir Bool.true = mapping io (host.read_dir dir) >>= λ paths.
        combine paths >>= λ content. lift (parse_combined content)

    unfoldable pub load_runbook : String → Run Runbook
    unfolding load_from
    load_runbook root =
        let dir = join_path root ".oj/runbooks" in gets (λ w. host.exists w dir) >>= load_from dir

  -- The content of the log that `Wal::open` opens, or creates.
  open_log : Config → Run String
  open_log config =
      mapping (λ e. wal (Wal.io e)) (host.open_append config.wal_path)
      >> gets (λ w. content_of (host.content w config.wal_path))

  remove_stale : String → Bool → Run (Unit {0})
  remove_stale path Bool.false = pure tt
  remove_stale path Bool.true = mapping io (host.remove_file path)

  -- Step 9
  bind_socket : Config → Run (Unit {0})
  unfolding remove_stale
  bind_socket config =
      gets (λ w. host.exists w config.socket_path)
      >>= remove_stale config.socket_path
      >> mapping (bind_failed config.socket_path) (host.bind config.socket_path)

  -- A removal whose failure is dropped.
  pub remove_if : String → Bool → W → W
  remove_if path Bool.false w = w
  remove_if path Bool.true w = (host.remove_file path w).1

  pub remove_existing : String → W → W
  unfolding remove_if
  remove_existing path w = remove_if path (host.exists w path) w

  unfoldable pub cleanup_on_failure : Config → W → W
  unfolding remove_existing
  cleanup_on_failure config w =
      remove_existing config.lock_path
        (remove_existing config.version_path (remove_existing config.socket_path w))

  -- The files that `DaemonState::shutdown` removes, which fails never.
  unfoldable pub shutdown : Config → W → W
  unfolding remove_existing
  shutdown config w =
      remove_existing config.version_path
        (remove_existing config.lock_path (remove_existing config.socket_path w))

  unfoldable pub cleaned :
      {A : Type 0} → Config → Result LifecycleError A × W → Result LifecycleError A × W
  unfolding cleanup_on_failure
  cleaned config (ok a, w) = (ok a, w)
  cleaned config (err e, w) = (err e, cleanup_on_failure config w)

  module _ {V T : Type 0} (env : Env V W) (t : Toml T) (version : String) (now : Instant) where
    started : String → List Operation → Run (Daemon W)
    unfolding start_with
    started content ops w = (start_with w now content (ok ops), w)

    unfoldable pub startup_inner : Config → Run (Runbook × Daemon W)
    unfolding create_parent acquire_lock create_dirs load_runbook open_log bind_socket started
    startup_inner config =
        create_parent config.socket_path
        >> acquire_lock config
        >> create_dirs config
        >> mapping io (host.write config.version_path version)
        >> (load_runbook t config.project_root >>= λ book. open_log config >>= λ content.
            lift (map_err wal (replay env.codec (some content))) >>= λ ops.
            bind_socket config >> (started content ops >>= λ d. pure (book, d)))

    unfoldable pub startup : Config → Run (Runbook × Daemon W)
    unfolding cleaned startup_inner
    startup config w = cleaned config (startup_inner config w)
