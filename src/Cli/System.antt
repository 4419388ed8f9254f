-- ===== src/Cli/System.antt =====
-- client.rs of crates/cli: timeouts and paths. The environment, the file system and the processes are
-- parameters.
use otters.Base.{ℕ, String, Bool, Option, none, some, List, [], ◌∷◌, if◌then◌else◌}
use otters.Base.Text.{◌<>◌, join_path}
use otters.Base.Result.{Result, ok, err, ◌>>=◌, or_fail}
use otters.Cli.Client.{Reply, no_project_root, no_state_dir}

-- What the client asks of the system, whose state is `W`. Times are in milliseconds.
pub record System (W : Type 0) : Type 0 where
  pub env_var : String → Option String
  pub parse_u64 : String → Option ℕ
  pub parse_u32 : String → Option ℕ
  -- The first eight bytes of a path's SHA-256, in hexadecimal.
  pub project_hash : String → String
  pub parent : String → Option String
  -- A path, and what one `pop` after the other makes of it.
  pub ancestors : String → List String
  pub current_exe : Option String
  pub current_dir : W → Option String
  pub canonicalize : W → String → Option String
  pub is_dir : W → String → Bool
  pub exists : W → String → Bool
  pub read_file : W → String → Option String
  pub remove_file : String → W → W
  pub now : W → ℕ
  pub sleep : ℕ → W → W
  -- `kill -0` and `kill -9`
  pub process_exists : ℕ → W → Bool × W
  pub force_kill : ℕ → W → Bool × W
  -- What `Client.shutdown` returns on a new connection to a socket.
  pub shutdown : String → W → Reply (Unit {0}) × W
  -- Whether `Handle::current().block_on` runs its future: tokio panics outside a runtime, and inside
  -- an asynchronous context such as that of an `async fn`.
  pub can_block : W → Bool
  -- The start of the daemon's binary for a project, and what a child's status is by then: an error
  -- of the question, nothing, or how it exited.
  pub start : (binary project_root : String) → W → Result String ℕ × W
  pub try_wait : (child : ℕ) → W → Result (Unit {0}) (Option String) × W

abbrev pub and_then : {A B : Type 0} → Option A → (A → Option B) → Option B
and_then none f = none
and_then (some a) f = f a

abbrev pub or_default : {A : Type 0} → A → Option A → A
or_default a none = a
or_default a (some b) = b

module _ {W : Type 0} (sys : System W) where
  unfoldable pub parse_duration_ms : String → Option ℕ
  parse_duration_ms var = and_then (sys.env_var var) sys.parse_u64

  unfoldable pub timeout_ipc : ℕ
  unfolding parse_duration_ms
  timeout_ipc = or_default 5000 (parse_duration_ms "OJ_TIMEOUT_IPC_MS")

  unfoldable pub timeout_connect : ℕ
  unfolding parse_duration_ms
  timeout_connect = or_default 5000 (parse_duration_ms "OJ_TIMEOUT_CONNECT_MS")

  unfoldable pub timeout_exit : ℕ
  unfolding parse_duration_ms
  timeout_exit = or_default 2000 (parse_duration_ms "OJ_TIMEOUT_EXIT_MS")

  unfoldable pub poll_interval : ℕ
  unfolding parse_duration_ms
  poll_interval = or_default 50 (parse_duration_ms "OJ_POLL_INTERVAL_MS")

  unfoldable pub socket_dir : String
  socket_dir = or_default "/tmp/oj" (sys.env_var "OJ_SOCKET_DIR")

  home_state_dir : Option String → Reply String
  home_state_dir none = err no_state_dir
  home_state_dir (some home) = ok (join_path home ".local/state/oj")

  state_dir_of : Option String → Reply String
  unfolding home_state_dir
  state_dir_of (some xdg) = ok (join_path xdg "oj")
  state_dir_of none = home_state_dir (sys.env_var "HOME")

  unfoldable pub state_dir : Reply String
  unfolding state_dir_of
  state_dir = state_dir_of (sys.env_var "XDG_STATE_HOME")

  unfoldable pub get_socket_path : String → W → Reply String
  unfolding socket_dir
  get_socket_path project_root w =
      or_fail (sys.canonicalize w project_root) no_project_root >>= λ canonical.
      ok (join_path socket_dir (sys.project_hash canonical <> ".sock"))

  unfoldable pub get_daemon_dir : String → W → Reply String
  unfolding state_dir
  get_daemon_dir project_root w =
      or_fail (sys.canonicalize w project_root) no_project_root >>= λ canonical.
      state_dir >>= λ dir. ok (join_path (join_path dir "projects") (sys.project_hash canonical))

  -- The nearest of the directories that holds `.oj`.
  walk_up : W → List String → Option String
  walk_up w [] = none
  walk_up w (dir ∷ dirs) =
      let rest = walk_up w dirs in if sys.is_dir w (join_path dir ".oj") then some dir else rest

  root_from : W → Option String → Reply String
  unfolding walk_up
  root_from w none = err no_project_root
  root_from w (some current) = ok (or_default current (walk_up w (sys.ancestors current)))

  root_of : W → Option String → Reply String
  unfolding root_from
  root_of w (some root) = ok root
  root_of w none = root_from w (sys.current_dir w)

  unfoldable pub find_project_root : W → Reply String
  unfolding root_of
  find_project_root w = root_of w (sys.env_var "OJ_PROJECT_ROOT")

  -- A candidate for the binary, if it is there.
  present : W → Option String → Option String
  present w none = none
  present w (some path) = if sys.exists w path then some path else none

  abbrev or_else : Option String → Option String → Option String
  or_else none o = o
  or_else (some a) o = some a

  unfoldable pub find_ojd_binary : W → String
  unfolding present
  find_ojd_binary w =
      let dev = present w (
        and_then (sys.env_var "CARGO_MANIFEST_DIR") λ dir. and_then (sys.parent dir) λ crates.
          and_then (sys.parent crates) λ root. some (join_path root "target/debug/ojd")) in
      let sibling = present w (
        and_then sys.current_exe
          λ exe. and_then (sys.parent exe) λ dir. some (join_path dir "ojd")) in
      or_default "ojd" (or_else (sys.env_var "OJ_DAEMON_BINARY") (or_else dev sibling))
