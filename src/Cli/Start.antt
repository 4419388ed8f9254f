-- ===== src/Cli/Start.antt =====
-- client.rs of crates/cli: connecting to the daemon and starting it where it does not run.
pub mod Waiting
pub mod Version
use otters.Base.{ℕ, zero, suc, ◌-◌, String, Bool, Option, none, some, if◌then◌else◌, ltb, ◌==◌}
use otters.Base.Text.{◌<>◌, join_path}
use otters.Base.Chars.{trim}
use otters.Base.Result.{Result, ok, err}
use otters.Cli.Client.{Reply, daemon_not_running, daemon_start_failed, daemon_start_timeout}
use otters.Cli.System.{
  System, timeout_connect, timeout_exit, poll_interval, get_daemon_dir, find_ojd_binary,
}
use otters.Cli.Startup.{read_startup_error, wrap_with_startup_error}
use otters.Cli.Stop.{Run, connect, daemon_stop}

-- How a call ends.
pub data Exit (A : Type 0) : Type 0 where
  returned : A → Exit A
  panicked : Exit A

module _ {W : Type 0} (sys : System W) where
  abbrev pub told : Option String → String → Run sys (Reply String) → W → Run sys (Reply String)
  told none status later w = later
  told (some e) status later w = some (err (daemon_start_failed e), w)

  -- The daemon has exited: its log is asked for the reason until the time is over.
  pub poll_log :
      (start : ℕ) → (project_root status : String) → (fuel : ℕ) → W → Run sys (Reply String)
  unfolding read_startup_error poll_interval timeout_exit
  poll_log start project_root status zero w = none
  poll_log start project_root status (suc fuel) w =
      let later = poll_log start project_root status fuel (sys.sleep (poll_interval sys) w) in
      if ltb (sys.now w - start) (timeout_exit sys)
      then told (read_startup_error sys project_root w) status later w
      else some (err (daemon_start_failed ("exited with " <> status)), w)

  -- A connection that did not succeed: the loop goes on only where the daemon does not run yet.
  pub tried : String → Reply String → Run sys (Reply String) → W → Run sys (Reply String)
  unfolding wrap_with_startup_error
  tried project_root (ok socket) later w = some (ok socket, w)
  tried project_root (err daemon_not_running) later w = later
  tried project_root (err e) later w = some (err (wrap_with_startup_error sys e project_root w), w)

  pub exited_or :
      (fuel : ℕ)
      → String
      → Result (Unit {0}) (Option String)
      → Run sys (Reply String)
      → W
      → Run sys (Reply String)
  unfolding poll_log
  exited_or fuel project_root (ok (some status)) next w =
      poll_log (sys.now w) project_root status fuel w
  exited_or fuel project_root (ok none) next w = next
  exited_or fuel project_root (err u) next w = next

  pub retry_from :
      (start timeout child : ℕ) → (project_root : String) → (fuel : ℕ) → W → Run sys (Reply String)
  unfolding exited_or tried connect poll_interval wrap_with_startup_error
  retry_from start timeout child project_root zero w = none
  retry_from start timeout child project_root (suc fuel) w =
      let (status, w') = sys.try_wait child w in
      let later =
        retry_from start timeout child project_root fuel (sys.sleep (poll_interval sys) w') in
      if ltb (sys.now w - start) timeout
      then exited_or fuel project_root status
          (tried project_root (connect sys project_root w') later w') w'
      else some (err (wrap_with_startup_error sys daemon_start_timeout project_root w), w)

  unfoldable pub connect_with_retry :
      (fuel : ℕ) → (project_root : String) → (timeout child : ℕ) → W → Run sys (Reply String)
  unfolding retry_from
  connect_with_retry fuel project_root timeout child w =
      retry_from (sys.now w) timeout child project_root fuel w

  pub started : (fuel : ℕ) → String → Result String ℕ → W → Run sys (Reply String)
  unfolding connect_with_retry timeout_connect
  started fuel project_root (err e) w = some (err (daemon_start_failed e), w)
  started fuel project_root (ok child) w =
      connect_with_retry fuel project_root (timeout_connect sys) child w

  -- `start_daemon_background`, for the binary that is found.
  unfoldable pub start_daemon_background : String → W → Result String ℕ × W
  unfolding find_ojd_binary
  start_daemon_background project_root w = sys.start (find_ojd_binary sys w) project_root w

  pub connect_else_start : (fuel : ℕ) → String → Reply String → W → Run sys (Reply String)
  unfolding started start_daemon_background wrap_with_startup_error
  connect_else_start fuel project_root (ok socket) w = some (ok socket, w)
  connect_else_start fuel project_root (err daemon_not_running) w =
      let (child, w') = start_daemon_background project_root w in started fuel project_root child w'
  connect_else_start fuel project_root (err e) w =
      some (err (wrap_with_startup_error sys e project_root w), w)

  pub returning : {A : Type 0} → Run sys A → Run sys (Exit A)
  returning none = none
  returning (some (a, w)) = some (returned a, w)

  -- `Handle::current().block_on(run)`: where it panics, the future has not begun.
  pub blocked_on : {A : Type 0} → (run : Run sys A) → W → Run sys (Exit A)
  unfolding returning
  blocked_on run w = if sys.can_block w then returning run else some (panicked, w)

  -- The rest of `connect_or_start`, in the state that the check of the version leaves.
  pub connect_next : (fuel : ℕ) → String → W → Run sys (Exit (Reply String))
  unfolding returning connect_else_start connect
  connect_next fuel project_root w =
      returning (connect_else_start fuel project_root (connect sys project_root w) w)

  -- The result of the stop is dropped, and a panic goes on.
  pub after_stop : (fuel : ℕ) → String → Run sys (Exit (Reply Bool)) → Run sys (Exit (Reply String))
  unfolding connect_next
  after_stop fuel project_root none = none
  after_stop fuel project_root (some (panicked, w)) = some (panicked, w)
  after_stop fuel project_root (some (returned result, w)) = connect_next fuel project_root w

  -- The text of the version file, where it can be read.
  pub version_text : Reply String → W → Option String
  version_text (err e) w = none
  version_text (ok dir) w = sys.read_file w (join_path dir "daemon.version")

  pub check_version :
      (fuel : ℕ)
      → (version project_root : String) → Option String
      → W
      → Run sys (Exit (Reply String))
  unfolding after_stop blocked_on daemon_stop connect_next trim
  check_version fuel version project_root none w = connect_next fuel project_root w
  check_version fuel version project_root (some text) w =
      if trim text == version
      then connect_next fuel project_root w
      else after_stop fuel project_root (blocked_on (daemon_stop sys fuel project_root w) w)

  -- A daemon of another version is to be stopped first; `version` is the client's.
  unfoldable pub connect_or_start :
      (fuel : ℕ) → (version project_root : String) → W → Run sys (Exit (Reply String))
  unfolding check_version version_text get_daemon_dir
  connect_or_start fuel version project_root w =
      check_version fuel version project_root (version_text (get_daemon_dir sys project_root w) w) w
