-- ===== src/Cli/Stop.antt =====
-- client.rs of crates/cli: connecting to the daemon, starting it and stopping it. The loops that wait
-- are on fuel.
pub mod Waiting
use otters.Base.{
  ℕ, zero, suc, ◌-◌, String, Bool, true, false, not, Option, none, some, if◌then◌else◌, ltb, ◌==◌,
}
use otters.Base.Text.{◌<>◌, join_path}
use otters.Base.Chars.{trim}
use otters.Base.Result.{Result, ok, err}
use otters.Cli.Client.{
  ClientError, Reply, daemon_not_running, daemon_start_failed, daemon_start_timeout,
}
use otters.Cli.System.{
  System, and_then, timeout_connect, timeout_exit, poll_interval, get_socket_path, get_daemon_dir,
  find_ojd_binary,
}
use otters.Cli.Startup.{read_startup_error, wrap_with_startup_error}

module _ {W : Type 0} (sys : System W) where
  -- What a call returns and the state that it leaves; `none` is a loop that the fuel does not end.
  abbrev pub Run : Type 0 → Type 0
  Run A = Option (A × W)

  pub wait_from : (start pid timeout : ℕ) → (fuel : ℕ) → W → Run Bool
  unfolding poll_interval
  wait_from start pid timeout zero w = none
  wait_from start pid timeout (suc fuel) w =
      if ltb (sys.now w - start) timeout
      then (let (alive, w') = sys.process_exists pid w in
          let later = wait_from start pid timeout fuel (sys.sleep (poll_interval sys) w') in
          if alive then later else some (true, w'))
      else some (false, w)

  unfoldable pub wait_for_exit : (fuel : ℕ) → (pid timeout : ℕ) → W → Run Bool
  unfolding wait_from
  wait_for_exit fuel pid timeout w = wait_from (sys.now w) pid timeout fuel w

  unfoldable pub cleanup_stale_pid : String → W → W
  cleanup_stale_pid dir w =
      let path = join_path dir "daemon.pid" in
      if sys.exists w path then sys.remove_file path w else w

  pid_in : String → W → Option ℕ
  unfolding trim
  pid_in dir w =
      let path = join_path dir "daemon.pid" in
      if sys.exists w path
      then and_then (sys.read_file w path) (λ content. sys.parse_u32 (trim content))
      else none

  pid_of : W → Reply String → Reply (Option ℕ)
  unfolding pid_in
  pid_of w (err e) = err e
  pid_of w (ok dir) = ok (pid_in dir w)

  unfoldable pub read_daemon_pid : String → W → Reply (Option ℕ)
  unfolding pid_of get_daemon_dir
  read_daemon_pid project_root w = pid_of w (get_daemon_dir sys project_root w)

  connected : W → Reply String → Reply String
  connected w (err e) = err e
  connected w (ok path) = if sys.exists w path then ok path else err daemon_not_running

  -- `DaemonClient::connect`, where a client is its socket's path.
  unfoldable pub connect : String → W → Reply String
  unfolding connected get_socket_path
  connect project_root w = connected w (get_socket_path sys project_root w)

  cleaned : Reply String → W → W
  unfolding cleanup_stale_pid
  cleaned (err e) w = w
  cleaned (ok dir) w = cleanup_stale_pid dir w

  -- A shutdown that was accepted is given time.
  pub graceful : (fuel : ℕ) → Reply (Unit {0}) → ℕ → W → Run Bool
  unfolding wait_for_exit timeout_exit
  graceful fuel (ok u) pid w = wait_for_exit fuel pid (timeout_exit sys) w
  graceful fuel (err e) pid w = some (false, w)

  -- A process that is still there is killed.
  pub forced : (fuel : ℕ) → ℕ → Run Bool → Run Bool
  unfolding wait_for_exit timeout_exit
  forced fuel pid none = none
  forced fuel pid (some (exited, w)) =
      let (alive, w') = sys.process_exists pid w in
      if alive
      then wait_for_exit fuel pid (timeout_exit sys) (sys.force_kill pid w').1
      else some (true, w')

  finish : Reply String → W → Reply Bool × W
  unfolding cleaned
  finish (err e) w = (err e, w)
  finish (ok dir) w = (ok true, cleaned (ok dir) w)

  pub finish_run : String → Run Bool → Run (Reply Bool)
  unfolding finish get_daemon_dir
  finish_run project_root none = none
  finish_run project_root (some (exited, w)) = some (finish (get_daemon_dir sys project_root w) w)

  pub stop_pid : (fuel : ℕ) → String → Reply (Unit {0}) → Reply (Option ℕ) → W → Run (Reply Bool)
  unfolding graceful forced finish_run
  stop_pid fuel project_root result (err e) w = some (err e, w)
  stop_pid fuel project_root result (ok none) w = finish_run project_root (some (false, w))
  stop_pid fuel project_root result (ok (some pid)) w =
      finish_run project_root (forced fuel pid (graceful fuel result pid w))

  pub stop_connected : (fuel : ℕ) → String → Reply String → W → Run (Reply Bool)
  unfolding stop_pid cleaned read_daemon_pid get_daemon_dir
  stop_connected fuel project_root (err daemon_not_running) w =
      some (ok false, cleaned (get_daemon_dir sys project_root w) w)
  stop_connected fuel project_root (err e) w = some (err e, w)
  stop_connected fuel project_root (ok socket) w =
      let (result, w') = sys.shutdown socket w in
      stop_pid fuel project_root result (read_daemon_pid project_root w') w'

  unfoldable pub daemon_stop : (fuel : ℕ) → String → W → Run (Reply Bool)
  unfolding stop_connected connect
  daemon_stop fuel project_root w = stop_connected fuel project_root (connect project_root w) w
