-- ===== src/Cli/Stop/Waiting.antt =====
-- Stopping the daemon takes a bounded time.
use otters.Base.{
  ℕ, zero, suc, ◌+◌, ◌-◌, ◌≤◌, ◌<◌, String, ◌≡◌, refl, Bool, true, false, Option, none, some, ltb,
  if◌then◌else◌, arith,
}
use otters.Base.Result.{ok, err}
use otters.Cli.Client.{
  Reply, daemon_not_running, daemon_start_failed, daemon_start_timeout, protocol, rejected,
  unexpected_response, io, no_project_root, no_state_dir,
}
use otters.Cli.System.{System, timeout_exit, poll_interval}
use otters.Cli.Stop.{
  wait_from, wait_for_exit, graceful, forced, finish_run, stop_pid, stop_connected, daemon_stop,
  Run,
}

-- A sleep takes the time that it is told, and no question turns the clock back.
pub record IsClock {W : Type 0} (sys : System W) : Type 0 where
  pub sleeps : (n : ℕ) (w : W) → sys.now w + n ≤ sys.now (sys.sleep n w)
  pub asks : (pid : ℕ) (w : W) → sys.now w ≤ sys.now (sys.process_exists pid w).1
  pub checks : (child : ℕ) (w : W) → sys.now w ≤ sys.now (sys.try_wait child w).1

module _ {W : Type 0} (sys : System W) (clock : IsClock sys) (waits : 1 ≤ poll_interval sys) where
  abbrev pub Ends : {A : Type 0} → Run sys A → Type 0
  Ends {A} o = (r : A × W) × (o ≡ some r)

  pub if-Ends :
      {A : Type 0} (b : Bool) (x y : Run sys A)
      → (b ≡ true → Ends x)
      → (b ≡ false → Ends y)
      → Ends (if b then x else y)
  if-Ends true x y hx hy = hx refl
  if-Ends false x y hx hy = hy refl

  -- One turn: the time is over, the process is gone, or the loop goes on after a sleep.
  turn-Ends :
      (start pid timeout fuel : ℕ) (w : W)
      → (ltb (sys.now w - start) timeout ≡ true
          → Ends (
              wait_from sys start pid timeout fuel
                (sys.sleep (poll_interval sys) (sys.process_exists pid w).1)))
      → Ends (wait_from sys start pid timeout (suc fuel) w)
  unfolding wait_from
  turn-Ends start pid timeout fuel w h =
      if-Ends (ltb (sys.now w - start) timeout) _ _
        (λ early.
          if-Ends (sys.process_exists pid w).0 _ _ (λ _. h early)
            (λ _. ((true, (sys.process_exists pid w).1), refl)))
        (λ late. ((false, w), refl))

  wait_from-Ends :
      (start pid timeout fuel : ℕ) (w : W)
      → start + timeout ≤ fuel + sys.now w
      → Ends (wait_from sys start pid timeout (suc fuel) w)
  wait_from-Ends start pid timeout zero w h =
      turn-Ends start pid timeout zero w (λ early. absurd (ground (arith, h, early)))
  wait_from-Ends start pid timeout (suc fuel) w h =
      turn-Ends start pid timeout (suc fuel) w λ early. wait_from-Ends start pid timeout fuel _ (
        omega (
          arith,
          h,
          waits,
          clock.asks pid w,
          clock.sleeps (poll_interval sys) (sys.process_exists pid w).1,
        ))

  wait_for_exit-Ends :
      (fuel pid timeout : ℕ) (w : W) → timeout < fuel → Ends (wait_for_exit sys fuel pid timeout w)
  unfolding wait_for_exit
  wait_for_exit-Ends zero pid timeout w h = absurd (omega (arith, h))
  wait_for_exit-Ends (suc fuel) pid timeout w h =
      wait_from-Ends (sys.now w) pid timeout fuel w (omega (arith, h))

  graceful-Ends :
      (fuel pid : ℕ) (r : Reply (Unit {0})) (w : W)
      → timeout_exit sys < fuel
      → Ends (graceful sys fuel r pid w)
  unfolding graceful
  graceful-Ends fuel pid (ok u) w h = wait_for_exit-Ends fuel pid (timeout_exit sys) w h
  graceful-Ends fuel pid (err e) w h = ((false, w), refl)

  forced-Ends :
      (fuel pid : ℕ) (o : Run sys Bool)
      → timeout_exit sys < fuel
      → Ends o
      → Ends (forced sys fuel pid o)
  unfolding forced
  forced-Ends fuel pid o h ((exited, w), e) =
      rw (e, forced)
        (if-Ends (sys.process_exists pid w).0 _ _
          (λ _. wait_for_exit-Ends fuel pid (timeout_exit sys) _ h)
          (λ _. ((true, (sys.process_exists pid w).1), refl)))

  finish_run-Ends :
      (project_root : String) (o : Run sys Bool) → Ends o → Ends (finish_run sys project_root o)
  unfolding finish_run
  finish_run-Ends project_root o ((exited, w), e) = rw (e, finish_run) (_, refl)

  stop_pid-Ends :
      (fuel : ℕ) (project_root : String) (r : Reply (Unit {0})) (pid : Reply (Option ℕ)) (w : W)
      → timeout_exit sys < fuel
      → Ends (stop_pid sys fuel project_root r pid w)
  unfolding stop_pid
  stop_pid-Ends fuel project_root r (err e) w h = (_, refl)
  stop_pid-Ends fuel project_root r (ok none) w h =
      finish_run-Ends project_root (some (false, w)) (_, refl)
  stop_pid-Ends fuel project_root r (ok (some pid)) w h =
      finish_run-Ends project_root _ (forced-Ends fuel pid _ h (graceful-Ends fuel pid r w h))

  stop_connected-Ends :
      (fuel : ℕ) (project_root : String) (c : Reply String) (w : W)
      → timeout_exit sys < fuel
      → Ends (stop_connected sys fuel project_root c w)
  unfolding stop_connected
  stop_connected-Ends fuel project_root (ok socket) w h =
      stop_pid-Ends fuel project_root _ _ (sys.shutdown socket w).1 h
  stop_connected-Ends fuel project_root (err daemon_not_running) w h = (_, refl)
  stop_connected-Ends fuel project_root (err (daemon_start_failed m)) w h = (_, refl)
  stop_connected-Ends fuel project_root (err daemon_start_timeout) w h = (_, refl)
  stop_connected-Ends fuel project_root (err (protocol e)) w h = (_, refl)
  stop_connected-Ends fuel project_root (err (rejected m)) w h = (_, refl)
  stop_connected-Ends fuel project_root (err unexpected_response) w h = (_, refl)
  stop_connected-Ends fuel project_root (err (io e)) w h = (_, refl)
  stop_connected-Ends fuel project_root (err no_project_root) w h = (_, refl)
  stop_connected-Ends fuel project_root (err no_state_dir) w h = (_, refl)

  -- `daemon_stop` ends, whether the daemon runs, shuts down when asked, dies when killed, or does
  -- none of these: each of its waits takes at most one turn for each millisecond of its timeout, if
  -- the interval between two looks is not zero.
  pub daemon_stop-Ends :
      (fuel : ℕ) (project_root : String) (w : W)
      → timeout_exit sys < fuel
      → Ends (daemon_stop sys fuel project_root w)
  unfolding daemon_stop
  daemon_stop-Ends fuel project_root w h = stop_connected-Ends fuel project_root _ w h
