-- ===== src/Cli/Start/Waiting.antt =====
-- Connecting to the daemon takes a bounded time, whether it runs, starts, exits or never comes up.
use otters.Base.{
  ℕ, zero, suc, ◌+◌, ◌-◌, ◌≤◌, ◌<◌, String, refl, Bool, Option, none, some, ltb, arith, ◌==◌,
}
use otters.Base.Chars.{trim}
use otters.Base.Result.{Result, ok, err}
use otters.Cli.Client.{
  Reply, daemon_not_running, daemon_start_failed, daemon_start_timeout, protocol, rejected,
  unexpected_response, io, no_project_root, no_state_dir,
}
use otters.Cli.System.{System, timeout_connect, timeout_exit, poll_interval, get_daemon_dir}
use otters.Cli.Startup.{read_startup_error}
use otters.Cli.Stop.{Run, connect}
use otters.Cli.Stop.Waiting.{IsClock, Ends, if-Ends, daemon_stop-Ends}
use otters.Cli.Start.{
  Exit, returned, panicked, told, poll_log, tried, exited_or, retry_from, connect_with_retry,
  started, start_daemon_background, connect_else_start, blocked_on, returning, connect_next,
  after_stop, version_text, check_version, connect_or_start,
}

module _ {W : Type 0} (sys : System W) (clock : IsClock sys) (waits : 1 ≤ poll_interval sys) where
  told-Ends :
      (o : Option String) (status : String) (later : Run sys (Reply String)) (w : W)
      → Ends sys clock waits later
      → Ends sys clock waits (told sys o status later w)
  told-Ends none status later w h = h
  told-Ends (some e) status later w h = (_, refl)

  poll_log-Ends :
      (start : ℕ) (project_root status : String) (fuel : ℕ) (w : W)
      → start + timeout_exit sys ≤ fuel + sys.now w
      → Ends sys clock waits (poll_log sys start project_root status (suc fuel) w)
  unfolding poll_log
  poll_log-Ends start project_root status zero w h =
      if-Ends sys clock waits (ltb (sys.now w - start) (timeout_exit sys)) _ _
        (λ early. absurd (ground (arith, h, early))) (λ late. (_, refl))
  poll_log-Ends start project_root status (suc fuel) w h =
      if-Ends sys clock waits (ltb (sys.now w - start) (timeout_exit sys)) _ _
        (λ early. told-Ends (read_startup_error sys project_root w) status _ w (
          poll_log-Ends start project_root status fuel (sys.sleep (poll_interval sys) w)
            (omega (arith, h, waits, clock.sleeps (poll_interval sys) w))))
        (λ late. (_, refl))

  tried-Ends :
      (project_root : String) (c : Reply String) (later : Run sys (Reply String)) (w : W)
      → Ends sys clock waits later
      → Ends sys clock waits (tried sys project_root c later w)
  unfolding tried
  tried-Ends project_root (ok socket) later w h = (_, refl)
  tried-Ends project_root (err daemon_not_running) later w h = h
  tried-Ends project_root (err (daemon_start_failed m)) later w h = (_, refl)
  tried-Ends project_root (err daemon_start_timeout) later w h = (_, refl)
  tried-Ends project_root (err (protocol e)) later w h = (_, refl)
  tried-Ends project_root (err (rejected m)) later w h = (_, refl)
  tried-Ends project_root (err unexpected_response) later w h = (_, refl)
  tried-Ends project_root (err (io e)) later w h = (_, refl)
  tried-Ends project_root (err no_project_root) later w h = (_, refl)
  tried-Ends project_root (err no_state_dir) later w h = (_, refl)

  exited_or-Ends :
      (fuel : ℕ) (project_root : String) (status : Result (Unit {0}) (Option String))
      (next : Run sys (Reply String)) (w : W)
      → timeout_exit sys < fuel
      → Ends sys clock waits next
      → Ends sys clock waits (exited_or sys fuel project_root status next w)
  unfolding exited_or
  exited_or-Ends zero project_root status next w enough h = absurd (omega (arith, enough))
  exited_or-Ends (suc fuel) project_root (ok (some status)) next w enough h =
      poll_log-Ends (sys.now w) project_root status fuel w (omega (arith, enough))
  exited_or-Ends (suc fuel) project_root (ok none) next w enough h = h
  exited_or-Ends (suc fuel) project_root (err u) next w enough h = h

  retry_from-Ends :
      (start timeout child : ℕ) (project_root : String) (fuel : ℕ) (w : W)
      → start + timeout + timeout_exit sys < fuel + sys.now w
      → Ends sys clock waits (retry_from sys start timeout child project_root (suc fuel) w)
  unfolding retry_from
  retry_from-Ends start timeout child project_root zero w h =
      if-Ends sys clock waits (ltb (sys.now w - start) timeout) _ _
        (λ early. absurd (ground (arith, h, early))) (λ late. (_, refl))
  retry_from-Ends start timeout child project_root (suc fuel) w h =
      let after = (sys.try_wait child w).1 in
      if-Ends sys clock waits (ltb (sys.now w - start) timeout) _ _
        (λ early.
          exited_or-Ends (suc fuel) project_root (sys.try_wait child w).0 _ after
            (ground (arith, h, early))
            (tried-Ends project_root (connect sys project_root after) _ after (
              retry_from-Ends start timeout child project_root fuel
                (sys.sleep (poll_interval sys) after)
                (omega (
                  arith,
                  h,
                  waits,
                  clock.checks child w,
                  clock.sleeps (poll_interval sys) after,
                )))))
        (λ late. (_, refl))

  -- The turns that are enough.
  abbrev Enough : ℕ → Type 0
  Enough fuel = timeout_connect sys + timeout_exit sys + 1 < fuel

  started-Ends :
      (fuel : ℕ) (project_root : String) (child : Result String ℕ) (w : W)
      → Enough fuel
      → Ends sys clock waits (started sys fuel project_root child w)
  unfolding started connect_with_retry
  started-Ends fuel project_root (err e) w h = (_, refl)
  started-Ends zero project_root (ok child) w h = absurd (omega (arith, h))
  started-Ends (suc fuel) project_root (ok child) w h =
      retry_from-Ends (sys.now w) (timeout_connect sys) child project_root fuel w (omega (arith, h))

  connect_else_start-Ends :
      (fuel : ℕ) (project_root : String) (c : Reply String) (w : W)
      → Enough fuel
      → Ends sys clock waits (connect_else_start sys fuel project_root c w)
  unfolding connect_else_start
  connect_else_start-Ends fuel project_root (ok socket) w h = (_, refl)
  connect_else_start-Ends fuel project_root (err daemon_not_running) w h =
      let (child, after) = start_daemon_background sys project_root w in
      started-Ends fuel project_root child after h
  connect_else_start-Ends fuel project_root (err (daemon_start_failed m)) w h = (_, refl)
  connect_else_start-Ends fuel project_root (err daemon_start_timeout) w h = (_, refl)
  connect_else_start-Ends fuel project_root (err (protocol e)) w h = (_, refl)
  connect_else_start-Ends fuel project_root (err (rejected m)) w h = (_, refl)
  connect_else_start-Ends fuel project_root (err unexpected_response) w h = (_, refl)
  connect_else_start-Ends fuel project_root (err (io e)) w h = (_, refl)
  connect_else_start-Ends fuel project_root (err no_project_root) w h = (_, refl)
  connect_else_start-Ends fuel project_root (err no_state_dir) w h = (_, refl)

  returning-Ends :
      {A : Type 0} (o : Run sys A) → Ends sys clock waits o → Ends sys clock waits (returning sys o)
  unfolding returning
  returning-Ends none ((a, w), e) = absurd (cc e)
  returning-Ends (some (a, w)) e = (_, refl)

  connect_next-Ends :
      (fuel : ℕ) (project_root : String) (w : W)
      → Enough fuel
      → Ends sys clock waits (connect_next sys fuel project_root w)
  unfolding connect_next
  connect_next-Ends fuel project_root w h =
      returning-Ends _ (connect_else_start-Ends fuel project_root (connect sys project_root w) w h)

  blocked_on-Ends :
      {A : Type 0} (o : Run sys A) (w : W)
      → Ends sys clock waits o
      → Ends sys clock waits (blocked_on sys o w)
  unfolding blocked_on
  blocked_on-Ends o w h =
      if-Ends sys clock waits (sys.can_block w) _ _ (λ _. returning-Ends o h) (λ _. (_, refl))

  after_stop-Ends :
      (fuel : ℕ) (project_root : String) (o : Run sys (Exit (Reply Bool)))
      → Enough fuel
      → Ends sys clock waits o
      → Ends sys clock waits (after_stop sys fuel project_root o)
  unfolding after_stop
  after_stop-Ends fuel project_root none h ((a, v), e) = absurd (cc e)
  after_stop-Ends fuel project_root (some (panicked, v)) h e = (_, refl)
  after_stop-Ends fuel project_root (some (returned result, v)) h e =
      connect_next-Ends fuel project_root v h

  check_version-Ends :
      (fuel : ℕ) (version project_root : String) (text : Option String) (w : W)
      → Enough fuel
      → Ends sys clock waits (check_version sys fuel version project_root text w)
  unfolding check_version
  check_version-Ends fuel version project_root none w h = connect_next-Ends fuel project_root w h
  check_version-Ends fuel version project_root (some text) w h =
      if-Ends sys clock waits (trim text == version) _ _
        (λ _. connect_next-Ends fuel project_root w h)
        (λ _. after_stop-Ends fuel project_root _ h (
          blocked_on-Ends _ w
            (daemon_stop-Ends sys clock waits fuel project_root w (omega (arith, h)))))

  -- `connect_or_start` ends, in a result or in a panic: be a daemon
  -- of its version there, or one of another version, which it stops or panics at, be it that the daemon
  -- that it starts exits, or that this daemon never opens its socket. Its turns are no more than the
  -- milliseconds of the timeouts for a connection and for an exit together, and two, if a sleep takes
  -- its time, no question turns the clock back, and the interval between two turns is not zero.
  pub connect_or_start-Ends :
      (fuel : ℕ) (version project_root : String) (w : W)
      → timeout_connect sys + timeout_exit sys + 1 < fuel
      → Ends sys clock waits (connect_or_start sys fuel version project_root w)
  unfolding connect_or_start
  connect_or_start-Ends fuel version project_root w h =
      check_version-Ends fuel version project_root
        (version_text sys (get_daemon_dir sys project_root w) w) w h
