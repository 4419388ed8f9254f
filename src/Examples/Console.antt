-- ===== src/Examples/Console.antt =====
-- The theorems on connecting to the daemon, on one that does not react.
use otters.Base.{
  ◌≡◌, ◌↔◌, refl, ℕ, ◌+◌, ◌<◌, ◌≤◌, if◌then◌else◌, true, false, none, some, [], ◌∷◌, ◌==◌, arith,
}
use otters.Base.Result.{ok}
use otters.Cli.System.{System, timeout_connect, timeout_exit, poll_interval}
use otters.Cli.Start.{panicked, connect_or_start}
use otters.Cli.Start.Version.{IsOutdated, connect_or_start-panics}
use otters.Cli.Start.Waiting.{connect_or_start-Ends}
use otters.Cli.Stop.Waiting.{IsClock, Ends}

-- The state is the time. A daemon that is started stays, and never opens its socket.
abbrev stuck : System ℕ
stuck = record {
  env_var = λ var. if var == "HOME" then some "/home/u" else none;
  parse_u64 = λ s. none;
  parse_u32 = λ s. some 77;
  project_hash = λ p. "0123456789abcdef";
  parent = λ p. none;
  ancestors = λ p. p ∷ [];
  current_exe = none;
  current_dir = λ w. some "/project";
  canonicalize = λ w p. some p;
  is_dir = λ w p. false;
  exists = λ w p. false;
  read_file = λ w p. some "77";
  remove_file = λ p w. w;
  now = λ w. w;
  sleep = λ n w. w + n;
  process_exists = λ pid w. (true, w);
  force_kill = λ pid w. (false, w);
  shutdown = λ socket w. (ok tt, w);
  start = λ binary root w. (ok 5, w);
  can_block = λ w. false;
  try_wait = λ child w. (ok none, w);
}

stuck-IsClock : IsClock stuck
stuck-IsClock = record {
  sleeps = λ n w. omega arith;
  asks = λ pid w. omega arith;
  checks = λ child w. omega arith;
}

polls : 1 ≤ poll_interval stuck
unfolding poll_interval
polls = omega arith

enough : timeout_connect stuck + timeout_exit stuck + 1 < 7002
unfolding timeout_connect timeout_exit
enough = omega arith

connect_or_start-Ends_example :
    Ends stuck stuck-IsClock polls (connect_or_start stuck 7002 "77" "/project" 9)
connect_or_start-Ends_example =
    connect_or_start-Ends stuck stuck-IsClock polls 7002 "77" "/project" 9 enough

connect_or_start-panics_example :
    (connect_or_start stuck 7002 "0.1" "/project" 9 ≡ some (panicked, 9))
    ↔ IsOutdated stuck "0.1" "/project" 9
connect_or_start-panics_example = connect_or_start-panics stuck 7002 "0.1" "/project" 9 refl
