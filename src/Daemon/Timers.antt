-- ===== src/Daemon/Timers.antt =====
-- The timers of the daemon. `startup` makes one scheduler for the daemon, and `Runtime::new` makes
-- another one for the executor; `check_heartbeats` asks the first, and `Effect::SetTimer` sets the
-- second.
use otters.Base.{ℕ, String, ◌≡◌, refl, some, Option, subst, List}
use otters.Base.Result.{Result, ok, err}
use otters.Core.Clock.{Instant}
use otters.Core.Operation.{Operation}
use otters.Storage.Wal.{WalError}
use otters.Engine.Machine.{Env, Machine}
use otters.Engine.Frame.{Framed}
use otters.Engine.Runtime.{Setup}
use otters.Daemon.Lifecycle.{Daemon, start_with, content_of, startup, check_heartbeats}
use otters.Daemon.Reach.{Reach, Holds, Reach-Holds, check_heartbeats_idle}

module _ {V W : Type 0} (env : Env V W) where
  Anything : Machine W → Type 0
  Anything m = Unit

  Anything-Framed : Framed env Anything
  unfolding Anything
  Anything-Framed = record { frame = λ m s ws w h. tt; persists = λ op. record { at = λ m h. tt } }

  start_with-Holds :
      (world : W) (now : Instant) (file : String) (r : Result WalError (List Operation))
      {d : Daemon W}
      → start_with world now file r ≡ ok d
      → Holds W Anything d
  unfolding start_with Anything
  start_with-Holds world now file (err x) e = cc
  start_with-Holds world now file (ok ops) e =
      subst (λ r. elim r [ ok d' ↦ Holds W Anything d' | err x ↦ Unit {0} ]) e
        (record { machine = tt; idle = refl })

  -- In every daemon that a start leads to, a heartbeat returns, within any fuel, and changes nothing:
  -- no timer fires, whatever timers the engine has set and however late it is.
  pub check_heartbeats-Reach :
      (setup : Setup) (world : W) (now : Instant) (file : Option String) (d e : Daemon W) (fuel : ℕ)
      (later : Instant)
      → startup env world now file ≡ ok d
      → Reach env setup d e
      → check_heartbeats env setup fuel later e ≡ some (ok tt, e)
  unfolding startup
  check_heartbeats-Reach setup world now file d e fuel later s r =
      check_heartbeats_idle env setup fuel later e
        (Reach-Holds Anything-Framed setup r
          (start_with-Holds world now (content_of file) _ s)).idle
