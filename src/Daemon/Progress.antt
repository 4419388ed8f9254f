-- ===== src/Daemon/Progress.antt =====
-- The daemon's event loop on a pipeline of shell phases: `process_event` of lifecycle.rs.
use otters.Base.{ℕ, zero, suc, ◌<◌, String, false, ◌≡◌, refl, some, none, arith}
use otters.Base.Int.{pos}
use otters.Base.Result.{ok}
use otters.Base.Dict.{get}
use otters.Core.Event.{shell_completed}
use otters.Core.Operation.{completed}
use otters.Core.Pipeline.{Pipeline, is_terminal}
use otters.Engine.Machine.{Env}
use otters.Engine.Yields.{Works}
use otters.Engine.Completion.{IsLast, handle_event-done}
use otters.Engine.Progress.{Succeeds, IsShellNext, entered, handle_event-entered}
use otters.Engine.Runtime.{Setup, handle_event}
use otters.Daemon.Lifecycle.{Daemon, resume, process_events, process_event}

-- From its own phase on, the pipeline has `n` phases, and all behind its own run shell commands.
pub data Phases (setup : Setup) : Pipeline → ℕ → Type 0 where
  last : {p : Pipeline} → is_terminal p ≡ false → IsLast setup p → Phases setup p 1
  more :
      {p : Pipeline} {n : ℕ} (phase : String)
      → is_terminal p ≡ false
      → IsShellNext setup p phase
      → Phases setup (entered p phase) n
      → Phases setup p (suc n)

-- The pipeline behind its last phase.
abbrev pub ended : Pipeline → Pipeline
ended p = record p { phase = "done"; phase_status = completed }

module _ {V W : Type 0} (env : Env V W) (works : Works env) (succeeds : Succeeds env)
    (setup : Setup) where
  -- The loop ends, and leaves the pipeline at its end.
  abbrev pub Completes : ℕ → Pipeline → Daemon W → Type 0
  Completes fuel p d =
      (d' : Daemon W) × (process_event env setup fuel (shell_completed p.id p.phase (pos 0)) d
        ≡ some (ok tt, d'))
      × (get d'.machine.state.pipelines p.id ≡ some (ended p))

  -- Where the log, JSON and the notifier work and every shell command succeeds: when the command of
  -- a phase of a stored pipeline has succeeded, and `n` phases are left with it that run shell
  -- commands, the event loop ends within `n + 1` turns, and leaves the pipeline in phase "done" with
  -- status completed, and else as it was. The pipeline names no session.
  pub process_event-Completes :
      (n fuel : ℕ) (p : Pipeline) (d : Daemon W)
      → n < fuel
      → get d.machine.state.pipelines p.id ≡ some p
      → p.session_id ≡ none
      → Phases setup p n
      → Completes fuel p d
  unfolding process_event process_events resume
  process_event-Completes n zero p d enough stored no_session h = absurd (omega (arith, enough))
  process_event-Completes _ (suc zero) p d enough stored no_session (last going end) =
      absurd (omega (arith, enough))
  process_event-Completes _ (suc (suc fuel)) p d enough stored no_session (last going end) =
      let (returned, there) =
        handle_event-done env works setup d.machine p stored going no_session end in
      let after = (handle_event env setup (shell_completed p.id p.phase (pos 0)) d.machine).1 in
      (record d { machine = after }, rw returned refl, there)
  process_event-Completes _ (suc fuel) p d enough stored no_session
        (more {n = n} phase going next rest) =
      let (returned, there) =
        handle_event-entered env works succeeds setup d.machine p phase stored going next in
      let after = (handle_event env setup (shell_completed p.id p.phase (pos 0)) d.machine).1 in
      let (d', loop, at_end) =
        process_event-Completes n fuel (entered p phase) (record d { machine = after })
          (omega (arith, enough)) there no_session rest in
      (d', rw returned loop, at_end)
