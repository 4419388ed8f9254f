-- ===== src/Daemon/Recovery.antt =====
-- A restart of the daemon: `startup` reads the log that the daemon before it has written.
use otters.Base.{String, ◌≡◌, refl, sym, ◌∙◌, ap, subst, some, List}
use otters.Base.Result.{ok, err}
use otters.Core.Clock.{Instant}
use otters.Core.Operation.{Operation}
use otters.Storage.State.Times.{erase, erase-replay_state}
use otters.Storage.Wal.{open_wal}
use otters.Storage.Wal.Replay.{IsFaithful, IsAtomic, IsLog, replay-IsLog}
use otters.Engine.Machine.{Env}
use otters.Engine.Runtime.{Setup}
use otters.Engine.Durable.{IsDurable, IsDurable-Framed}
use otters.Daemon.Lifecycle.{Daemon, start_with, startup}
use otters.Daemon.Reach.{Reach, Holds, Reach-Holds}

module _ {V W : Type 0} (env : Env V W) where
  startup-IsLog :
      (world : W) (now : Instant) (file : String) (ops : List Operation)
      → IsLog env.codec file ops
      → startup env world now (some file) ≡ start_with world now file (ok ops)
  unfolding startup
  startup-IsLog world now file ops h =
      ap (start_with world now file) (replay-IsLog env.codec file ops h)

  started-Holds :
      (world : W) (now : Instant) (file : String) (ops : List Operation) {d : Daemon W}
      → IsLog env.codec file ops
      → start_with world now file (ok ops) ≡ ok d
      → Holds W (IsDurable env.codec) d
  unfolding start_with open_wal
  started-Holds world now file ops {d} h e =
      subst (λ r. elim r [ ok d' ↦ Holds W (IsDurable env.codec) d' | err x ↦ Unit {0} ]) e
        (record {
          machine = record { ops = ops; logged = h; replayed = erase-replay_state now ops };
          idle = refl;
        })

  -- With JSON that parses back and writes that are atomic, from a start on a file that is a log of
  -- some operations: whatever the daemon has done since, a start on the file that it leaves
  -- succeeds, with the state that it had but for the time stamps.
  pub startup-Reach :
      (faithful : IsFaithful env.codec) (atomic : (w : W) → IsAtomic (env.write_log w).0)
      (setup : Setup) (world later : W) (now then' : Instant) (file : String) (ops : List Operation)
      (d e : Daemon W)
      → IsLog env.codec file ops
      → startup env world now (some file) ≡ ok d
      → Reach env setup d e
      → (f : Daemon W) × (startup env later then' (some e.machine.wal.file) ≡ ok f)
        × (erase f.machine.state ≡ erase e.machine.state)
  unfolding start_with
  startup-Reach faithful atomic setup world later now then' file ops d e h s r =
      let held : Holds W (IsDurable env.codec) e =
        Reach-Holds (IsDurable-Framed env faithful atomic) setup r
          (started-Holds world now file ops h (sym (startup-IsLog world now file ops h) ∙ s)) in
      (
        _,
        startup-IsLog later then' e.machine.wal.file held.machine.ops held.machine.logged,
        erase-replay_state then' held.machine.ops ∙ sym held.machine.replayed,
      )
