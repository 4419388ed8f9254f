-- ===== src/Engine/Durable.antt =====
-- The log of the executor and the state in memory (executor.rs, `Effect::Persist`).
use otters.Base.{ℕ, ◌≡◌, ap, ◌∙◌, sym, List, [], ◌∷◌, ◌++◌}
use otters.Base.Result.{Result, ok, err, map_err}
use otters.Base.Exec.{Keeps, continue, mapping, ◌>>=◌}
use otters.Core.Event.{Event}
use otters.Core.Operation.{Operation}
use otters.Storage.State.{apply, replay_state}
use otters.Storage.State.Times.{erase, erase-apply, replay_state-append}
use otters.Storage.Wal.{WalError, Codec, append}
use otters.Storage.Wal.Replay.{IsFaithful, IsAtomic, IsLog, LogAfter, append-LogAfter}
use otters.Engine.Error.{ExecuteError}
use otters.Engine.Machine.{Env, Machine, ask}
use otters.Engine.Executor.{record_state, persist_operation}
use otters.Engine.Frame.{Framed, handle_event-Keeps}
use otters.Engine.Runtime.{Setup, handle_event}

module _ {W : Type 0} where
  pub record IsDurable (codec : Codec) (m : Machine W) : Type 0 where
    pub ops : List Operation
    pub logged : IsLog codec m.wal.file ops
    pub replayed : erase m.state ≡ replay_state 0 ops

module _ {V W : Type 0} (env : Env V W) (faithful : IsFaithful env.codec) where
  record_state-IsDurable :
      (op : Operation) (m : Machine W) (ops : List Operation)
      → IsLog env.codec m.wal.file (ops ++ op ∷ [])
      → erase m.state ≡ replay_state 0 ops
      → IsDurable env.codec (record_state env op m).1
  unfolding record_state ask ◌>>=◌
  record_state-IsDurable op m ops l e = record {
    ops = ops ++ op ∷ [];
    logged = l;
    replayed =
        erase-apply (env.now m.world).0 m.state op
        ∙ ap (λ s. apply 0 s op) e
        ∙ sym (replay_state-append ops op);
  }

  committed :
      (op : Operation) (r : Result WalError ℕ) (m : Machine W) (ops : List Operation)
      → LogAfter env.codec r m.wal.file ops op
      → erase m.state ≡ replay_state 0 ops
      → IsDurable env.codec
          (continue (map_err ExecuteError.storage r) (λ seq. record_state env op) m).1
  committed op (ok seq) m ops l e = record_state-IsDurable op m ops l e
  committed op (err x) m ops l e = record { ops = ops; logged = l; replayed = e }

  module _ (atomic : (w : W) → IsAtomic (env.write_log w).0) where
    persist_operation-IsDurable :
        (op : Operation) → Keeps (IsDurable env.codec) (persist_operation env op)
    unfolding persist_operation ask mapping ◌>>=◌
    persist_operation-IsDurable op = record {
      at = λ m h.
          let outcome = env.write_log m.world in
          committed op (append env.codec outcome.0 op m.wal).0
            (record m { wal = (append env.codec outcome.0 op m.wal).1; world = outcome.1 }) h.ops
            (append-LogAfter faithful outcome.0 op m.wal h.ops (atomic m.world) h.logged)
            h.replayed;
    }

    pub IsDurable-Framed : Framed env (IsDurable env.codec)
    IsDurable-Framed = record {
      frame = λ m s ws w h. record { ops = h.ops; logged = h.logged; replayed = h.replayed };
      persists = persist_operation-IsDurable;
    }

    -- With JSON that parses back and writes that are atomic, every event keeps the log and the
    -- state together, whether its handler returns or fails: if the log's file holds operations
    -- whose replay is the state, but for the time stamps, then so it does afterwards.
    pub handle_event-IsDurable :
        (setup : Setup) (event : Event V) (m : Machine W)
        → IsDurable env.codec m
        → IsDurable env.codec (handle_event env setup event m).1
    handle_event-IsDurable setup event m h =
        (handle_event-Keeps IsDurable-Framed setup event).at m h
