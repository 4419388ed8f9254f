-- ===== src/Engine/Pipelines.antt =====
-- Invariants of the pipelines in memory: a property that `apply` keeps is kept by the engine.
use otters.Base.{ℕ, String, ◌≡◌, refl, none}
use otters.Base.Result.{Result, ok, err, map_err}
use otters.Base.Exec.{Keeps, continue, mapping, ◌>>=◌}
use otters.Core.Operation.{Operation}
use otters.Core.Pipeline.{Pipeline, new}
use otters.Storage.State.Each.{IsKept, Each, apply-Each}
use otters.Storage.Wal.{WalError, append}
use otters.Engine.Error.{ExecuteError}
use otters.Engine.Machine.{Env, Machine, ask}
use otters.Engine.Executor.{record_state, persist_operation}
use otters.Engine.Frame.{Framed}

module _ {V W : Type 0} (env : Env V W) (P : String → Pipeline → Type 0) (kept : IsKept P) where
  -- Each pipeline of the machine's state has `P`.
  abbrev pub EachOf : Machine W → Type 0
  EachOf m = Each P m.state

  recorded :
      (op : Operation) (r : Result WalError ℕ) (m : Machine W)
      → EachOf m
      → EachOf (continue (map_err ExecuteError.storage r) (λ seq. record_state env op) m).1
  unfolding record_state ask ◌>>=◌
  recorded op (ok seq) m h = apply-Each P kept (env.now m.world).0 m.state op h
  recorded op (err e) m h = h

  persist_operation-EachOf : (op : Operation) → Keeps EachOf (persist_operation env op)
  unfolding persist_operation ask mapping ◌>>=◌
  persist_operation-EachOf op = record {
    at = λ m h.
        let outcome = env.write_log m.world in
        recorded op (append env.codec outcome.0 op m.wal).0
          (record m { wal = (append env.codec outcome.0 op m.wal).1; world = outcome.1 }) h;
  }

  pub EachOf-Framed : Framed env EachOf
  EachOf-Framed = record { frame = λ m s ws w h. h; persists = persist_operation-EachOf }

-- A pipeline is stored under its own id.
abbrev pub IsKeyed : String → Pipeline → Type 0
IsKeyed k p = p.id ≡ k

pub IsKeyed-IsKept : IsKept IsKeyed
unfolding new
IsKeyed-IsKept = record {
  created = λ id kind name inputs initial_phase now. refl;
  moved = λ k p phase h. h;
  updated = λ k p status h. h;
  linked = λ k p path h. h;
}

-- A pipeline that names no session and holds no error.
pub record IsBare (k : String) (p : Pipeline) : Type 0 where
  pub no_session : p.session_id ≡ none
  pub no_error : p.error ≡ none

pub IsBare-IsKept : IsKept IsBare
unfolding new
IsBare-IsKept = record {
  created = λ id kind name inputs initial_phase now. record { no_session = refl; no_error = refl };
  moved = λ k p phase h. record { no_session = h.no_session; no_error = h.no_error };
  updated = λ k p status h. record { no_session = h.no_session; no_error = h.no_error };
  linked = λ k p path h. record { no_session = h.no_session; no_error = h.no_error };
}
