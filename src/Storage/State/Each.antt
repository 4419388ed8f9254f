-- ===== src/Storage/State/Each.antt =====
-- Properties of every pipeline of a state, by its key: what `apply` needs to keep one.
use mathlib.Core.List.{foldl}
use otters.Base.{String, some, List, [], ◌∷◌}
use otters.Base.Dict.{
  Dict, AllEntries, empty-AllEntries, insert-AllEntries, remove-AllEntries, modify-AllEntries,
}
use otters.Core.Clock.{Instant}
use otters.Core.Operation.{
  Operation, PhaseStatus, pending, pipeline_create, pipeline_transition, phase_status_update,
  pipeline_delete, session_create, session_delete, workspace_create, workspace_delete,
}
use otters.Core.Pipeline.{Pipeline, new}
use otters.Storage.State.{MaterializedState, apply, init, replay_state}

-- The changes that operations make to a pipeline keep `P` of its key, and a new pipeline has it.
pub record IsKept (P : String → Pipeline → Type 0) : Type 0 where
  pub created :
      (id kind name : String) (inputs : Dict String) (initial_phase : String) (now : Instant)
      → P id (new id name kind inputs initial_phase now)
  pub moved :
      (k : String) (p : Pipeline) (phase : String)
      → P k p
      → P k (record p { phase = phase; phase_status = pending })
  pub updated :
      (k : String) (p : Pipeline) (status : PhaseStatus)
      → P k p
      → P k (record p { phase_status = status })
  pub linked :
      (k : String) (p : Pipeline) (path : String)
      → P k p
      → P k (record p { workspace_path = some path })

module _ (P : String → Pipeline → Type 0) where
  abbrev pub Each : MaterializedState → Type 0
  Each s = AllEntries P s.pipelines

  pub Each-init : Each init
  unfolding init
  Each-init = empty-AllEntries P

  -- Every operation keeps `P` of every pipeline.
  pub apply-Each :
      IsKept P
      → (now : Instant) (s : MaterializedState) (op : Operation) → Each s
      → Each (apply now s op)
  unfolding apply
  apply-Each kept now s (pipeline_create id kind name inputs initial_phase) h =
      insert-AllEntries P s.pipelines id _ h (kept.created id kind name inputs initial_phase now)
  apply-Each kept now s (pipeline_transition id phase) h =
      modify-AllEntries P s.pipelines id _ h (λ k p. kept.moved k p phase)
  apply-Each kept now s (phase_status_update id status) h =
      modify-AllEntries P s.pipelines id _ h (λ k p. kept.updated k p status)
  apply-Each kept now s (pipeline_delete id) h = remove-AllEntries P s.pipelines id h
  apply-Each kept now s (workspace_create id path branch) h =
      modify-AllEntries P s.pipelines id _ h (λ k p. kept.linked k p path)
  apply-Each kept now s (session_create id pipeline_id) h = h
  apply-Each kept now s (session_delete id) h = h
  apply-Each kept now s (workspace_delete id) h = h

  foldl-Each :
      IsKept P
      → (now : Instant) (s : MaterializedState) (ops : List Operation) → Each s
      → Each (foldl (apply now) s ops)
  foldl-Each kept now s [] h = h
  foldl-Each kept now s (op ∷ ops) h =
      foldl-Each kept now (apply now s op) ops (apply-Each kept now s op h)

  pub replay_state-Each :
      IsKept P → (now : Instant) (ops : List Operation) → Each (replay_state now ops)
  unfolding replay_state
  replay_state-Each kept now ops = foldl-Each kept now init ops Each-init
