-- ===== src/Storage/State/Times.antt =====
-- The time stamps of pipelines in state.rs: the log does not hold them. What a state is but for those
-- is its `erase`.
use mathlib.Core.List.{foldl, foldl-append}
use otters.Base.{◌≡◌, refl, ap, ◌∙◌, List, [], ◌∷◌, ◌++◌}
use otters.Base.Dict.{
  insert, map_values, map_values-empty, map_values-insert, map_values-remove, map_values-modify,
}
use otters.Core.Clock.{Instant}
use otters.Core.Operation.{
  Operation, pipeline_create, pipeline_transition, phase_status_update, pipeline_delete,
  session_create, session_delete, workspace_create, workspace_delete,
}
use otters.Core.Pipeline.{Pipeline, new}
use otters.Storage.State.{MaterializedState, apply, init, replay_state}

abbrev pub erase_pipeline : Pipeline → Pipeline
erase_pipeline p = record p { created_at = 0; phase_started_at = 0 }

abbrev pub erase : MaterializedState → MaterializedState
erase s = record s { pipelines = map_values erase_pipeline s.pipelines }

pub erase-init : erase init ≡ init
unfolding init
erase-init = ap (λ d. record init { pipelines = d }) (map_values-empty erase_pipeline)

-- The time at which an operation is applied shows in the time stamps alone.
pub erase-apply :
    (now : Instant) (s : MaterializedState) (op : Operation)
    → erase (apply now s op) ≡ apply 0 (erase s) op
unfolding apply new
erase-apply now s (pipeline_create id kind name inputs initial_phase) =
    ap (λ d. record s { pipelines = d })
      (map_values-insert erase_pipeline s.pipelines id (new id name kind inputs initial_phase now))
erase-apply now s (pipeline_transition id phase) =
    ap (λ d. record s { pipelines = d })
      (map_values-modify erase_pipeline s.pipelines id _ (λ p. refl))
erase-apply now s (phase_status_update id status) =
    ap (λ d. record s { pipelines = d })
      (map_values-modify erase_pipeline s.pipelines id _ (λ p. refl))
erase-apply now s (pipeline_delete id) =
    ap (λ d. record s { pipelines = d }) (map_values-remove erase_pipeline s.pipelines id)
erase-apply now s (session_create id pipeline_id) = refl
erase-apply now s (session_delete id) = refl
erase-apply now s (workspace_create id path branch) =
    ap
      (λ d. record s {
        workspaces = insert s.workspaces id (record { id = id; path = path; branch = branch });
        pipelines = d;
      })
      (map_values-modify erase_pipeline s.pipelines id _ (λ p. refl))
erase-apply now s (workspace_delete id) = refl

erase-foldl :
    (now : Instant) (s : MaterializedState) (ops : List Operation)
    → erase (foldl (apply now) s ops) ≡ foldl (apply 0) (erase s) ops
erase-foldl now s [] = refl
erase-foldl now s (op ∷ ops) =
    erase-foldl now (apply now s op) ops ∙ ap (λ t. foldl (apply 0) t ops) (erase-apply now s op)

-- A replay of a log at any time is the replay at time 0, but for the time stamps.
pub erase-replay_state :
    (now : Instant) (ops : List Operation) → erase (replay_state now ops) ≡ replay_state 0 ops
unfolding replay_state
erase-replay_state now ops = erase-foldl now init ops ∙ ap (λ t. foldl (apply 0) t ops) erase-init

-- One more operation in the log is one more `apply` after the replay.
pub replay_state-append :
    (ops : List Operation) (op : Operation)
    → replay_state 0 (ops ++ op ∷ []) ≡ apply 0 (replay_state 0 ops) op
unfolding replay_state
replay_state-append ops op = rw foldl-append
