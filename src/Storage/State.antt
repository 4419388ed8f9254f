-- ===== src/Storage/State.antt =====
-- state.rs of crates/storage: the state that the operations of the log build.
pub mod Times
pub mod Each
pub mod Lookup
pub mod Link
use mathlib.Core.List.{foldl}
use otters.Base.{String, Option, none, some, List, [], ◌∷◌, Bool, if◌then◌else◌, ◌==◌}
use otters.Base.Lists.{filter}
use otters.Base.Text.{is_some, strip_prefix}
use otters.Base.Dict.{Dict, empty, get, insert, remove, modify, keys}
use otters.Core.Clock.{Instant}
use otters.Core.Operation.{
  Operation, PhaseStatus, pending, pipeline_create, pipeline_transition, phase_status_update,
  pipeline_delete, session_create, session_delete, workspace_create, workspace_delete,
}
use otters.Core.Pipeline.{Pipeline, new}
use otters.Core.Worker.{Worker}

pub record Session : Type 0 where
  pub id : String
  pub pipeline_id : String

pub record Workspace : Type 0 where
  pub id : String
  pub path : String
  pub branch : String

pub record MaterializedState : Type 0 where
  pub pipelines : Dict Pipeline
  pub sessions : Dict Session
  pub workspaces : Dict Workspace
  pub workers : Dict Worker

-- `MaterializedState::default()`
unfoldable pub init : MaterializedState
init = record { pipelines = empty; sessions = empty; workspaces = empty; workers = empty }

-- `matches[0]`, if it is the only match
unfoldable pub only : Dict Pipeline → List String → Option Pipeline
only d [] = none
only d (k ∷ []) = get d k
only d (k ∷ l ∷ ks) = none

-- An exact match, else the one pipeline whose id begins with the text.
unfoldable pub get_pipeline : MaterializedState → String → Option Pipeline
unfolding only
get_pipeline s id = elim (get s.pipelines id) [
  | some p ↦ some p
  | none ↦ only s.pipelines (filter (λ k. is_some (strip_prefix k id)) (keys s.pipelines))
]

-- The time that `SystemClock` shows is an argument.
unfoldable pub apply : Instant → MaterializedState → Operation → MaterializedState
apply now s (pipeline_create id kind name inputs initial_phase) = record s {
  pipelines = insert s.pipelines id (new id name kind inputs initial_phase now);
}
apply now s (pipeline_transition id phase) = record s {
  pipelines = modify s.pipelines id (λ p. record p { phase = phase; phase_status = pending });
}
apply now s (phase_status_update pipeline_id status) = record s {
  pipelines = modify s.pipelines pipeline_id (λ p. record p { phase_status = status });
}
apply now s (pipeline_delete id) = record s { pipelines = remove s.pipelines id }
apply now s (session_create id pipeline_id) = record s {
  sessions = insert s.sessions id (record { id = id; pipeline_id = pipeline_id });
}
apply now s (session_delete id) = record s { sessions = remove s.sessions id }
apply now s (workspace_create id path branch) = record s {
  workspaces = insert s.workspaces id (record { id = id; path = path; branch = branch });
  pipelines = modify s.pipelines id (λ p. record p { workspace_path = some path });
}
apply now s (workspace_delete id) = record s { workspaces = remove s.workspaces id }

-- `for op in ops { state.apply(&op) }`, at one time
unfoldable pub replay_state : Instant → List Operation → MaterializedState
unfolding apply
replay_state now = foldl (apply now) init
