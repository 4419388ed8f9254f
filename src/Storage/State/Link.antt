-- ===== src/Storage/State/Link.antt =====
-- The link from a pipeline to its workspace, which `apply` of state.rs sets.
use otters.Base.{String, ◌≡◌, none, some, eq_refl}
use otters.Base.Dict.{Dict, get, get-insert, get-modify}
use otters.Core.Clock.{Instant}
use otters.Core.Operation.{workspace_create, pipeline_create}
use otters.Core.Pipeline.{new}
use otters.Storage.State.{MaterializedState, apply}

-- A workspace that is created after the pipeline of its id is linked to it; one that is created
-- before it, the order in which `handle_command` of runtime.rs persists the two, is not, whatever the
-- state held before.
pub apply-link :
    (t u : Instant) (s : MaterializedState) (id path branch kind name : String)
    (inputs : Dict String) (phase : String)
    → let workspace = workspace_create id path branch in
      let pipeline = pipeline_create id kind name inputs phase in
      (get (apply u (apply t s pipeline) workspace).pipelines id
        ≡ some (record (new id name kind inputs phase t) { workspace_path = some path }))
      × (get (apply u (apply t s workspace) pipeline).pipelines id
          ≡ some (record (new id name kind inputs phase u) { workspace_path = none }))
unfolding apply new
apply-link t u s id path branch kind name inputs phase =
    (rw (get-modify, get-insert, eq_refl id), rw (get-insert, eq_refl id))
