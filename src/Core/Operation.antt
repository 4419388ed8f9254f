-- ===== src/Core/Operation.antt =====
-- operation.rs and pipeline/phase.rs of crates/core: what the write-ahead log records.
use otters.Base.{String}
use otters.Base.Dict.{Dict}

pub data PhaseStatus : Type 0 where
  pending running waiting completed failed : PhaseStatus

pub data Operation : Type 0 where
  pipeline_create :
      (id kind name : String) → (inputs : Dict String) → (initial_phase : String) → Operation
  pipeline_transition : (id phase : String) → Operation
  phase_status_update : (pipeline_id : String) → (status : PhaseStatus) → Operation
  pipeline_delete : (id : String) → Operation
  session_create : (id pipeline_id : String) → Operation
  session_delete : (id : String) → Operation
  workspace_create : (id path branch : String) → Operation
  workspace_delete : (id : String) → Operation

-- `default_init_phase`
abbrev pub default_init_phase : String
default_init_phase = "init"
