-- ===== src/Core/Event.antt =====
-- event.rs of crates/core: what triggers a transition. `V` is the type of JSON values, which
-- `serde_json` provides.
use otters.Base.{String}
use otters.Base.Int.{ℤ}
use otters.Base.Dict.{Dict}

pub data Event (V : Type 0) : Type 0 where
  command_invoked : (command : String) → (args : Dict String) → Event V
  worker_wake : (worker : String) → Event V
  session_started : (session_id : String) → Event V
  session_output : (session_id : String) → (output : String) → Event V
  session_exited : (session_id : String) → (exit_code : ℤ) → Event V
  timer : (id : String) → Event V
  agent_done : (pipeline_id : String) → Event V
  agent_error : (pipeline_id : String) → (error : String) → Event V
  shell_completed : (pipeline_id : String) → (phase : String) → (exit_code : ℤ) → Event V
  custom : (name : String) → (value : V) → Event V
