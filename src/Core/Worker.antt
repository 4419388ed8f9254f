-- ===== src/Core/Worker.antt =====
-- worker/state.rs of crates/core.
use otters.Base.{String, Bool, true, false, Option, none, some}
use otters.Core.Clock.{Instant}

pub data WorkerStatus : Type 0 where
  stopped idle processing : WorkerStatus

pub record Worker : Type 0 where
  pub name : String
  pub status : WorkerStatus
  pub current_pipeline : Option String
  pub last_active : Instant

unfoldable pub new : String → Instant → Worker
new name now = record { name = name; status = stopped; current_pipeline = none; last_active = now }

unfoldable pub start : Worker → Instant → Worker
start w now = record w { status = idle; last_active = now }

unfoldable pub stop : Worker → Worker
stop w = record w { status = stopped; current_pipeline = none }

unfoldable pub begin_processing : Worker → String → Instant → Worker
begin_processing w pipeline_id now = record w {
  status = processing;
  current_pipeline = some pipeline_id;
  last_active = now;
}

unfoldable pub finish_processing : Worker → Instant → Worker
finish_processing w now = record w { status = idle; current_pipeline = none; last_active = now }

is_idle : WorkerStatus → Bool
is_idle idle = true
is_idle _ = false

unfoldable pub is_available : Worker → Bool
unfolding is_idle
is_available w = is_idle w.status
