-- ===== src/Engine/Runtime/Timer.antt =====
-- The names of the timers that watch sessions: `session_timer` of spawn.rs makes them, and
-- `handle_timer` of runtime.rs reads them back.
use text.Mathlib.TextLemmas.{append_assoc}
use otters.Base.{String, ◌≡◌, ap, ◌∙◌, sym, some}
use otters.Base.Text.{◌<>◌, strip_suffix, strip_prefix-append, strip_suffix-append}
use otters.Engine.Spawn.{session_timer}
use otters.Engine.Runtime.Handler.{monitored_pipeline}

whole :
    (id : String) → strip_suffix ("session:" <> (id <> ":check")) ":check" ≡ some ("session:" <> id)
whole id =
    ap (λ s. strip_suffix s ":check") (sym (append_assoc "session:" id ":check"))
    ∙ strip_suffix-append ("session:" <> id) ":check"

-- The timer that is set for a pipeline names that pipeline when it fires, whatever the id holds.
pub monitored_pipeline-session_timer :
    (pipeline_id : String) → monitored_pipeline (session_timer pipeline_id) ≡ some pipeline_id
unfolding monitored_pipeline session_timer
monitored_pipeline-session_timer id =
    rw (strip_prefix-append "session:" (id <> ":check"), whole id, strip_suffix-append id ":check")
