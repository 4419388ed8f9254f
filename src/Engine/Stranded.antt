-- ===== src/Engine/Stranded.antt =====
-- `fail_pipeline` of runtime.rs where `on_fail` names a phase that the runbook does not define.
use otters.Base.{String, false, ◌≡◌, refl, ap, ◌∙◌, none, some, [], eq_refl}
use otters.Base.Int.{ℤ, is_zero, show_ℤ}
use otters.Base.Text.{◌<>◌}
use otters.Base.Result.{err}
use otters.Base.Exec.{◌>>=◌}
use otters.Base.Dict.{Dict, get, get-modify}
use otters.Core.Event.{shell_completed}
use otters.Core.Operation.{pending}
use otters.Core.Pipeline.{Pipeline}
use otters.Storage.State.{MaterializedState}
use otters.Runbook.Pipeline.{PipelineDef, get_phase}
use otters.Runbook.Book.{get_pipeline}
use otters.Engine.Error.{pipeline_not_found}
use otters.Engine.Machine.{Env, Machine}
use otters.Engine.Phases.{failure_transition_effects}
use otters.Engine.Yields.{Works, Yields, Yields-mapping, Yields-record, Yields-no_effects}
use otters.Engine.Completion.{moved_to, apply-moved_to}
use otters.Engine.Runtime.{
  Setup, run_effects, on_fail_name, start_phase, workspace_path, fail_to, fail_pipeline,
  handle_shell_completed, handle_event,
}

module _ {V W : Type 0} (env : Env V W) (setup : Setup) where
  start_phase-undefined :
      (m : Machine W) (p : Pipeline) (d : PipelineDef) (name workspace : String)
      (inputs : Dict String)
      → get m.state.pipelines p.id ≡ some p
      → get_pipeline setup.runbook p.kind ≡ some d
      → get_phase d name ≡ none
      → start_phase env setup p.id name inputs workspace m
        ≡ (err (pipeline_not_found ("phase " <> name <> " not found")), m)
  unfolding start_phase ◌>>=◌
  start_phase-undefined m p d name workspace inputs stored kind undefined =
      rw (stored, kind, undefined)

module _ {V W : Type 0} (env : Env V W) (works : Works env) (setup : Setup) where
  failure_transition-Yields :
      (p : Pipeline) (on_fail error : String) (s : MaterializedState)
      → Yields
          (run_effects env setup (failure_transition_effects env p on_fail error))
          s
          []
          (moved_to p.id on_fail s)
  unfolding run_effects failure_transition_effects
  failure_transition-Yields p on_fail error s = Yields-mapping _ (
      Yields-record env works _ _ _ _ _ (apply-moved_to p.id on_fail s)
        (Yields-no_effects env works _))

  -- Where the log, JSON and the notifier work, a shell command of a stored pipeline's phase fails, and
  -- that phase's `on_fail` names a phase that the pipeline's definition does not have, be it "failed",
  -- the event ends in an error; yet the pipeline has been moved to that phase, with status pending,
  -- and is else as it was.
  pub handle_event-stranded :
      (m : Machine W) (p : Pipeline) (d : PipelineDef) (exit_code : ℤ) (name : String)
      → get m.state.pipelines p.id ≡ some p
      → is_zero exit_code ≡ false
      → on_fail_name setup.runbook p ≡ some name
      → get_pipeline setup.runbook p.kind ≡ some d
      → get_phase d name ≡ none
      → let (r, m') = handle_event env setup (shell_completed p.id p.phase exit_code) m in
        (r ≡ err (pipeline_not_found ("phase " <> name <> " not found")))
        × (get m'.state.pipelines p.id ≡ some (record p { phase = name; phase_status = pending }))
  unfolding handle_event handle_shell_completed fail_pipeline fail_to ◌>>=◌
  handle_event-stranded m p d exit_code name stored nonzero next kind undefined =
      let message = "shell exited with code " <> show_ℤ exit_code in
      let (returned, state) = (failure_transition-Yields p name message m.state).at m refl in
      let m' = (run_effects env setup (failure_transition_effects env p name message) m).1 in
      let moved : get m'.state.pipelines p.id
          ≡ some (record p { phase = name; phase_status = pending }) =
        ap (λ s. get s.pipelines p.id) state ∙ (rw (get-modify, eq_refl p.id, stored)) in
      let stops =
        start_phase-undefined env setup m' (record p { phase = name; phase_status = pending }) d
          name (workspace_path setup p) p.inputs moved kind undefined in
      rw (stored, eq_refl p.phase, nonzero, next, returned, stops) (refl, moved)
