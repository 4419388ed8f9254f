-- ===== src/Engine/Completion.antt =====
-- How pipelines end: `advance_pipeline`, `complete_pipeline` and `fail_pipeline` of runtime.rs with
-- the effects of phases.rs, from the completion of a shell phase.
use otters.Base.{String, true, false, ◌≡◌, refl, ap, ◌∙◌, ◌⊎◌, inl, inr, none, some, [], eq_refl}
use otters.Base.Int.{ℤ, pos, is_zero, show_ℤ}
use otters.Base.Text.{◌<>◌}
use otters.Base.Result.{ok}
use otters.Base.Exec.{◌>>=◌}
use otters.Base.Dict.{get, modify, get-modify}
use otters.Core.Clock.{Instant}
use otters.Core.Event.{shell_completed}
use otters.Core.Operation.{completed, pending, pipeline_transition, phase_status_update}
use otters.Core.Pipeline.{Pipeline, is_terminal, is_terminal_phase}
use otters.Storage.State.{MaterializedState, apply}
use otters.Engine.Machine.{Env, Machine}
use otters.Engine.Phases.{phase_transition_effects, failure_effects, completion_effects}
use otters.Engine.Yields.{
  Works, Yields, Yields-bind, Yields-pure, Yields-mapping, Yields-record, Yields-execute_all,
  Yields-persist, Yields-no_effects,
}
use otters.Engine.Runtime.{
  Setup, run_effects, complete_pipeline, next_phase_name, on_fail_name, has_phase_def, enter_phase,
  advance_to, advance_pipeline, fail_to, fail_pipeline, handle_shell_completed, handle_event,
}

abbrev pub moved_to : String → String → MaterializedState → MaterializedState
moved_to id phase s = record s {
  pipelines = modify s.pipelines id (λ p. record p { phase = phase; phase_status = pending });
}

abbrev marked_completed : String → MaterializedState → MaterializedState
marked_completed id s = record s {
  pipelines = modify s.pipelines id (λ p. record p { phase_status = completed });
}

pub apply-moved_to :
    (id phase : String) (s : MaterializedState) (now : Instant)
    → apply now s (pipeline_transition id phase) ≡ moved_to id phase s
unfolding apply
apply-moved_to id phase s now = refl

apply-marked_completed :
    (id : String) (s : MaterializedState) (now : Instant)
    → apply now s (phase_status_update id completed) ≡ marked_completed id s
unfolding apply
apply-marked_completed id s now = refl

-- The next phase is none, or a terminal one that the runbook does not define.
abbrev pub IsLast : Setup → Pipeline → Type 0
IsLast setup p =
    (next_phase_name setup.runbook p ≡ none)
    ⊎ ((name : String) × (next_phase_name setup.runbook p ≡ some name)
        × (has_phase_def setup.runbook p name ≡ false)
        × (is_terminal_phase name ≡ true))

module _ {V W : Type 0} (env : Env V W) (works : Works env) (setup : Setup) where
  complete_pipeline-Yields :
      (p : Pipeline) (s : MaterializedState)
      → is_terminal p ≡ false
      → p.session_id ≡ none
      → Yields (complete_pipeline env setup p) s [] (marked_completed p.id (moved_to p.id "done" s))
  unfolding complete_pipeline run_effects completion_effects
  complete_pipeline-Yields p s running no_session =
      rw (running, no_session)
        (Yields-mapping _ (
          Yields-execute_all env works _ _
            (Yields-persist env works _ s _ (apply-moved_to p.id _ _))
            (Yields-record env works _ _ _ _ _ (apply-marked_completed p.id _)
              (Yields-no_effects env works _))))

  pub phase_transition-Yields :
      (p : Pipeline) (next : String) (s : MaterializedState)
      → Yields
          (run_effects env setup (phase_transition_effects env p next))
          s
          []
          (moved_to p.id next s)
  unfolding run_effects phase_transition_effects
  phase_transition-Yields p next s = Yields-mapping _ (
      Yields-record env works _ _ _ _ _ (apply-moved_to p.id next s)
        (Yields-no_effects env works _))

  failure-Yields :
      (p : Pipeline) (error : String) (s : MaterializedState)
      → Yields (run_effects env setup (failure_effects env p error)) s [] (moved_to p.id "failed" s)
  unfolding run_effects failure_effects
  failure-Yields p error s = Yields-mapping _ (
      Yields-record env works _ _ _ _ _ (apply-moved_to p.id "failed" s)
        (Yields-no_effects env works _))

  -- The state behind the last phase, where the next phase was `name`.
  abbrev ended : String → String → MaterializedState → MaterializedState
  ended id name s = marked_completed id (moved_to id "done" (moved_to id name s))

  advance_to-Yields :
      (p : Pipeline) (s : MaterializedState)
      → is_terminal p ≡ false
      → p.session_id ≡ none
      → IsLast setup p
      → (name : String) × Yields
          (advance_to env setup p (next_phase_name setup.runbook p))
          s
          []
          (ended p.id name s)
  unfolding advance_to enter_phase
  advance_to-Yields p s running no_session (inl last) = (
    "done",
    rw last (
        Yields-bind _ (phase_transition-Yields p "done" s)
          (Yields-bind _ (complete_pipeline-Yields p _ running no_session) (Yields-pure _ _))),
  )
  advance_to-Yields p s running no_session (inr (name, next, undefined, terminal)) = (
    name,
    rw next (
        Yields-bind _ (phase_transition-Yields p name s) (
          Yields-bind _ (rw (undefined, terminal) (complete_pipeline-Yields p _ running no_session))
            (Yields-pure _ _))),
  )

  ended-get :
      (id name : String) (s : MaterializedState) (p : Pipeline)
      → get s.pipelines id ≡ some p
      → get (ended id name s).pipelines id
        ≡ some (record p { phase = "done"; phase_status = completed })
  ended-get id name s p h = rw (get-modify, get-modify, get-modify, eq_refl id, h)

  -- Where the log, JSON and the notifier work, the event that the shell command of the last phase of
  -- a pipeline has succeeded returns no event and leaves the pipeline in phase "done" with status
  -- completed, and else as it was. The pipeline is one that is stored under its id, is not terminal
  -- and names no session. The last phase is one that nothing
  -- follows, or one whose next phase is "done" or "failed" and is not defined: "failed" ends in
  -- "done" too.
  pub handle_event-done :
      (m : Machine W) (p : Pipeline)
      → get m.state.pipelines p.id ≡ some p
      → is_terminal p ≡ false
      → p.session_id ≡ none
      → IsLast setup p
      → let (r, m') = handle_event env setup (shell_completed p.id p.phase (pos 0)) m in
        (r ≡ ok [])
        × (get m'.state.pipelines p.id
            ≡ some (record p { phase = "done"; phase_status = completed }))
  unfolding handle_event handle_shell_completed advance_pipeline ◌>>=◌
  handle_event-done m p stored running no_session last =
      let (name, yields) = advance_to-Yields p m.state running no_session last in
      let (returned, state) = yields.at m refl in
      rw (stored, eq_refl p.phase, running)
        (returned, ap (λ s. get s.pipelines p.id) state ∙ ended-get p.id name m.state p stored)

  -- Where the log, JSON and the notifier work, the event that the shell command of a stored
  -- pipeline's phase has failed, where that phase has no `on_fail`, returns no event and leaves the
  -- pipeline in phase "failed" with status pending, and else as it was: its error does not hold the
  -- message.
  pub handle_event-failed :
      (m : Machine W) (p : Pipeline) (exit_code : ℤ)
      → get m.state.pipelines p.id ≡ some p
      → is_zero exit_code ≡ false
      → on_fail_name setup.runbook p ≡ none
      → let (r, m') = handle_event env setup (shell_completed p.id p.phase exit_code) m in
        (r ≡ ok [])
        × (get m'.state.pipelines p.id
            ≡ some (record p { phase = "failed"; phase_status = pending }))
  unfolding handle_event handle_shell_completed fail_pipeline fail_to ◌>>=◌
  handle_event-failed m p exit_code stored nonzero no_on_fail =
      let message = "shell exited with code " <> show_ℤ exit_code in
      let (returned, state) = (failure-Yields p message m.state).at m refl in
      rw (stored, eq_refl p.phase, nonzero, no_on_fail)
        (returned, ap (λ s. get s.pipelines p.id) state ∙ (rw (get-modify, eq_refl p.id, stored)))
