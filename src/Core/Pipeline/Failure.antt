-- ===== src/Core/Pipeline/Failure.antt =====
-- `transition` of pipeline/state.rs: which events start, complete and fail a pipeline's phase, and
-- what becomes of the pipeline then.
use otters.Base.{
  String, ◌≡◌, refl, ap, inl, inr, true, false, Option, none, some, [], ◌∷◌, ◌==◌, eq_iff, eq_refl,
  List, Bool-cases,
}
use otters.Base.Int.{ℤ, is_zero, show_ℤ}
use otters.Base.Text.{◌<>◌}
use mathlib.Core.Option.{some-injective}
use otters.Core.Event.{
  Event, command_invoked, worker_wake, session_started, session_output, session_exited, timer,
  agent_done, agent_error, shell_completed, custom,
}
use otters.Core.Effect.{Effect, persist}
use otters.Core.Operation.{running, completed, failed, pipeline_transition}
use otters.Core.Pipeline.{Pipeline, fail_with, transition, same_session}

same_session-eq : (o : Option String) (s : String) → same_session o s ≡ true → o ≡ some s
same_session-eq none s h = absurd (cc h)
same_session-eq (some t) s h = ap some ((eq_iff t s).0 h)

same_session_own : (o : Option String) (s : String) → o ≡ some s → same_session o s ≡ true
same_session_own none s h = absurd (cc h)
same_session_own (some t) s h = rw (some-injective _ _ h, eq_refl s)

module _ {V : Type 0} (p : Pipeline) where
  -- The start of the pipeline's own session.
  pub data Starts : Event V → Type 0 where
    own :
        (session_id : String) → p.session_id ≡ some session_id → Starts (session_started session_id)

  -- Its session's exit with code zero, which ends the session, and the end of its agent, which does
  -- not: the session that is left.
  pub data Completes : Event V → Option String → Type 0 where
    exited :
        (session_id : String) (exit_code : ℤ)
        → p.session_id ≡ some session_id
        → is_zero exit_code ≡ true
        → Completes (session_exited session_id exit_code) none
    done :
        (pipeline_id : String)
        → p.id ≡ pipeline_id
        → Completes (agent_done pipeline_id) p.session_id

  -- Its session's exit with another code, and an error of its agent: the message of the failure.
  pub data Fatal : Event V → String → Type 0 where
    exited :
        (session_id : String) (exit_code : ℤ)
        → p.session_id ≡ some session_id
        → is_zero exit_code ≡ false
        → Fatal (session_exited session_id exit_code) ("exit code: " <> show_ℤ exit_code)
    erred :
        (pipeline_id error : String)
        → p.id ≡ pipeline_id
        → Fatal (agent_error pipeline_id error) error

  -- What an event makes of the pipeline, and what it asks to be recorded.
  pub record IsRuled (event : Event V) (r : Pipeline × List (Effect V)) : Type 0 where
    pub starts : Starts event → r ≡ (record p { phase_status = running }, [])
    pub completes :
        (session_id : Option String)
        → Completes event session_id
        → r ≡ (record p { phase_status = completed; session_id = session_id }, [])
    pub fails :
        (message : String)
        → Fatal event message
        → r ≡ (
          record p { phase = "failed"; phase_status = failed; error = some message },
          persist (pipeline_transition p.id "failed") ∷ [],
        )
    pub rests :
        ¬ Starts event
        → ((session_id : Option String) → ¬ Completes event session_id)
        → ((message : String) → ¬ Fatal event message)
        → r ≡ (p, [])

  transition-Starts :
      (event : Event V)
      → Starts event
      → transition p event ≡ (record p { phase_status = running }, [])
  unfolding transition
  transition-Starts event (own session_id h) = rw (same_session_own p.session_id session_id h)

  transition-Completes :
      (event : Event V) (session_id : Option String)
      → Completes event session_id
      → transition p event ≡ (record p { phase_status = completed; session_id = session_id }, [])
  unfolding transition
  transition-Completes event session_id (Completes.exited s exit_code h z) =
      rw (same_session_own p.session_id s h, z)
  transition-Completes event session_id (done pipeline_id h) = rw (h, eq_refl pipeline_id)

  transition-Fatal :
      (event : Event V) (message : String)
      → Fatal event message
      → transition p event ≡ (
        record p { phase = "failed"; phase_status = failed; error = some message },
        persist (pipeline_transition p.id "failed") ∷ [],
      )
  unfolding transition fail_with
  transition-Fatal event message (Fatal.exited s exit_code h z) =
      rw (same_session_own p.session_id s h, z)
  transition-Fatal event message (erred pipeline_id error h) = rw (h, eq_refl pipeline_id)

  transition_rests :
      (event : Event V)
      → ¬ Starts event
      → ((session_id : Option String) → ¬ Completes event session_id)
      → ((message : String) → ¬ Fatal event message)
      → transition p event ≡ (p, [])
  unfolding transition
  transition_rests (session_started s) no_start no_end no_failure =
      elim (Bool-cases (same_session p.session_id s)) [
        | inl y ↦ absurd (no_start (own s (same_session-eq p.session_id s y)))
        | inr n ↦ rw n
      ]
  transition_rests (session_exited s exit_code) no_start no_end no_failure =
      elim (Bool-cases (same_session p.session_id s)) [
        | inl y ↦
            let own = same_session-eq p.session_id s y in
            elim (Bool-cases (is_zero exit_code)) [
              | inl z ↦ absurd (no_end none (Completes.exited s exit_code own z))
              | inr z ↦ absurd (no_failure _ (Fatal.exited s exit_code own z))
            ]
        | inr n ↦ rw n
      ]
  transition_rests (agent_done pipeline_id) no_start no_end no_failure =
      elim (Bool-cases (p.id == pipeline_id)) [
        | inl y ↦ absurd (no_end _ (done pipeline_id ((eq_iff p.id pipeline_id).0 y)))
        | inr n ↦ rw n
      ]
  transition_rests (agent_error pipeline_id error) no_start no_end no_failure =
      elim (Bool-cases (p.id == pipeline_id)) [
        | inl y ↦
            absurd (no_failure error (erred pipeline_id error ((eq_iff p.id pipeline_id).0 y)))
        | inr n ↦ rw n
      ]
  transition_rests (timer id) no_start no_end no_failure = refl
  transition_rests (command_invoked command args) no_start no_end no_failure = refl
  transition_rests (worker_wake worker) no_start no_end no_failure = refl
  transition_rests (session_output session_id output) no_start no_end no_failure = refl
  transition_rests (shell_completed pipeline_id phase exit_code) no_start no_end no_failure = refl
  transition_rests (custom name value) no_start no_end no_failure = refl

  -- A pipeline's phase runs from the start of its session; it is completed by its session's exit with
  -- code zero, which takes the session out, or by its agent's end, which leaves it; it fails, with
  -- the code or the agent's message as its error and the move to phase "failed" to be recorded, by its
  -- session's exit with another code or its agent's error. In each of these cases nothing else of the
  -- pipeline changes, and any other event, also one of another pipeline or session, changes nothing.
  pub transition-IsRuled : (event : Event V) → IsRuled event (transition p event)
  transition-IsRuled event = record {
    starts = transition-Starts event;
    completes = transition-Completes event;
    fails = transition-Fatal event;
    rests = transition_rests event;
  }
