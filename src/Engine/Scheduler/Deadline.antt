-- ===== src/Engine/Scheduler/Deadline.antt =====
-- `next_deadline` of scheduler.rs against the timers that fire.
use mathlib.Core.Option.{some-injective}
use otters.Base.{
  ◌<◌, String, ◌≡◌, ◌↔◌, refl, false, inl, inr, none, some, List, [], ◌∷◌, leb, arith, Option-cases,
}
use otters.Core.Clock.{Instant}
use otters.Engine.Scheduler.{
  Timer, Scheduler, due, timer_events, earliest, next_deadline, fired_timers,
}

due-earliest-none :
    (now : Instant) (ts : List (String × Timer)) → earliest ts ≡ none → due now ts ≡ []
unfolding due earliest
due-earliest-none now [] h = refl
due-earliest-none now ((id, t) ∷ ts) h = elim (Option-cases (earliest ts)) [
  | inl gone ↦ cc (rw gone at h)
  | inr (d, e) ↦ cc (rw e at h)
]

due-earliest :
    (now d : Instant) (ts : List (String × Timer))
    → earliest ts ≡ some d
    → (due now ts ≡ []) ↔ (leb d now ≡ false)
unfolding due earliest
due-earliest now d [] h = cc
due-earliest now d ((id, t) ∷ ts) h = elim (Option-cases (earliest ts)) [
  | inl gone ↦
      let same = some-injective _ _ (rw gone at h) in
      ground (arith, same, due-earliest-none now ts gone)
  | inr (e, h') ↦
      let same = some-injective _ _ (rw h' at h) in
      let ih = due-earliest now e ts h' in ground (arith, same, ih.0, ih.1)
]

module _ (V : Type 0) where
  timer_events-nil : (ids : List String) → timer_events {V = V} ids ≡ [] → ids ≡ []
  unfolding timer_events
  timer_events-nil [] h = refl
  timer_events-nil (id ∷ ids) h = cc

  nil-timer_events : (ids : List String) → ids ≡ [] → timer_events {V = V} ids ≡ []
  unfolding timer_events
  nil-timer_events ids h = rw h

  -- Where there is a next deadline, no timer fires if and only if it is still ahead.
  pub fired_timers-next_deadline :
      (s : Scheduler) (now d : Instant)
      → next_deadline s ≡ some d
      → ((fired_timers {V = V} s now).0 ≡ []) ↔ (now < d)
  unfolding fired_timers next_deadline
  fired_timers-next_deadline s now d h =
      let ahead = due-earliest now d s.timers.entries h in
      let ids = due now s.timers.entries in
      (
        λ quiet. let early = ahead.0 (timer_events-nil ids quiet) in ground (arith, early),
        λ early. nil-timer_events ids (ahead.1 (ground (arith, early))),
      )
