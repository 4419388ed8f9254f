-- ===== src/Engine/Scheduler.antt =====
-- scheduler.rs of crates/engine: timers by name.
pub mod Firing
pub mod Deadline
use otters.Base.{
  ℕ, ◌+◌, String, Bool, true, false, not, Option, none, some, List, [], ◌∷◌, leb, if◌then◌else◌,
}
use otters.Base.Dict.{Dict, empty, insert, remove}
use otters.Core.Clock.{Instant, Duration}
use otters.Core.Event.{Event}

pub record Timer : Type 0 where
  pub fires_at : Instant

pub record Scheduler : Type 0 where
  pub timers : Dict Timer

unfoldable pub init : Scheduler
init = record { timers = empty }

unfoldable pub set_timer : Scheduler → String → Duration → Instant → Scheduler
set_timer s id duration now = record s {
  timers = insert s.timers id (record { fires_at = now + duration });
}

unfoldable pub cancel_timer : Scheduler → String → Scheduler
cancel_timer s id = record s { timers = remove s.timers id }

-- The ids whose time has come, in the order of the iteration.
due : Instant → List (String × Timer) → List String
due now [] = []
due now ((id, t) ∷ ts) = let rest = due now ts in if leb t.fires_at now then id ∷ rest else rest

remove_all : List String → Dict Timer → Dict Timer
remove_all [] d = d
remove_all (id ∷ ids) d = remove_all ids (remove d id)

module _ {V : Type 0} where
  timer_events : List String → List (Event V)
  timer_events [] = []
  timer_events (id ∷ ids) = Event.timer id ∷ timer_events ids

  unfoldable pub fired_timers : Scheduler → Instant → List (Event V) × Scheduler
  unfolding due remove_all timer_events
  fired_timers s now =
      let ids = due now s.timers.entries in
      (timer_events ids, record s { timers = remove_all ids s.timers })

earliest : List (String × Timer) → Option Instant
earliest [] = none
earliest ((id, t) ∷ ts) = elim (earliest ts) [
  | none ↦ some t.fires_at
  | some d ↦ some (if leb t.fires_at d then t.fires_at else d)
]

unfoldable pub next_deadline : Scheduler → Option Instant
unfolding earliest
next_deadline s = earliest s.timers.entries

is_empty : List (String × Timer) → Bool
is_empty [] = true
is_empty (t ∷ ts) = false

unfoldable pub has_timers : Scheduler → Bool
unfolding is_empty
has_timers s = not (is_empty s.timers.entries)
