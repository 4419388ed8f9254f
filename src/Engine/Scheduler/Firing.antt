-- ===== src/Engine/Scheduler/Firing.antt =====
-- Which timers of scheduler.rs fire.
use otters.Base.{
  String, ◌≡◌, refl, sym, ap, subst, ◌∙◌, Bool, true, false, ◌||◌, inl, inr, Option, none, some,
  List, [], ◌∷◌, ◌==◌, leb, eq_iff, if◌then◌else◌, Bool-cases,
}
use otters.Base.Dict.{
  Dict, get, lookup, remove, get-remove, Distinct, IsDistinct, empty-IsDistinct, insert-IsDistinct,
  remove-IsDistinct,
}
use otters.Core.Clock.{Instant, Duration}
use otters.Core.Event.{Event}
use otters.Engine.Scheduler.{
  Timer, Scheduler, init, set_timer, cancel_timer, due, remove_all, timer_events, fired_timers,
}

abbrev mem : String → List String → Bool
mem k [] = false
mem k (id ∷ ids) = id == k || mem k ids

-- The time of the timer has come.
abbrev pub due_at : Instant → Option Timer → Bool
due_at now none = false
due_at now (some t) = leb t.fires_at now

-- The event of the timer is there.
module _ {V : Type 0} where
  is_timer : String → Event V → Bool
  is_timer k (Event.timer id) = id == k
  is_timer k _ = false

  pub fires : String → List (Event V) → Bool
  unfolding is_timer
  fires k [] = false
  fires k (e ∷ es) = is_timer k e || fires k es

module _ (V : Type 0) where
  fires-timer_events :
      (k : String) (ids : List String) → fires {V = V} k (timer_events ids) ≡ mem k ids
  unfolding fires timer_events
  fires-timer_events k [] = refl
  fires-timer_events k (id ∷ ids) = ap (λ b. id == k || b) (fires-timer_events k ids)

if_same : {A : Type 0} (b : Bool) (a : A) → (if b then a else a) ≡ a
if_same true a = refl
if_same false a = refl

get-remove_all :
    (ids : List String) (d : Dict Timer) (k : String)
    → get (remove_all ids d) k ≡ (if mem k ids then none else get d k)
unfolding remove_all
get-remove_all [] d k = refl
get-remove_all (id ∷ ids) d k = elim (Bool-cases (id == k)) [
  | inl y ↦ rw (get-remove_all ids (remove d id) k, get-remove d id k, y) (if_same (mem k ids) none)
  | inr n ↦ rw (get-remove_all ids (remove d id) k, get-remove d id k, n) refl
]

mem-due :
    (now : Instant) (k : String) (l : List (String × Timer))
    → Distinct l
    → mem k (due now l) ≡ due_at now (lookup k l)
unfolding due lookup
mem-due now k [] h = refl
mem-due now k ((id, t) ∷ l) h = elim (Bool-cases (id == k)) [
  | inl y ↦
      let missing : lookup k l ≡ none = subst (λ j. lookup j l ≡ none) ((eq_iff id k).0 y) h.0 in
      elim (Bool-cases (leb t.fires_at now)) [
        | inl d ↦ rw (d, y) (sym d)
        | inr d ↦ rw (d, y, mem-due now k l h.1, missing) (sym d)
      ]
  | inr n ↦ elim (Bool-cases (leb t.fires_at now)) [
    | inl d ↦ rw (d, n) (mem-due now k l h.1)
    | inr d ↦ rw (d, n) (mem-due now k l h.1)
  ]
]

remove_all-IsDistinct :
    (ids : List String) (d : Dict Timer) → IsDistinct d → IsDistinct (remove_all ids d)
unfolding remove_all
remove_all-IsDistinct [] d h = h
remove_all-IsDistinct (id ∷ ids) d h =
    remove_all-IsDistinct ids (remove d id) (remove-IsDistinct d id h)

-- Each timer is held once.
abbrev pub IsScheduler : Scheduler → Type 0
IsScheduler s = IsDistinct s.timers

pub init-IsScheduler : IsScheduler init
unfolding init
init-IsScheduler = empty-IsDistinct

pub set_timer-IsScheduler :
    (s : Scheduler) (id : String) (duration : Duration) (now : Instant)
    → IsScheduler s
    → IsScheduler (set_timer s id duration now)
unfolding set_timer
set_timer-IsScheduler s id duration now h = insert-IsDistinct s.timers id _ h

pub cancel_timer-IsScheduler :
    (s : Scheduler) (id : String) → IsScheduler s → IsScheduler (cancel_timer s id)
unfolding cancel_timer
cancel_timer-IsScheduler s id h = remove-IsDistinct s.timers id h

-- In a scheduler that holds each timer once, a timer fires if and only if it is set and its time
-- has come; one that fires is taken out, and every other stays as it was.
pub fired_timers-due :
    (V : Type 0) (s : Scheduler) (now : Instant) (k : String)
    → IsScheduler s
    → let (events, s') = fired_timers {V = V} s now in
      (fires k events ≡ due_at now (get s.timers k))
      × (get s'.timers k ≡ (if due_at now (get s.timers k) then none else get s.timers k))
      × IsScheduler s'
unfolding fired_timers get
fired_timers-due V s now k h = (
  fires-timer_events V k (due now s.timers.entries) ∙ mem-due now k s.timers.entries h.distinct,
  get-remove_all (due now s.timers.entries) s.timers k
      ∙ ap (λ b. if b then none else get s.timers k) (mem-due now k s.timers.entries h.distinct),
  remove_all-IsDistinct (due now s.timers.entries) s.timers h,
)
