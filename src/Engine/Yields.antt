-- ===== src/Engine/Yields.antt =====
-- What a run of the engine comes to where the log, the notifier and JSON work: its result and the
-- state that it leaves, whatever the timers, the watchers and the rest of the world.
use otters.Base.{String, ◌≡◌, refl, ap, ◌∙◌, Option, none, List, [], ◌∷◌}
use otters.Base.Result.{ok, map_err}
use otters.Base.Exec.{pure, mapping, ◌>>=◌}
use otters.Core.Clock.{Instant}
use otters.Core.Event.{Event}
use otters.Core.Effect.{Effect, emit, persist}
use otters.Core.Operation.{Operation}
use otters.Storage.State.{MaterializedState, apply}
use otters.Storage.Wal.{WalEntry, written}
use otters.Storage.Wal.Written.{append_written}
use otters.Engine.Machine.{Env, Machine, Action, outside, ask}
use otters.Engine.Executor.{record_state, persist_operation, execute, execute_all, push_event}

-- Every entry has a JSON text, every write reaches the disk, and every notification is sent.
pub record Works {V W : Type 0} (env : Env V W) : Type 0 where
  pub encodes : (e : WalEntry) → (line : String) × (env.codec.to_string e ≡ ok line)
  pub writes : (w : W) → (env.write_log w).0 ≡ written
  pub notifies :
      (channel message : String) (w : W) → (env.send_notification channel message w).0 ≡ ok tt

-- From every machine with the state `s`, the run returns `a` and leaves the state `t`.
pub record Yields {W E A : Type 0} (run : Action W E A) (s : MaterializedState) (a : A)
    (t : MaterializedState) : Type 0 where
  pub at : (m : Machine W) → m.state ≡ s → ((run m).0 ≡ ok a) × ((run m).1.state ≡ t)

module _ {W E A B : Type 0} where
  pub Yields-bind :
      {f : Action W E A} (g : A → Action W E B) {s t u : MaterializedState} {a : A} {b : B}
      → Yields f s a t
      → Yields (g a) t b u
      → Yields (f >>= g) s b u
  unfolding ◌>>=◌
  Yields-bind {f} g y z = record { at = λ m h. let (e, r) = y.at m h in rw e (z.at (f m).1 r) }

module _ {W E A : Type 0} where
  pub Yields-pure : (s : MaterializedState) (a : A) → Yields {W = W} {E = E} (pure a) s a s
  unfolding pure
  Yields-pure s a = record { at = λ m h. (refl, h) }

module _ {W E F A : Type 0} where
  pub Yields-mapping :
      (k : E → F) {f : Action W E A} {s t : MaterializedState} {a : A}
      → Yields f s a t
      → Yields (mapping k f) s a t
  unfolding mapping
  Yields-mapping k y = record { at = λ m h. (ap (map_err k) (y.at m h).0, (y.at m h).1) }

module _ {V W : Type 0} (env : Env V W) (works : Works env) where
  pub Yields-persist :
      (op : Operation) (s t : MaterializedState)
      → ((now : Instant) → apply now s op ≡ t)
      → Yields (execute env (persist op)) s none t
  unfolding execute persist_operation ◌>>=◌ record_state ask mapping
  Yields-persist op s t h = record {
    at = λ m e.
        rw (works.writes m.world, append_written env.codec op m.wal works.encodes)
          (refl, ap (λ x. apply (env.now (env.write_log m.world).1).0 x op) e ∙ h _);
  }

  pub Yields-emit : (e : Event V) (s : MaterializedState) → Yields (execute env (emit e)) s none s
  unfolding execute ◌>>=◌ mapping outside
  Yields-emit e s = record {
    at = λ m h. rw (works.notifies "events" (env.debug_event e) m.world) (refl, h);
  }

  pub Yields-execute_all :
      (e : Effect V) (es : List (Effect V)) {s t u : MaterializedState} {event : Option (Event V)}
      {events : List (Event V)}
      → Yields (execute env e) s event t
      → Yields (execute_all env es) t events u
      → Yields (execute_all env (e ∷ es)) s (push_event event events) u
  unfolding execute_all
  Yields-execute_all e es y z = Yields-bind _ y (Yields-bind _ z (Yields-pure _ _))

  pub Yields-no_effects : (s : MaterializedState) → Yields (execute_all env []) s [] s
  unfolding execute_all
  Yields-no_effects s = Yields-pure s []

  -- An operation is recorded, an event is announced, and then the rest follows.
  pub Yields-record :
      (op : Operation) (e : Event V) (es : List (Effect V)) (s t : MaterializedState)
      {u : MaterializedState} {events : List (Event V)}
      → ((now : Instant) → apply now s op ≡ t)
      → Yields (execute_all env es) t events u
      → Yields (execute_all env (persist op ∷ emit e ∷ es)) s events u
  Yields-record op e es s t h z =
      Yields-execute_all _ _ (Yields-persist op s t h) (Yields-execute_all _ _ (Yields-emit e t) z)
