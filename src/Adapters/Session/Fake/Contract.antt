-- ===== src/Adapters/Session/Fake/Contract.antt =====
-- The fake sessions keep the promises of the trait.
use otters.Base.{
  String, ◌≡◌, refl, ap, Bool, true, false, Option, none, some, ne→eq_false, ◌==◌, if◌then◌else◌,
}
use mathlib.Core.Option
use otters.Base.Dict.{Dict, get, insert, get-insert_self, get-modify}
use text.Mathlib.TextPositions.{eq_refl}
use otters.Adapters.Session.{IsSessionAdapter}
use otters.Adapters.Session.Fake.{FakeSession, FakeSessions, alive_of, fake}

-- A session lives if it was spawned and neither killed nor said to have exited.
unfoldable pub lives : FakeSessions → String → Bool
lives s id = alive_of (get s.sessions id)

-- What `kill` does to a session.
abbrev dead : FakeSession → FakeSession
dead x = record x { alive = false }

alive_of-dead : (o : Option FakeSession) → alive_of (Option.map dead o) ≡ false
alive_of-dead none = refl
alive_of-dead (some x) = refl

lives_after :
    (s : FakeSessions) (id j : String)
    → lives (fake.kill id s).1 j
      ≡ alive_of (if id == j then Option.map dead (get s.sessions j) else get s.sessions j)
unfolding fake lives
lives_after s id j = ap alive_of (get-modify s.sessions id j dead)

spawned_alive :
    (d : Dict FakeSession) (id j : String) (x : FakeSession)
    → x.alive ≡ true
    → id ≡ j
    → alive_of (get (insert d id x) j) ≡ true
spawned_alive d id j x a e = rw (← e, get-insert_self d id x) a

-- The fake sessions are an adapter of sessions: what is spawned lives, what is killed does not and
-- nothing else dies by it, `is_alive` tells which of the two holds, and neither this question nor
-- input nor a capture of output changes it.
pub fake-IsSessionAdapter : IsSessionAdapter fake lives
unfolding fake lives
fake-IsSessionAdapter = record {
  spawned = λ name cwd cmd vars s id e. spawned_alive s.sessions _ id _ refl (cc e);
  killed = λ id s e. rw (lives_after s id id, eq_refl id) (alive_of-dead (get s.sessions id));
  kill_others = λ id j s ne. rw (lives_after s id j, ne→eq_false id j ne) refl;
  tells = λ id s b e. cc e;
  asks = λ id j s. refl;
  sends = λ id input j s. refl;
  captures = λ id lines j s. refl;
}
