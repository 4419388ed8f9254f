-- ===== src/Adapters/Session/Fake.antt =====
-- session/fake.rs of crates/adapters: the sessions that tests use, in memory.
pub mod Contract
use otters.Base.{
  ℕ, zero, suc, ◌+◌, ◌-◌, ◌%◌, ◌^◌, String, Bool, true, false, Option, none, some, List, [], ◌∷◌,
  ◌++◌,
}
use otters.Base.Int.{ℤ, show_ℕ}
use otters.Base.Text.{◌<>◌}
use otters.Base.Lists.{length}
use otters.Base.Result.{Result, ok, err}
use otters.Base.Dict.{Dict, empty, get, insert, modify}
use otters.Base.Exec.{Exec}
use otters.Engine.Error.{SessionError, not_found}
use otters.Adapters.Session.{SessionAdapter, Vars}

pub data SessionCall : Type 0 where
  spawn : (name cwd cmd : String) → (vars : Vars) → SessionCall
  send : (id input : String) → SessionCall
  kill : (id : String) → SessionCall
  is_alive : (id : String) → SessionCall
  capture_output : (id : String) → (lines : ℕ) → SessionCall
  is_process_running : (id pattern : String) → SessionCall

pub record FakeSession : Type 0 where
  pub name : String
  pub cwd : String
  pub cmd : String
  pub vars : Vars
  pub output : List String
  pub alive : Bool
  pub exit_code : Option ℤ
  pub process_running : Bool

pub record FakeSessions : Type 0 where
  pub sessions : Dict FakeSession
  pub calls : List SessionCall
  pub next_id : ℕ

-- `FakeSessionAdapter::new()`
unfoldable pub init : FakeSessions
init = record { sessions = empty; calls = []; next_id = 0 }

unfoldable pub get_session : FakeSessions → String → Option FakeSession
get_session s id = get s.sessions id

abbrev change : String → (FakeSession → FakeSession) → FakeSessions → FakeSessions
change id f s = record s { sessions = modify s.sessions id f }

unfoldable pub set_output : String → List String → FakeSessions → FakeSessions
set_output id output = change id (λ x. record x { output = output })

unfoldable pub set_exited : String → ℤ → FakeSessions → FakeSessions
set_exited id code = change id (λ x. record x { alive = false; exit_code = some code })

unfoldable pub set_process_running : String → Bool → FakeSessions → FakeSessions
set_process_running id running = change id (λ x. record x { process_running = running })

-- The call is recorded first.
abbrev called : SessionCall → FakeSessions → FakeSessions
called c s = record s { calls = s.calls ++ c ∷ [] }

-- A counter of 64 bits.
abbrev next : FakeSessions → ℕ
next s = (s.next_id + 1) % 2 ^ 64

abbrev id_of : ℕ → String
id_of n = "fake-" <> show_ℕ n

abbrev Call : Type 0 → Type 0
Call A = Exec FakeSessions SessionError A

unfoldable pub spawn_session : String → String → String → Vars → Call String
spawn_session name cwd cmd vars s =
    let id = id_of (next s) in
    let session : FakeSession = record {
      name = name;
      cwd = cwd;
      cmd = cmd;
      vars = vars;
      output = [];
      alive = true;
      exit_code = none;
      process_running = true;
    } in
    (
      ok id,
      record {
        sessions = insert s.sessions id session;
        calls = s.calls ++ spawn name cwd cmd vars ∷ [];
        next_id = next s;
      },
    )

abbrev found : String → Option FakeSession → Result SessionError (Unit {0})
found id none = err (not_found id)
found id (some x) = ok tt

unfoldable pub send_session : String → String → Call (Unit {0})
send_session id input s = (found id (get s.sessions id), called (send id input) s)

unfoldable pub kill_session : String → Call (Unit {0})
kill_session id s = (ok tt, change id (λ x. record x { alive = false }) (called (kill id) s))

abbrev pub alive_of : Option FakeSession → Bool
alive_of none = false
alive_of (some x) = x.alive

unfoldable pub session_alive : String → Call Bool
session_alive id s = (ok (alive_of (get s.sessions id)), called (is_alive id) s)

drop : ℕ → List String → List String
drop zero xs = xs
drop (suc n) [] = []
drop (suc n) (x ∷ xs) = drop n xs

-- `lines.join("\n")`
join_lines : List String → String
join_lines [] = ""
join_lines (x ∷ []) = x
join_lines (x ∷ y ∷ ys) = x <> "\n" <> join_lines (y ∷ ys)

captured : String → ℕ → Option FakeSession → Result SessionError String
unfolding drop join_lines
captured id lines none = err (not_found id)
captured id lines (some x) = ok (join_lines (drop (length x.output - lines) x.output))

unfoldable pub capture_session : String → ℕ → Call String
unfolding captured
capture_session id lines s =
    (captured id lines (get s.sessions id), called (capture_output id lines) s)

abbrev running_of : Option FakeSession → Bool
running_of none = false
running_of (some x) = x.process_running

unfoldable pub process_running : String → String → Call Bool
process_running id pattern s =
    (ok (running_of (get s.sessions id)), called (is_process_running id pattern) s)

unfoldable pub fake : SessionAdapter FakeSessions
unfolding spawn_session send_session kill_session session_alive capture_session process_running
fake = record {
  spawn = spawn_session;
  send = send_session;
  kill = kill_session;
  is_alive = session_alive;
  capture_output = capture_session;
  is_process_running = process_running;
}
