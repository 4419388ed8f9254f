-- ===== src/Adapters/Session.antt =====
-- The trait `SessionAdapter` of crates/adapters, what its clients rely on, and the adapter that
-- does nothing.
pub mod Fake
pub mod Tmux
use otters.Base.{ℕ, String, ◌≡◌, ◌≢◌, Bool, true, false, List}
use otters.Base.Result.{Result, ok, err}
use otters.Base.Exec.{Exec, pure}
use otters.Engine.Error.{SessionError}

abbrev pub Vars : Type 0
Vars = List (String × String)

-- `S` is what the adapter and the terminals behind it remember.
pub record SessionAdapter (S : Type 0) : Type 0 where
  pub spawn : (name cwd cmd : String) → Vars → Exec S SessionError String
  pub send : (id input : String) → Exec S SessionError (Unit {0})
  pub kill : (id : String) → Exec S SessionError (Unit {0})
  pub is_alive : (id : String) → Exec S SessionError Bool
  pub capture_output : (id : String) → (lines : ℕ) → Exec S SessionError String
  pub is_process_running : (id pattern : String) → Exec S SessionError Bool

-- What an adapter promises of the sessions that live.
pub record IsSessionAdapter {S : Type 0} (a : SessionAdapter S) (lives : S → String → Bool)
    : Type 0 where
  -- A session that was spawned lives.
  pub spawned :
      (name cwd cmd : String) (vars : Vars) (s : S) (id : String)
      → (a.spawn name cwd cmd vars s).0 ≡ ok id
      → lives (a.spawn name cwd cmd vars s).1 id ≡ true
  -- A session that was killed does not.
  pub killed : (id : String) (s : S) → (a.kill id s).0 ≡ ok tt → lives (a.kill id s).1 id ≡ false
  -- The others live on.
  pub kill_others : (id j : String) (s : S) → id ≢ j → lives (a.kill id s).1 j ≡ lives s j
  -- The question tells what lives, and changes nothing.
  pub tells : (id : String) (s : S) (b : Bool) → (a.is_alive id s).0 ≡ ok b → b ≡ lives s id
  pub asks : (id j : String) (s : S) → lives (a.is_alive id s).1 j ≡ lives s j
  pub sends : (id input j : String) (s : S) → lives (a.send id input s).1 j ≡ lives s j
  pub captures :
      (id : String) (lines : ℕ) (j : String) (s : S)
      → lives (a.capture_output id lines s).1 j ≡ lives s j

-- `NoOpSessionAdapter`
unfoldable pub no_op : {S : Type 0} → SessionAdapter S
unfolding pure
no_op = record {
  spawn = λ name cwd cmd vars. pure "noop";
  send = λ id input. pure tt;
  kill = λ id. pure tt;
  is_alive = λ id. pure false;
  capture_output = λ id lines. pure "";
  is_process_running = λ id pattern. pure false;
}
