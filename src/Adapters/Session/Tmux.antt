-- ===== src/Adapters/Session/Tmux.antt =====
-- session/tmux.rs of crates/adapters: sessions by calls of `tmux`.
use otters.Base.{ℕ, String, Bool, false, List, [], ◌∷◌, ◌++◌, if◌then◌else◌, ◌==◌}
use otters.Base.Int.{show_ℕ}
use otters.Base.Text.{◌<>◌}
use otters.Base.Chars.{trim}
use otters.Base.Result.{Result, ok, err}
use otters.Base.Exec.{Exec, pure, raise, mapping, ◌>>=◌}
use otters.Engine.Error.{SessionError, not_found, spawn_failed}
use otters.Adapters.Session.{SessionAdapter, Vars}

-- What a program that ran said, and how it ended.
pub record Output : Type 0 where
  pub success : Bool
  pub stdout : String
  pub stderr : String

-- `Command::new(program).args(args).output()`, which may fail to start the program.
pub record Programs (S : Type 0) : Type 0 where
  pub output : (program : String) → (args : List String) → Exec S String Output

module _ {S : Type 0} (programs : Programs S) where
  abbrev Call : Type 0 → Type 0
  Call A = Exec S SessionError A

  unfoldable pub tmux : List String → Call Output
  unfolding mapping
  tmux args = mapping SessionError.command_failed (programs.output "tmux" args)

  abbrev succeeded : Result String Output → Bool
  succeeded (ok o) = o.success
  succeeded (err e) = false

  -- A session of that name is killed first, whatever comes of it.
  unfoldable pub clear_session : String → S → S
  clear_session id s =
      let (existing, s') = programs.output "tmux" ("has-session" ∷ "-t" ∷ id ∷ []) s in
      if succeeded existing
      then (programs.output "tmux" ("kill-session" ∷ "-t" ∷ id ∷ []) s').1
      else s'

  env_args : Vars → List String
  env_args [] = []
  env_args ((k, v) ∷ vars) = "-e" ∷ (k <> "=" <> v) ∷ env_args vars

  unfoldable pub spawn_args : String → String → String → Vars → List String
  unfolding env_args
  spawn_args id cwd cmd vars =
      "new-session" ∷ "-d" ∷ "-s" ∷ id ∷ "-c" ∷ cwd ∷ (env_args vars ++ cmd ∷ [])

  abbrev spawn_result : String → Output → Call String
  spawn_result id o = if o.success then pure id else raise (spawn_failed o.stderr)

  unfoldable pub spawn_session : String → String → String → Vars → Call String
  unfolding clear_session spawn_args mapping ◌>>=◌ pure raise
  spawn_session name cwd cmd vars s =
      let id = "oj-" <> name in
      (mapping spawn_failed (programs.output "tmux" (spawn_args id cwd cmd vars))
          >>= spawn_result id)
        (clear_session id s)

  unfoldable pub send_session : String → String → Call (Unit {0})
  unfolding tmux ◌>>=◌ pure raise
  send_session id input = tmux ("send-keys" ∷ "-t" ∷ id ∷ input ∷ []) >>= λ o.
      if o.success then pure tt else raise (not_found id)

  -- That the session is dead already is fine.
  unfoldable pub kill_session : String → Call (Unit {0})
  unfolding tmux ◌>>=◌ pure
  kill_session id = tmux ("kill-session" ∷ "-t" ∷ id ∷ []) >>= λ o. pure tt

  unfoldable pub session_alive : String → Call Bool
  unfolding tmux ◌>>=◌ pure
  session_alive id = tmux ("has-session" ∷ "-t" ∷ id ∷ []) >>= λ o. pure o.success

  unfoldable pub capture_session : String → ℕ → Call String
  unfolding tmux ◌>>=◌ pure raise
  capture_session id lines =
      tmux ("capture-pane" ∷ "-t" ∷ id ∷ "-p" ∷ "-S" ∷ ("-" <> show_ℕ lines) ∷ []) >>= λ o.
      if o.success then pure o.stdout else raise (not_found id)

  unfoldable pub find_process : String → String → Call Bool
  unfolding mapping ◌>>=◌ pure
  find_process pid pattern =
      if pid == ""
      then pure false
      else mapping SessionError.command_failed
          (programs.output "pgrep" ("-P" ∷ pid ∷ "-f" ∷ pattern ∷ []))
        >>= λ o. pure o.success

  unfoldable pub process_running : String → String → Call Bool
  unfolding tmux find_process trim ◌>>=◌ raise
  process_running id pattern = tmux ("list-panes" ∷ "-t" ∷ id ∷ "-F" ∷ "#{pane_pid}" ∷ []) >>= λ o.
      if o.success then find_process (trim o.stdout) pattern else raise (not_found id)

  unfoldable pub adapter : SessionAdapter S
  unfolding spawn_session send_session kill_session session_alive capture_session process_running
  adapter = record {
    spawn = spawn_session;
    send = send_session;
    kill = kill_session;
    is_alive = session_alive;
    capture_output = capture_session;
    is_process_running = process_running;
  }
