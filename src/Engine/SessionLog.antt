-- ===== src/Engine/SessionLog.antt =====
-- session_log.rs of crates/engine: what the last line of an agent's session log says of it.
use otters.Base.{String, Option, none, some, List, [], ◌∷◌, ◌||◌, ◌==◌, if◌then◌else◌}
use otters.Base.Text.{◌<>◌, lines, join_path, contains, is_blank}
use otters.Engine.Machine.{Env}

pub data FailureReason : Type 0 where
  unauthorized out_of_credits no_internet rate_limited : FailureReason
  other : (message : String) → FailureReason

pub data SessionState : Type 0 where
  working waiting_for_input unknown : SessionState
  failed : FailureReason → SessionState

-- The tests of `detect_error` on the text in lower case, in their order.
unfoldable pub classify : (err_lower error : String) → FailureReason
classify err_lower error =
    if contains err_lower "unauthorized" || contains err_lower "invalid api key"
    then unauthorized
    else if contains err_lower "credit"
        || (contains err_lower "quota" || contains err_lower "billing")
    then out_of_credits
    else if contains err_lower "network"
        || (contains err_lower "connection" || contains err_lower "offline")
    then no_internet
    else if contains err_lower "rate limit" || contains err_lower "too many requests"
    then rate_limited
    else other error

-- The last line that is not blank; `""` where there is none.
unfoldable pub last_line : List String → String → String
last_line [] last = last
last_line (line ∷ rest) last = last_line rest (if is_blank line then last else line)

-- `o.and_then(f)`
abbrev pub and_then {ℓ} : {A B : Type ℓ} → Option A → (A → Option B) → Option B
and_then none f = none
and_then (some a) f = f a

abbrev pub or_else {ℓ} : {A : Type ℓ} → Option A → Option A → Option A
or_else none b = b
or_else (some a) b = some a

stop_state : Option String → SessionState
stop_state none = unknown
stop_state (some reason) =
    if reason == "end_turn"
    then waiting_for_input
    else if reason == "tool_use"
    then working
    else unknown

module _ {V W : Type 0} (env : Env V W) where
  -- `json.get(k).and_then(|v| v.as_str())`
  abbrev pub str_field : V → String → Option String
  str_field json k = and_then (env.field json k) env.as_str

  unfoldable pub detect_error : V → Option FailureReason
  detect_error json =
      and_then
        (or_else (str_field json "error")
          (and_then (env.field json "message") (λ m. str_field m "error")))
        (λ error. some (classify (env.to_lowercase error) error))

  typed_state : V → Option String → SessionState
  unfolding stop_state
  typed_state json none = unknown
  typed_state json (some last_type) =
      if last_type == "assistant"
      then stop_state (and_then (env.field json "message") (λ m. str_field m "stop_reason"))
      else if last_type == "user"
      then working
      else unknown

  state_of_error : V → Option FailureReason → SessionState
  unfolding typed_state
  state_of_error json (some reason) = failed reason
  state_of_error json none = typed_state json (str_field json "type")

  state_of_json : Option V → SessionState
  unfolding detect_error state_of_error
  state_of_json none = unknown
  state_of_json (some json) = state_of_error json (detect_error json)

  state_of_line : String → SessionState
  unfolding state_of_json
  state_of_line line = if line == "" then unknown else state_of_json (env.parse_json line)

  state_of_content : Option String → SessionState
  unfolding state_of_line last_line
  state_of_content none = unknown
  state_of_content (some content) = state_of_line (last_line (lines content) "")

  -- A watcher is the path that it reads.
  unfoldable pub check_state : W → String → SessionState
  unfolding state_of_content
  check_state w path = state_of_content (env.log_text w path)

  -- `<base>/projects/<hash>/<session>.jsonl`, or else the newest log of that directory.
  unfoldable pub find_session_log_in :
      W → (project_path session_id claude_base : String) → Option String
  find_session_log_in w project_path session_id claude_base =
      let project_dir = join_path (join_path claude_base "projects") (env.hash_path project_path) in
      let session_file = join_path project_dir (session_id <> ".jsonl") in
      if env.exists w project_dir
      then (if env.exists w session_file then some session_file else env.newest_log w project_dir)
      else none

  claude_base_of : Option String → Option String → String
  claude_base_of (some dir) home = dir
  claude_base_of none (some home) = join_path home ".claude"
  claude_base_of none none = join_path "" ".claude"

  unfoldable pub find_session_log : W → (project_path session_id : String) → Option String
  unfolding claude_base_of
  find_session_log w project_path session_id =
      find_session_log_in w project_path session_id
        (claude_base_of (env.templates.env_var "CLAUDE_LOCAL_STATE_DIR") env.home_dir)
