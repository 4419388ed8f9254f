-- ===== src/Cli/Startup.antt =====
-- client.rs of crates/cli: what the daemon's log says of a start that failed.
pub mod Last
use Prim.Native.String
use otters.Base.{String, Bool, true, false, ◌||◌, Option, none, some, List, [], ◌∷◌, if◌then◌else◌}
use otters.Base.Text.{◌<>◌, join_path, lines, contains, strip_prefix, is_some}
use otters.Base.Lists.{filter}
use otters.Base.Result.{Result, ok, err}
use otters.Cli.Client.{ClientError, daemon_start_failed}
use otters.Cli.System.{System, and_then, get_daemon_dir}

abbrev pub startup_marker_prefix : String
startup_marker_prefix = "--- ojd: starting (pid: "

abbrev pub or_whole : Option String → String → String → Option String
or_whole (some rest) s marker = some rest
or_whole none s marker = if is_some (strip_prefix s marker) then some s else none

-- `content.rfind(marker).map(|i| &content[i..])`
unfoldable pub last_from : String → String → Option String
unfolding strip_prefix
last_from marker String.[] = or_whole none "" marker
last_from marker (String.◌∷◌ c s) = or_whole (last_from marker s) (String.◌∷◌ c s) marker

-- `line.split_once(": ").map(|(_, msg)| msg)`
unfoldable pub message_of : String → Option String
unfolding strip_prefix
message_of String.[] = none
message_of (String.◌∷◌ c s) =
    let later = message_of s in
    elim (strip_prefix (String.◌∷◌ c s) ": ") [ none ↦ later | some message ↦ some message ]

messages_of : List String → List String
unfolding message_of
messages_of [] = []
messages_of (line ∷ rest) =
    let later = messages_of rest in
    elim (message_of line) [ none ↦ later | some message ↦ message ∷ later ]

-- `texts.join("\n")`
join : List String → String
join [] = ""
join (x ∷ []) = x
join (x ∷ y ∷ ys) = x <> "\n" <> join (y ∷ ys)

abbrev pub is_error : String → Bool
is_error line = contains line " ERROR " || contains line "Failed to start"

-- The lines, if they have no message behind a colon.
joined : List String → List String → String
unfolding join
joined errors [] = join errors
joined errors (m ∷ ms) = join (m ∷ ms)

pub report : List String → Option String
unfolding joined messages_of
report [] = none
report (e ∷ es) = some (joined (e ∷ es) (messages_of (e ∷ es)))

-- The errors in the daemon's log since its last start.
unfoldable pub startup_error_in : String → Option String
unfolding last_from report lines contains
startup_error_in content =
    and_then (last_from startup_marker_prefix content) λ log. report (filter is_error (lines log))

module _ {W : Type 0} (sys : System W) where
  log_error : W → Result ClientError String → Option String
  unfolding startup_error_in
  log_error w (err e) = none
  log_error w (ok dir) = and_then (sys.read_file w (join_path dir "daemon.log")) startup_error_in

  unfoldable pub read_startup_error : String → W → Option String
  unfolding log_error get_daemon_dir
  read_startup_error project_root w = log_error w (get_daemon_dir sys project_root w)

  abbrev pub explained : ClientError → Option String → ClientError
  explained e none = e
  explained e (some message) = daemon_start_failed message

  unfoldable pub wrap_with_startup_error : ClientError → String → W → ClientError
  unfolding read_startup_error
  wrap_with_startup_error (daemon_start_failed m) project_root w = daemon_start_failed m
  wrap_with_startup_error e project_root w = explained e (read_startup_error project_root w)
