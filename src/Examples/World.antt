-- ===== src/Examples/World.antt =====
-- A daemon to try the theorems on: the log holds a pipeline, and an agent's error comes in.
use otters.Base.{
  ℕ, String, Bool, true, false, none, [], ◌∷◌, ◌==◌, ◌&&◌, ◌≡◌, refl, eq_iff, eqb, eqb→eq,
  if◌then◌else◌, Bool-cases, inl, inr,
}
use otters.Base.Result.{Result, ok, err}
use otters.Base.Dict.{empty}
use otters.Core.Operation.{
  pending, Operation, pipeline_create, pipeline_transition, phase_status_update, pipeline_delete,
  session_create, session_delete, workspace_create, workspace_delete,
}
use otters.Storage.Wal.{WalEntry, Codec, written}
use otters.Storage.Wal.Replay.{IsFaithful}
use otters.Runbook.Template.{VarPiece, EnvPiece}
use otters.Runbook.Book
use otters.Core.Pipeline.{Pipeline}
use otters.Engine.Machine.{Env}
use otters.Engine.Runtime.{Setup}

abbrev pub created : Operation
created = pipeline_create "p" "build" "fix" empty "init"

abbrev pub moved : Operation
moved = pipeline_transition "p" "failed"

abbrev is_moved : ℕ → String → String → Bool
is_moved seq id phase = eqb seq 2 && (id == "p" && phase == "failed")

abbrev to_string : ℕ → Operation → Result String String
to_string seq (pipeline_transition id phase) =
    if is_moved seq id phase then ok "b" else err "unsupported"
to_string seq _ = err "unsupported"

abbrev from_str : String → Result String WalEntry
from_str line =
    if line == "a"
    then ok (record { seq = 1; op = created })
    else if line == "b"
    then ok (record { seq = 2; op = moved })
    else err "not an entry"

abbrev pub codec : Codec
codec = record { to_string = λ e. to_string e.seq e.op; from_str = from_str }

and-true : (a b : Bool) → (a && b) ≡ true → (a ≡ true) × (b ≡ true)
and-true true true h = (refl, refl)
and-true true false h = cc
and-true false b h = cc

is_moved-true :
    (seq : ℕ) (id phase : String)
    → is_moved seq id phase ≡ true
    → (seq ≡ 2) × (id ≡ "p") × (phase ≡ "failed")
is_moved-true seq id phase h =
    let (s, q) = and-true (eqb seq 2) _ h in
    let (i, f) = and-true (id == "p") (phase == "failed") q in
    (eqb→eq seq 2 s, (eq_iff id "p").0 i, (eq_iff phase "failed").0 f)

is_entry :
    (seq : ℕ) (op : Operation) (line : String)
    → to_string seq op ≡ ok line
    → (seq ≡ 2) × (op ≡ moved) × (line ≡ "b")
is_entry seq (pipeline_transition id phase) line h = elim (Bool-cases (is_moved seq id phase)) [
  | inl y ↦ let (s, i, q) = is_moved-true seq id phase y in (s, rw (i, q), cc (rw y at h))
  | inr n ↦ cc (rw n at h)
]
is_entry seq (pipeline_create id kind name inputs initial_phase) line h = cc
is_entry seq (phase_status_update id status) line h = cc
is_entry seq (pipeline_delete id) line h = cc
is_entry seq (session_create id pipeline_id) line h = cc
is_entry seq (session_delete id) line h = cc
is_entry seq (workspace_create id path branch) line h = cc
is_entry seq (workspace_delete id) line h = cc

pub faithful : IsFaithful codec
faithful = record {
  parses = λ e line h. let (s, o, l) = is_entry e.seq e.op line h in rw (l, s, o) refl;
  one_line = λ e line h. rw (is_entry e.seq e.op line h).2 (refl, refl, tt);
  not_empty = λ e line h. rw (is_entry e.seq e.op line h).2 (λ x. cc);
}

abbrev pub quiet_env : (W : Type 0) → Env (Unit {0}) W
quiet_env W = record {
  codec = codec;
  object = λ fields. tt;
  field = λ v k. none;
  as_str = λ v. none;
  parse_json = λ s. none;
  templates = record {
    find_vars = λ s. VarPiece.text s ∷ [];
    find_envs = λ s. EnvPiece.text s ∷ [];
    env_var = λ s. none;
  };
  debug_event = λ e. "event";
  to_lowercase = λ s. s;
  now = λ w. (5, w);
  next_id = λ w. ("q", w);
  write_log = λ w. (written, w);
  spawn_session = λ id cwd command vars w. (ok tt, w);
  send_session = λ id input w. (ok tt, w);
  kill_session = λ id w. (ok tt, w);
  add_worktree = λ branch path w. (ok tt, w);
  remove_worktree = λ path w. (ok tt, w);
  send_notification = λ channel message w. (ok tt, w);
  run_shell = λ command cwd vars w. (ok none, w);
  notify_desktop = λ title message w. w;
  exists = λ w path. false;
  read_file = λ w path. err "no file";
  log_text = λ w path. none;
  create_dir_all = λ path w. (ok tt, w);
  write_file = λ path content w. (ok tt, w);
  copy_file = λ source target w. (ok tt, w);
  newest_log = λ w path. none;
  hash_path = λ s. s;
  home_dir = none;
}

abbrev pub env : Env (Unit {0}) (Unit {0})
env = quiet_env (Unit {0})

abbrev pub setup : Setup
setup = record { runbook = Book.init; project_root = "/project"; worktree_root = "/trees" }

abbrev pub fix : Pipeline
fix = record {
  id = "abc";
  name = "fix";
  kind = "build";
  phase = "init";
  phase_status = pending;
  inputs = empty;
  workspace_path = none;
  session_id = none;
  created_at = 1;
  phase_started_at = 1;
  error = none;
}
