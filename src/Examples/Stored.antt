-- ===== src/Examples/Stored.antt =====
-- The theorems on the log and the state, each on a small input.
use otters.Base.{String, ◌≡◌, refl, none, some, [], ◌∷◌}
use otters.Base.Result.{ok, err}
use otters.Base.Dict.{empty, get}
use otters.Core.Operation.{workspace_create, pipeline_create}
use otters.Core.Pipeline.{new}
use otters.Storage.State.{MaterializedState, apply, get_pipeline}
use otters.Storage.State
use otters.Storage.State.Lookup.{IsTheKey, get_pipeline_sound}
use otters.Storage.State.Link.{apply-link}
use otters.Storage.Wal.{Wal, written, torn, unsynced, append, replay, json, io}
use otters.Storage.Wal.Replay.{IsLog, LogAfter, append-LogAfter}
use otters.Base.Text.{lines}
use otters.Storage.Wal.{open_wal}
use otters.Storage.Wal.Repeats.{append-repeats}
use otters.Storage.Wal.Torn.{replay-torn, append-unsynced}
use otters.Examples.World.{codec, faithful, created, moved, fix}

log : IsLog codec "a\n" (created ∷ [])
log = record {
  file_lines = "a" ∷ [];
  is_file = refl;
  encoded =
      (record { seq = 1; parses = refl; one_line = (refl, refl, tt); not_empty = λ x. cc }, tt);
}

append-LogAfter_example :
    LogAfter codec
      (append codec written moved (record { file = "a\n"; sequence = 1 })).0
      (append codec written moved (record { file = "a\n"; sequence = 1 })).1.file
      (created ∷ [])
      moved
append-LogAfter_example =
    append-LogAfter faithful written moved (record { file = "a\n"; sequence = 1 }) (created ∷ []) tt
      log

replay-torn_example : replay codec (some "a\n{") ≡ err (json "not an entry")
replay-torn_example =
    replay-torn codec "a\n" "{" "not an entry" (created ∷ []) log (refl, refl, tt) (λ x. cc) refl

apply-link_example :
    (get
        (apply 2
          (apply 1 State.init (pipeline_create "p" "build" "fix" empty "init"))
          (workspace_create "p" "/trees/fix" "feature/fix")).pipelines
        "p"
      ≡ some (record (new "p" "fix" "build" empty "init" 1) { workspace_path = some "/trees/fix" }))
    × (get
          (apply 2
            (apply 1 State.init (workspace_create "p" "/trees/fix" "feature/fix"))
            (pipeline_create "p" "build" "fix" empty "init")).pipelines
          "p"
        ≡ some (record (new "p" "fix" "build" empty "init" 2) { workspace_path = none }))
apply-link_example =
    apply-link 1 2 State.init "p" "/trees/fix" "feature/fix" "build" "fix" empty "init"

abbrev two_pipelines : MaterializedState
two_pipelines = record State.init {
  pipelines = record { entries = ("abc", fix) ∷ ("abd", record fix { id = "abd" }) ∷ [] };
}

found : get_pipeline two_pipelines "abc" ≡ some fix
unfolding get_pipeline get
found = refl

get_pipeline_sound_example :
    (k : String) × (get two_pipelines.pipelines k ≡ some fix) × IsTheKey two_pipelines "abc" k
get_pipeline_sound_example = get_pipeline_sound two_pipelines "abc" fix found

append-unsynced_example :
    ((append codec (unsynced "EIO") moved (record { file = "a\n"; sequence = 1 })).0
      ≡ err (io "EIO"))
    × (replay codec (
          some (append codec (unsynced "EIO") moved (record { file = "a\n"; sequence = 1 })).1.file)
        ≡ ok (created ∷ moved ∷ []))
append-unsynced_example =
    append-unsynced faithful "EIO" "b" moved (record { file = "a\n"; sequence = 1 }) (created ∷ [])
      refl log

abbrev fresh : Wal
fresh = record { file = ""; sequence = 0 }

nothing : IsLog codec "" []
nothing = record { file_lines = []; is_file = refl; encoded = tt }

counted_fresh : (open_wal "").sequence ≡ 0
unfolding open_wal lines
counted_fresh = refl

append-repeats_example :
    ((append codec written moved (append codec (torn "" "ENOSPC") created fresh).1).0 ≡ ok 2)
    × ((append codec written moved (
          open_wal
            (append codec written moved
              (append codec (torn "" "ENOSPC") created fresh).1).1.file)).0
        ≡ ok 2)
append-repeats_example =
    append-repeats faithful fresh [] created moved moved "ENOSPC" "b" "b" nothing counted_fresh refl
      refl
