-- ===== src/Engine/Workspace.antt =====
-- workspace.rs of crates/engine: the files that an agent finds in its workspace.
use otters.Base.{String, if◌then◌else◌}
use otters.Base.Text.{◌<>◌, join_path}
use otters.Base.Exec.{pure, gets, ◌>>=◌, ◌>>◌}
use otters.Engine.Machine.{Env, Action, outside}

-- The text of CLAUDE.md.
unfoldable pub instructions : (name prompt : String) → String
instructions name prompt =
    "# " <> name <> "\n\n" <> prompt <> "\n\n## Completion\n\nWhen done, run: `oj done`\n"
    <> "On error, run: `oj done --error \"description\"`\n"

module _ {V W : Type 0} (env : Env V W) where
  unfoldable pub prepare_for_agent :
      (workspace_path project_root pipeline_name prompt : String) → Action W String (Unit {0})
  prepare_for_agent workspace_path project_root pipeline_name prompt = do
    outside (env.create_dir_all workspace_path)
    outside
        (env.write_file (join_path workspace_path "CLAUDE.md") (instructions pipeline_name prompt))
    let project_settings = join_path project_root ".claude/settings.json"
    there ← gets (λ m. env.exists m.world project_settings)
    let claude_dir = join_path workspace_path ".claude"
    if there
        then (do
          outside (env.create_dir_all claude_dir)
          outside (env.copy_file project_settings (join_path claude_dir "settings.local.json")))
        else pure tt
