-- ===== src/Adapters/Repo/Git.antt =====
-- repo/git.rs of crates/adapters: worktrees by calls of `git`.
pub mod Porcelain
use otters.Base.{
  String, ◌≡◌, refl, ap, Bool, true, false, Option, none, some, List, [], ◌∷◌, ◌++◌, if◌then◌else◌,
}
use otters.Base.Text.{◌<>◌, contains, lines, strip_prefix}
use otters.Base.Result.{Result, ok, err, ◌>>=◌, map_err}
use otters.Base.Exec.{Exec, pure, raise, mapping}
use otters.Base.Exec
use otters.Engine.Error.{RepoError, worktree_not_found, branch_exists}
use otters.Adapters.Session.Tmux.{Output}
use otters.Adapters.Repo.{RepoAdapter}

-- `Command::new("git").current_dir(root).args(args).output()`, which may fail to start.
pub record Git (S : Type 0) : Type 0 where
  pub output : (root : String) → (args : List String) → Exec S String Output

abbrev pub push_path : Option String → List String → List String
push_path none paths = paths
push_path (some path) paths = path ∷ paths

-- The paths of `worktree list --porcelain`.
unfoldable pub worktree_paths : List String → List String
worktree_paths [] = []
worktree_paths (line ∷ rest) = push_path (strip_prefix line "worktree ") (worktree_paths rest)

module _ {S : Type 0} (g : Git S) (root : String) where
  abbrev Call : Type 0 → Type 0
  Call A = Exec S RepoError A

  unfoldable pub git : List String → Call Output
  unfolding mapping
  git args = mapping RepoError.command_failed (g.output root args)

  -- What a failure means, if its text says `known`.
  abbrev refused : String → RepoError → String → RepoError
  refused stderr e known = if contains stderr known then e else RepoError.command_failed stderr

  unfoldable pub worktree_add : String → String → Call (Unit {0})
  unfolding git contains pure raise Exec.◌>>=◌
  worktree_add branch path = Exec.◌>>=◌ (git ("worktree" ∷ "add" ∷ path ∷ "-b" ∷ branch ∷ [])) λ o.
      if o.success
      then pure tt
      else raise (refused o.stderr (branch_exists branch) "already exists")

  unfoldable pub worktree_remove : String → Call (Unit {0})
  unfolding git contains pure raise Exec.◌>>=◌
  worktree_remove path = Exec.◌>>=◌ (git ("worktree" ∷ "remove" ∷ "--force" ∷ path ∷ [])) λ o.
      if o.success
      then pure tt
      else raise (refused o.stderr (worktree_not_found path) "is not a working tree")

  unfoldable pub worktree_list : Call (List String)
  unfolding git lines worktree_paths pure raise Exec.◌>>=◌
  worktree_list = Exec.◌>>=◌ (git ("worktree" ∷ "list" ∷ "--porcelain" ∷ [])) λ o.
      if o.success
      then pure (worktree_paths (lines o.stdout))
      else raise (RepoError.command_failed o.stderr)

  unfoldable pub adapter : RepoAdapter S
  unfolding worktree_add worktree_remove worktree_list
  adapter = record {
    worktree_add = worktree_add;
    worktree_remove = worktree_remove;
    worktree_list = worktree_list;
  }
