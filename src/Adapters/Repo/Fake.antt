-- ===== src/Adapters/Repo/Fake.antt =====
-- repo/fake.rs of crates/adapters: worktrees in memory.
pub mod Branches
use otters.Base.{
  String, ◌≡◌, refl, ap, Bool, true, false, Option, none, some, List, [], ◌∷◌, ◌++◌, ◌==◌, ◌||◌,
  if◌then◌else◌,
}
use otters.Base.Result.{Result, ok, err}
use otters.Base.Dict.{Dict, empty, get, insert, remove, keys, values}
use otters.Base.Exec.{Exec}
use otters.Engine.Error.{RepoError, worktree_not_found, branch_exists}
use otters.Adapters.Repo.{RepoAdapter}

pub data RepoCall : Type 0 where
  add_worktree : (branch path : String) → RepoCall
  remove_worktree : (path : String) → RepoCall
  list_worktrees : RepoCall

pub record FakeWorktree : Type 0 where
  pub path : String
  pub branch : String

pub record FakeRepo : Type 0 where
  pub worktrees : Dict FakeWorktree
  pub calls : List RepoCall

-- `FakeRepoAdapter::new()`
unfoldable pub init : FakeRepo
init = record { worktrees = empty; calls = [] }

unfoldable pub get_worktree : FakeRepo → String → Option FakeWorktree
get_worktree s path = get s.worktrees path

abbrev called : RepoCall → FakeRepo → FakeRepo
called c s = record s { calls = s.calls ++ c ∷ [] }

-- `worktrees.values().any(|w| w.branch == branch)`
unfoldable pub any_branch : String → List FakeWorktree → Bool
any_branch branch [] = false
any_branch branch (w ∷ ws) = w.branch == branch || any_branch branch ws

abbrev Call : Type 0 → Type 0
Call A = Exec FakeRepo RepoError A

abbrev add_new : Bool → String → String → FakeRepo → Result RepoError (Unit {0}) × FakeRepo
add_new true branch path s = (err (branch_exists branch), s)
add_new false branch path s = (
  ok tt,
  record s { worktrees = insert s.worktrees path (record { path = path; branch = branch }) },
)

unfoldable pub worktree_add : String → String → Call (Unit {0})
unfolding any_branch
worktree_add branch path s =
    add_new (any_branch branch (values s.worktrees)) branch path
      (called (add_worktree branch path) s)

abbrev removed : String → Option FakeWorktree → Result RepoError (Unit {0})
removed path none = err (worktree_not_found path)
removed path (some w) = ok tt

unfoldable pub worktree_remove : String → Call (Unit {0})
worktree_remove path s = (
  removed path (get s.worktrees path),
  record (called (remove_worktree path) s) { worktrees = remove s.worktrees path },
)

unfoldable pub worktree_list : Call (List String)
worktree_list s = (ok (keys s.worktrees), called list_worktrees s)

unfoldable pub fake : RepoAdapter FakeRepo
unfolding worktree_add worktree_remove worktree_list
fake = record {
  worktree_add = worktree_add;
  worktree_remove = worktree_remove;
  worktree_list = worktree_list;
}
