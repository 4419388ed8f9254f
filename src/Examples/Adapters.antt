-- ===== src/Examples/Adapters.antt =====
-- The theorems on the adapters: fake sessions that are traced, fake worktrees, and a listing of git.
use Prim.Native.Char.{code}
use otters.Base.{
  String, ◌≡◌, refl, Bool, not, eqb, ◌&&◌, ◌==◌, true, false, Option, none, some, List, [], ◌∷◌,
  map,
}
use otters.Base.Text.{◌<>◌, unlines, IsLine}
use otters.Base.Result.{ok}
use otters.Adapters.Session.Fake.{FakeSessions, fake}
use otters.Adapters.Session.Fake.Contract.{lives, fake-IsSessionAdapter}
use otters.Adapters.Traced.{Paths, traced_session}
use otters.Adapters.Traced.Transparent.{IsGuarded, traced_session-IsGuarded}
use otters.Adapters.Repo.Fake.{FakeRepo}
use otters.Adapters.Repo.Fake
use otters.Adapters.Repo.Fake.Branches.{OneEach, here, adds, OneEach-Reach}
use otters.Adapters.Repo.Git.{Git, worktree_list}
use otters.Adapters.Repo.Git.Porcelain.{Entry, IsEntry, entry_lines, worktree_list-porcelain}

-- One directory is there.
abbrev paths : Paths FakeSessions
paths = record { exists = λ s p. p == "/tmp"; parent = λ p. none }

traced_session-IsGuarded_example : IsGuarded paths fake (traced_session paths fake) lives
traced_session-IsGuarded_example = traced_session-IsGuarded paths fake lives fake-IsSessionAdapter

-- The second of two calls asks for the same branch.
abbrev repo : FakeRepo
repo =
    (Fake.fake.worktree_add "fix" "/trees/b"
      (Fake.fake.worktree_add "fix" "/trees/a" Fake.init).1).1

OneEach-Reach_example : OneEach repo.worktrees
OneEach-Reach_example = OneEach-Reach repo (adds "fix" "/trees/b" (adds "fix" "/trees/a" here))

abbrev entry : Entry
entry = record { path = "/trees/a"; attributes = "HEAD 1f" ∷ "branch refs/heads/fix" ∷ [] }

abbrev git : Git (Unit {0})
git = record {
  output = λ root args s.
      (ok (record { success = true; stdout = unlines (entry_lines (entry ∷ [])); stderr = "" }), s);
}

abbrev is_line : String → Bool
is_line String.[] = true
is_line (String.◌∷◌ c s) = not (eqb (code c) 10) && (not (eqb (code c) 13) && is_line s)

split : (a b : Bool) → (not a && b) ≡ true → (a ≡ false) × (b ≡ true)
split true b h = absurd (cc h)
split false b h = (refl, h)

IsLine-is_line : (s : String) → is_line s ≡ true → IsLine s
IsLine-is_line String.[] h = tt
IsLine-is_line (String.◌∷◌ c s) h =
    let (n, h') = split (eqb (code c) 10) _ h in
    let (r, rest) = split (eqb (code c) 13) (is_line s) h' in (n, r, IsLine-is_line s rest)

entry-IsEntry : IsEntry entry
unfolding otters.Base.Text.strip_prefix
entry-IsEntry = record {
  path = IsLine-is_line "worktree /trees/a" refl;
  attributes = (
    (IsLine-is_line "HEAD 1f" refl, refl),
    ((IsLine-is_line "branch refs/heads/fix" refl, refl), tt),
  );
}

worktree_list-porcelain_example : worktree_list git "/project" tt ≡ (ok ("/trees/a" ∷ []), tt)
worktree_list-porcelain_example =
    worktree_list-porcelain git "/project" (entry ∷ []) tt tt "" (entry-IsEntry, tt) refl
