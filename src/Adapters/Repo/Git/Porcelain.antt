-- ===== src/Adapters/Repo/Git/Porcelain.antt =====
-- `worktree_list` on what `git worktree list --porcelain` prints.
use otters.Base.{String, ◌≡◌, refl, ap, ◌∙◌, true, none, List, [], ◌∷◌, ◌++◌, map}
use otters.Base.Lists.{All}
use otters.Base.Text.{◌<>◌, unlines, IsLine, lines-unlines, strip_prefix, strip_prefix-append}
use otters.Base.Result.{ok}
use otters.Adapters.Repo.Git.{Git, push_path, worktree_paths, worktree_list}

-- A worktree as git lists it: its path, then its attributes, a line each, and an empty line.
pub record Entry : Type 0 where
  pub path : String
  pub attributes : List String

abbrev pub entry_lines : List Entry → List String
entry_lines [] = []
entry_lines (e ∷ es) = ("worktree " <> e.path) ∷ (e.attributes ++ "" ∷ entry_lines es)

-- An attribute is one line, and is not itself a path.
abbrev pub IsAttribute : String → Type 0
IsAttribute a = IsLine a × (strip_prefix a "worktree " ≡ none)

pub record IsEntry (e : Entry) : Type 0 where
  pub path : IsLine ("worktree " <> e.path)
  pub attributes : All IsAttribute e.attributes

attributes_skipped :
    (ds : List String) (rest : List String)
    → All IsAttribute ds
    → worktree_paths (ds ++ "" ∷ rest) ≡ worktree_paths rest
unfolding worktree_paths strip_prefix
attributes_skipped [] rest h = refl
attributes_skipped (a ∷ ds) rest h =
    ap (λ o. push_path o (worktree_paths (ds ++ "" ∷ rest))) h.0.1 ∙ attributes_skipped ds rest h.1

entries_read :
    (es : List Entry) → All IsEntry es → worktree_paths (entry_lines es) ≡ map (λ e. e.path) es
unfolding worktree_paths
entries_read [] h = refl
entries_read (e ∷ es) h =
    let rest = worktree_paths (e.attributes ++ "" ∷ entry_lines es) in
    ap (λ o. push_path o rest) (strip_prefix-append "worktree " e.path)
    ∙ ap (λ l. e.path ∷ l)
        (attributes_skipped e.attributes (entry_lines es) h.0.attributes ∙ entries_read es h.1)

attribute_lines :
    (ds : List String) (rest : List String)
    → All IsAttribute ds
    → All IsLine rest
    → All IsLine (ds ++ "" ∷ rest)
attribute_lines [] rest h r = (tt, r)
attribute_lines (a ∷ ds) rest h r = (h.0.0, attribute_lines ds rest h.1 r)

entry_lines-IsLine : (es : List Entry) → All IsEntry es → All IsLine (entry_lines es)
entry_lines-IsLine [] h = tt
entry_lines-IsLine (e ∷ es) h =
    (h.0.path, attribute_lines e.attributes _ h.0.attributes (entry_lines-IsLine es h.1))

-- If git prints a list of worktrees, then `worktree_list` returns their paths in git's order. No path holds a line's end, and no attribute is a line that looks like a path's.
pub worktree_list-porcelain :
    {S : Type 0} (g : Git S) (root : String) (es : List Entry) (s s' : S) (stderr : String)
    → All IsEntry es
    → g.output root ("worktree" ∷ "list" ∷ "--porcelain" ∷ []) s
      ≡ (ok (record { success = true; stdout = unlines (entry_lines es); stderr = stderr }), s')
    → worktree_list g root s ≡ (ok (map (λ e. e.path) es), s')
unfolding worktree_list
worktree_list-porcelain g root es s s' stderr h e =
    rw
      (
        e,
        worktree_list,
        lines-unlines (entry_lines es) (entry_lines-IsLine es h),
        entries_read es h,
      )
      refl
