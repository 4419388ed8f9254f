-- ===== src/Adapters/Repo/Fake/Branches.antt =====
-- The branches of the worktrees in memory.
use otters.Base.{
  String, ◌≡◌, refl, sym, ap, ◌∙◌, Bool, true, false, ◌||◌, some, List, [], ◌∷◌, ◌==◌, inl, inr,
  ◌≢◌, eq_iff,
}
use otters.Base.Lists.{In}
use otters.Base.Dict.{
  Dict, get, insert, values, In-values, get-insert_cases, get-remove-some, get-empty,
}
use otters.Adapters.Repo.Fake.{FakeWorktree, FakeRepo, init, any_branch, add_new, fake}

-- Two worktrees have different branches.
pub record OneEach (d : Dict FakeWorktree) : Type 0 where
  pub one :
      (p q : String) (v w : FakeWorktree)
      → get d p ≡ some v
      → get d q ≡ some w
      → v.branch ≡ w.branch
      → p ≡ q

-- The repositories that calls lead to.
pub data Reach : FakeRepo → Type 0 where
  here : Reach init
  adds : {s : FakeRepo} (branch path : String) → Reach s → Reach (fake.worktree_add branch path s).1
  removes : {s : FakeRepo} (path : String) → Reach s → Reach (fake.worktree_remove path s).1
  lists : {s : FakeRepo} → Reach s → Reach (fake.worktree_list s).1

or-false : (a b : Bool) → (a || b) ≡ false → (a ≡ false) × (b ≡ false)
or-false true b h = absurd (cc h)
or-false false b h = (refl, h)

any_branch-In :
    (branch : String) (w : FakeWorktree) (ws : List FakeWorktree)
    → any_branch branch ws ≡ false
    → In w ws
    → w.branch ≢ branch
unfolding any_branch
any_branch-In branch w [] h i = absurd i
any_branch-In branch w (x ∷ ws) h (inl e) = λ same. absurd (
    cc (
      (eq_iff x.branch branch).1 (ap (λ y. y.branch) (sym e) ∙ same),
      (or-false (x.branch == branch) (any_branch branch ws) h).0,
    ))
any_branch-In branch w (x ∷ ws) h (inr i) =
    any_branch-In branch w ws (or-false (x.branch == branch) (any_branch branch ws) h).1 i

insert-OneEach :
    (d : Dict FakeWorktree) (branch path : String)
    → any_branch branch (values d) ≡ false
    → OneEach d
    → OneEach (insert d path (record { path = path; branch = branch }))
insert-OneEach d branch path free h =
    let x : FakeWorktree = record { path = path; branch = branch } in
    let new = λ (q : String) (w : FakeWorktree) (found : get d q ≡ some w).
      any_branch-In branch w (values d) free (In-values d q w found) in
    record {
      one = λ p q v w hp hq e. elim (get-insert_cases d path p x v hp) [
        | inl (at_p, is_v) ↦ elim (get-insert_cases d path q x w hq) [
          | inl (at_q, is_w) ↦ sym at_p ∙ at_q
          | inr was ↦ absurd (new q w was (sym e ∙ ap (λ y. y.branch) is_v))
        ]
        | inr was_p ↦ elim (get-insert_cases d path q x w hq) [
          | inl (at_q, is_w) ↦ absurd (new p v was_p (e ∙ ap (λ y. y.branch) is_w))
          | inr was_q ↦ h.one p q v w was_p was_q e
        ]
      ];
    }

added-OneEach :
    (b : Bool) (branch path : String) (s : FakeRepo)
    → any_branch branch (values s.worktrees) ≡ b
    → OneEach s.worktrees
    → OneEach (add_new b branch path s).1.worktrees
added-OneEach true branch path s e h = h
added-OneEach false branch path s e h = insert-OneEach s.worktrees branch path e h

-- In every repository that calls of `worktree_add`, `worktree_remove` and `worktree_list` lead to,
-- no two worktrees have the same branch.
pub OneEach-Reach : (s : FakeRepo) → Reach s → OneEach s.worktrees
unfolding fake init
OneEach-Reach _ here = record {
  one = λ p q v w hp hq e. absurd (cc (get-empty {V = FakeWorktree} p, hp));
}
OneEach-Reach _ (adds {s} branch path r) =
    added-OneEach (any_branch branch (values s.worktrees)) branch path _ refl (OneEach-Reach s r)
OneEach-Reach _ (removes {s} path r) =
    let h = OneEach-Reach s r in
    record {
      one = λ p q v w hp hq e.
          h.one p q v w (get-remove-some s.worktrees path p v hp)
            (get-remove-some s.worktrees path q w hq) e;
    }
OneEach-Reach _ (lists {s} r) = OneEach-Reach s r
