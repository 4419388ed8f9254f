-- ===== src/Storage/State/Lookup.antt =====
-- `get_pipeline` of state.rs: an exact match, else a unique prefix.
use otters.Base.{
  String, ◌≡◌, ◌∙◌, refl, subst, ◌⊎◌, inl, inr, Bool, true, some, List, [], ◌∷◌, Option-cases,
}
use otters.Base.Lists.{filter, In, In-filter, filter-true}
use otters.Base.Text.{is_some, strip_prefix}
use otters.Base.Dict.{get, keys, In-keys}
use otters.Core.Pipeline.{Pipeline}
use otters.Storage.State.{MaterializedState, get_pipeline, only}

-- The key begins with the text.
abbrev pub begins : String → String → Bool
begins id k = is_some (strip_prefix k id)

-- The one key that a prefix search may return: the key itself, or the only key that begins so.
abbrev pub IsTheKey : MaterializedState → String → String → Type 0
IsTheKey s id k =
    (k ≡ id)
    ⊎ ((begins id k ≡ true)
        × ((j : String) (q : Pipeline) → get s.pipelines j ≡ some q → begins id j ≡ true → j ≡ k))

only_sound :
    (s : MaterializedState) (id : String) (ks : List String) (p : Pipeline)
    → filter (begins id) (keys s.pipelines) ≡ ks
    → only s.pipelines ks ≡ some p
    → (k : String) × (get s.pipelines k ≡ some p) × IsTheKey s id k
unfolding only
only_sound s id [] p e h = cc
only_sound s id (k ∷ []) p e h = (
  k,
  h,
  inr (
    filter-true (begins id) k (keys s.pipelines) (rw e (inl refl)),
    λ j q g b.
        let found : In j (k ∷ []) =
          subst (In j) e
            (In-filter (begins id) j (keys s.pipelines) (In-keys s.pipelines j q g) b) in
        elim found [ inl same ↦ same | inr never ↦ absurd never ],
  ),
)
only_sound s id (k ∷ l ∷ ks) p e h = cc

-- What the lookup returns is the pipeline that is stored under the id, or under the only id of a
-- stored pipeline that begins with it.
pub get_pipeline_sound :
    (s : MaterializedState) (id : String) (p : Pipeline)
    → get_pipeline s id ≡ some p
    → (k : String) × (get s.pipelines k ≡ some p) × IsTheKey s id k
unfolding get_pipeline
get_pipeline_sound s id p h = elim (Option-cases (get s.pipelines id)) [
  | inl gone ↦
      only_sound s id (filter (begins id) (keys s.pipelines)) p refl (rw (gone, get_pipeline) at h)
  | inr (q, e) ↦ (id, e ∙ (rw (e, get_pipeline) at h), inl refl)
]

-- An id that is stored is found, however many ids begin with it.
pub get_pipeline_exact :
    (s : MaterializedState) (id : String) (p : Pipeline)
    → get s.pipelines id ≡ some p
    → get_pipeline s id ≡ some p
unfolding get_pipeline
get_pipeline_exact s id p h = rw (h, get_pipeline)
