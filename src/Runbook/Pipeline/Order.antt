-- ===== src/Runbook/Pipeline/Order.antt =====
-- The order of the phases: `next_phase` of pipeline.rs against a plain reading of the list.
use native.Mathlib.Numerals.{add-one}
use otters.Base.{
  ℕ, suc, String, ◌≡◌, refl, ◌∙◌, Option, none, some, List, [], ◌∷◌, ◌==◌, inl, inr, if◌then◌else◌,
  Bool-cases,
}
use otters.Base.Lists.{get_elem?}
use otters.Runbook.Pipeline.{
  PhaseDef, PipelineDef, later, position, behind, first, after_found, after_phase, get_phase,
  next_phase,
}

-- The phase that stands behind the first one of that name.
pub following : String → List PhaseDef → Option PhaseDef
following current [] = none
following current (p ∷ ps) = if p.name == current then first ps else following current ps

behind-later :
    (o : Option ℕ) (p : PhaseDef) (ps : List PhaseDef) → behind (later o) (p ∷ ps) ≡ behind o ps
unfolding behind later
behind-later none p ps = refl
behind-later (some i) p ps = rw (add-one (suc i), add-one i)

get_elem?-zero : (ps : List PhaseDef) → get_elem? ps 0 ≡ first ps
unfolding first
get_elem?-zero [] = refl
get_elem?-zero (p ∷ ps) = refl

behind-position :
    (current : String) (ps : List PhaseDef) → behind (position current ps) ps ≡ following current ps
unfolding position following
behind-position current [] = unfold behind in refl
behind-position current (p ∷ ps) = elim (Bool-cases (p.name == current)) [
  | inl y ↦ rw y (unfold behind in get_elem?-zero ps)
  | inr n ↦ rw n (behind-later (position current ps) p ps ∙ behind-position current ps)
]

-- The next phase of one that is defined and has no explicit next is the one behind it in the
-- runbook, and none for the last one.
pub next_phase-following :
    (d : PipelineDef) (current : String) (p : PhaseDef)
    → get_phase d current ≡ some p
    → p.next ≡ none
    → next_phase d current ≡ following current d.phases
unfolding next_phase
next_phase-following d current p found no_next =
    rw (found, no_next, after_found, after_phase) (behind-position current d.phases)
