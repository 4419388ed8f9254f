-- ===== src/Runbook/Template/Unknown.antt =====
-- `interpolate` of template.rs where there is nothing to put in.
use otters.Base.{String, ◌≡◌, refl, ap, ◌∙◌, none, List, [], ◌∷◌}
use otters.Base.Text.{◌<>◌}
use otters.Base.Dict.{Dict, get}
use text.Mathlib.TextLemmas.{append-nil}
use otters.Runbook.Template.{
  VarPiece, EnvPiece, Templates, var, get_or, replace_vars, replace_envs, interpolate, source,
}

-- No variable of the pieces has a value.
abbrev pub NoneKnown : Dict String → List VarPiece → Type 0
NoneKnown vars [] = Unit
NoneKnown vars (VarPiece.text t ∷ ps) = NoneKnown vars ps
NoneKnown vars (var whole name ∷ ps) = (get vars name ≡ none) × NoneKnown vars ps

replace_vars-source :
    (vars : Dict String) (ps : List VarPiece) → NoneKnown vars ps → replace_vars vars ps ≡ source ps
unfolding replace_vars source
replace_vars-source vars [] h = refl
replace_vars-source vars (VarPiece.text t ∷ ps) h = ap (λ s. t <> s) (replace_vars-source vars ps h)
replace_vars-source vars (var whole name ∷ ps) h =
    rw (h.0, get_or) (ap (λ s. whole <> s) (replace_vars-source vars ps h.1))

-- Where the matches cut the text without loss, a template without `${VAR:-default}` whose
-- variables all lack a value comes back as it is.
pub interpolate_unknown :
    (t : Templates) (vars : Dict String) (template : String)
    → ((s : String) → source (t.find_vars s) ≡ s)
    → t.find_envs template ≡ EnvPiece.text template ∷ []
    → NoneKnown vars (t.find_vars template)
    → interpolate t template vars ≡ template
unfolding interpolate replace_envs
interpolate_unknown t vars template cut no_env unknown =
    rw (no_env, replace_envs, append-nil)
      (replace_vars-source vars (t.find_vars template) unknown ∙ cut template)
