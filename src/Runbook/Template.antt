-- ===== src/Runbook/Template.antt =====
-- template.rs of crates/runbook. The `regex` crate finds the patterns; what it finds in a text is a
-- parameter, as the pieces into which the matches cut the text.
pub mod Unknown
use otters.Base.{String, Option, none, some, List, [], ◌∷◌}
use otters.Base.Text.{◌<>◌}
use otters.Base.Dict.{Dict, get}

-- Text between two matches, or a match with its captures.
pub data VarPiece : Type 0 where
  text : String → VarPiece
  var : (whole name : String) → VarPiece

pub data EnvPiece : Type 0 where
  text : String → EnvPiece
  env : (whole name default : String) → EnvPiece

-- The matches of `VAR_PATTERN` and `ENV_PATTERN`, and `std::env::var`.
pub record Templates : Type 0 where
  pub find_vars : String → List VarPiece
  pub find_envs : String → List EnvPiece
  pub env_var : String → Option String

abbrev pub get_or : Option String → String → String
get_or none d = d
get_or (some s) d = s

replace_vars : Dict String → List VarPiece → String
replace_vars vars [] = ""
replace_vars vars (VarPiece.text t ∷ ps) = t <> replace_vars vars ps
replace_vars vars (var whole name ∷ ps) = get_or (get vars name) whole <> replace_vars vars ps

replace_envs : (String → Option String) → List EnvPiece → String
replace_envs env_var [] = ""
replace_envs env_var (EnvPiece.text t ∷ ps) = t <> replace_envs env_var ps
replace_envs env_var (env whole name default ∷ ps) =
    get_or (env_var name) default <> replace_envs env_var ps

unfoldable pub interpolate : Templates → String → Dict String → String
unfolding replace_vars replace_envs
interpolate t template vars =
    replace_vars vars (t.find_vars (replace_envs t.env_var (t.find_envs template)))

-- The text that the pieces were cut from.
unfoldable pub source : List VarPiece → String
source [] = ""
source (VarPiece.text t ∷ ps) = t <> source ps
source (var whole name ∷ ps) = whole <> source ps
