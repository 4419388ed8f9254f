-- ===== src/Base/Chars.antt =====
-- Rust's `trim`, `split`, `find` and `chars` on texts.
use Prim.Native.String.{String}
use Prim.Native.Char.{Char, code}
use Prim.Native.Nat.{ℕ}
use mathlib.Core.Bool.{Bool, ◌&&◌}
use mathlib.Core.Option.{Option, none, some}
use mathlib.Core.List.{List, [], ◌∷◌}
use text.Mathlib.Text.{◌==◌}
use otters.Base.Tests.{if◌then◌else◌, eqb}
use otters.Base.Text.{is_whitespace, is_some, strip_prefix, strip_suffix}

unfoldable pub trim_start : String → String
unfolding is_whitespace
trim_start String.[] = ""
trim_start (String.◌∷◌ c s) =
    let rest = trim_start s in if is_whitespace (code c) then rest else String.◌∷◌ c s

unfoldable pub trim_end : String → String
unfolding is_whitespace
trim_end String.[] = ""
trim_end (String.◌∷◌ c s) =
    let rest = trim_end s in if is_whitespace (code c) && rest == "" then "" else String.◌∷◌ c rest

-- `s.trim()`
unfoldable pub trim : String → String
unfolding trim_start trim_end
trim s = trim_end (trim_start s)

-- `s.starts_with(p)`
abbrev pub starts_with : String → String → Bool
starts_with s p = is_some (strip_prefix s p)

-- `s.ends_with(p)`
abbrev pub ends_with : String → String → Bool
ends_with s p = is_some (strip_suffix s p)

-- `s.trim_end_matches(p)`: what is left of the tail ends in no `p`, so that a `p` at the end of
-- `c` and that rest is all of it.
unfoldable pub trim_end_matches : String → String → String
trim_end_matches String.[] p = ""
trim_end_matches (String.◌∷◌ c s) p =
    let rest = trim_end_matches s p in if String.◌∷◌ c rest == p then "" else String.◌∷◌ c rest

push_front : Char → List String → List String
push_front c [] = String.◌∷◌ c "" ∷ []
push_front c (part ∷ parts) = String.◌∷◌ c part ∷ parts

-- `s.split(c).collect()`
unfoldable pub split : ℕ → String → List String
unfolding push_front
split sep String.[] = "" ∷ []
split sep (String.◌∷◌ c s) =
    let rest = split sep s in if eqb (code c) sep then "" ∷ rest else push_front c rest

longer_by : Char → Option String → Option String
longer_by c none = none
longer_by c (some s) = some (String.◌∷◌ c s)

-- `s.find(c).map(|i| &s[..i])`
unfoldable pub before : ℕ → String → Option String
unfolding longer_by
before stop String.[] = none
before stop (String.◌∷◌ c s) =
    let rest = before stop s in if eqb (code c) stop then some "" else longer_by c rest

-- `s.chars().nth(1)`
abbrev pub second_char : String → Option Char
second_char String.[] = none
second_char (String.◌∷◌ c String.[]) = none
second_char (String.◌∷◌ c (String.◌∷◌ d s)) = some d

-- `c.to_string()`
abbrev pub char_text : Char → String
char_text c = String.◌∷◌ c ""
