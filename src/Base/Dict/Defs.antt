-- ===== src/Base/Dict/Defs.antt =====
-- The operations of a `HashMap` with text keys.
use Prim.Native.String.{String}
use mathlib.Core.Option.{Option, none, some}
use mathlib.Core.List.{List, [], ◌∷◌}
use text.Mathlib.Text.{◌==◌}
use otters.Base.Tests.{if◌then◌else◌}

abbrev pub Bindings {ℓ} : Type ℓ → Type ℓ
Bindings V = List (String × V)

module _ {ℓ} {V : Type ℓ} where
  unfoldable pub lookup : String → Bindings V → Option V
  lookup k [] = none
  lookup k ((j, v) ∷ more) = if j == k then some v else lookup k more

  unfoldable pub put : String → V → Bindings V → Bindings V
  put k v [] = (k, v) ∷ []
  put k v ((j, w) ∷ l) = if j == k then (j, v) ∷ l else (j, w) ∷ put k v l

  unfoldable pub without_key : String → Bindings V → Bindings V
  without_key k [] = []
  without_key k ((j, v) ∷ more) =
      let rest = without_key k more in if j == k then rest else (j, v) ∷ rest

  unfoldable pub update : String → (V → V) → Bindings V → Bindings V
  update k f [] = []
  update k f ((j, v) ∷ l) = if j == k then (j, f v) ∷ l else (j, v) ∷ update k f l

  unfoldable pub key_list : Bindings V → List String
  key_list [] = []
  key_list ((j, v) ∷ l) = j ∷ key_list l

  unfoldable pub value_list : Bindings V → List V
  value_list [] = []
  value_list ((j, v) ∷ l) = v ∷ value_list l

pub record Dict {ℓ} (V : Type ℓ) : Type ℓ where
  pub entries : Bindings V

module _ {ℓ} {V : Type ℓ} where
  unfoldable pub empty : Dict V
  empty = record { entries = [] }

  unfoldable pub get : Dict V → String → Option V
  unfolding lookup
  get d k = lookup k d.entries

  unfoldable pub insert : Dict V → String → V → Dict V
  unfolding put
  insert d k v = record { entries = put k v d.entries }

  unfoldable pub remove : Dict V → String → Dict V
  unfolding without_key
  remove d k = record { entries = without_key k d.entries }

  -- A write through `get_mut`: nothing happens where the key is missing.
  unfoldable pub modify : Dict V → String → (V → V) → Dict V
  unfolding update
  modify d k f = record { entries = update k f d.entries }

  unfoldable pub keys : Dict V → List String
  unfolding key_list
  keys d = key_list d.entries

  unfoldable pub values : Dict V → List V
  unfolding value_list
  values d = value_list d.entries

module _ {ℓ} {V : Type ℓ} where
  unfoldable pub map_assoc : (V → V) → Bindings V → Bindings V
  map_assoc f [] = []
  map_assoc f ((j, v) ∷ l) = (j, f v) ∷ map_assoc f l

  -- The values changed one by one.
  unfoldable pub map_values : (V → V) → Dict V → Dict V
  unfolding map_assoc
  map_values f d = record { entries = map_assoc f d.entries }
