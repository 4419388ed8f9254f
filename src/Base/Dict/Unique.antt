-- ===== src/Base/Dict/Unique.antt =====
-- Maps that hold each key once.
use Prim.Native.String.{String}
use mathlib.Core.Path.{◌≡◌, refl}
use mathlib.Core.Logic.{inl, inr}
use mathlib.Core.Bool.{false}
use mathlib.Core.Option.{none}
use mathlib.Core.List.{[], ◌∷◌}
use text.Mathlib.Text.{◌==◌}
use text.Mathlib.TextEquality.{eq_iff}
use native.Mathlib.Omega.{arith}
use otters.Base.Tests.{Bool-cases}
use otters.Base.Dict.Defs.{Bindings, Dict, lookup, put, without_key, empty, insert, remove}
use otters.Base.Dict.Laws.{lookup-put, lookup-without_key}

swapped : (j k : String) → (j == k) ≡ false → (k == j) ≡ false
swapped j k n = ground (arith, eq_iff j k, eq_iff k j)

module _ {V : Type 0} where
  -- No key stands twice.
  abbrev pub Distinct : Bindings V → Type 0
  Distinct [] = Unit
  Distinct ((k, v) ∷ l) = (lookup k l ≡ none) × Distinct l

  put-Distinct : (k : String) (v : V) (l : Bindings V) → Distinct l → Distinct (put k v l)
  unfolding put
  put-Distinct k v [] h = (unfold lookup in refl, tt)
  put-Distinct k v ((j, w) ∷ l) h = elim (Bool-cases (j == k)) [
    | inl y ↦ rw y h
    | inr n ↦ rw n (rw (lookup-put k j v l) (rw (swapped j k n) h.0), put-Distinct k v l h.1)
  ]

  without_key-Distinct : (k : String) (l : Bindings V) → Distinct l → Distinct (without_key k l)
  unfolding without_key
  without_key-Distinct k [] h = tt
  without_key-Distinct k ((j, w) ∷ l) h = elim (Bool-cases (j == k)) [
    | inl y ↦ rw y (without_key-Distinct k l h.1)
    | inr n ↦
        rw n (rw (lookup-without_key k j l) (rw (swapped j k n) h.0), without_key-Distinct k l h.1)
  ]

  pub record IsDistinct (d : Dict V) : Type 0 where
    pub distinct : Distinct d.entries

  pub empty-IsDistinct : IsDistinct empty
  unfolding empty
  empty-IsDistinct = record { distinct = tt }

  pub insert-IsDistinct :
      (d : Dict V) (k : String) (v : V) → IsDistinct d → IsDistinct (insert d k v)
  unfolding insert
  insert-IsDistinct d k v h = record { distinct = put-Distinct k v d.entries h.distinct }

  pub remove-IsDistinct : (d : Dict V) (k : String) → IsDistinct d → IsDistinct (remove d k)
  unfolding remove
  remove-IsDistinct d k h = record { distinct = without_key-Distinct k d.entries h.distinct }
