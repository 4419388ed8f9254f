-- ===== src/Base/Dict/Entries.antt =====
-- Properties of every entry, with its key.
use Prim.Native.String.{String}
use mathlib.Core.Path.{◌≡◌, sym, subst, subst₂}
use mathlib.Core.Logic.{inl, inr}
use mathlib.Core.Option.{some, some-injective}
use mathlib.Core.List.{[], ◌∷◌}
use text.Mathlib.Text.{◌==◌}
use text.Mathlib.TextEquality.{eq_iff}
use otters.Base.Tests.{Bool-cases}
use otters.Base.Lists.{All}
use otters.Base.Dict.Defs.{
  Bindings, Dict, lookup, put, without_key, update, value_list, empty, get, insert, remove, modify,
  values,
}

module _ {V : Type 0} (P : String → V → Type 0) where
  abbrev AllAssoc : Bindings V → Type 0
  AllAssoc [] = Unit
  AllAssoc ((k, v) ∷ l) = P k v × AllAssoc l

  put-AllAssoc : (k : String) (v : V) (l : Bindings V) → AllAssoc l → P k v → AllAssoc (put k v l)
  unfolding put
  put-AllAssoc k v [] h p = (p, tt)
  put-AllAssoc k v ((j, w) ∷ l) h p = elim (Bool-cases (j == k)) [
    | inl y ↦ rw y (subst (λ i. P i v) (sym ((eq_iff j k).0 y)) p, h.1)
    | inr n ↦ rw n (h.0, put-AllAssoc k v l h.1 p)
  ]

  without_key-AllAssoc : (k : String) (l : Bindings V) → AllAssoc l → AllAssoc (without_key k l)
  unfolding without_key
  without_key-AllAssoc k [] h = tt
  without_key-AllAssoc k ((j, w) ∷ l) h = elim (Bool-cases (j == k)) [
    | inl y ↦ rw y (without_key-AllAssoc k l h.1)
    | inr n ↦ rw n (h.0, without_key-AllAssoc k l h.1)
  ]

  update-AllAssoc :
      (k : String) (f : V → V) (l : Bindings V)
      → AllAssoc l
      → ((j : String) (v : V) → P j v → P j (f v))
      → AllAssoc (update k f l)
  unfolding update
  update-AllAssoc k f [] h keep = tt
  update-AllAssoc k f ((j, w) ∷ l) h keep = elim (Bool-cases (j == k)) [
    | inl y ↦ rw y (keep j w h.0, h.1)
    | inr n ↦ rw n (h.0, update-AllAssoc k f l h.1 keep)
  ]

  lookup-AllAssoc : (k : String) (v : V) (l : Bindings V) → AllAssoc l → lookup k l ≡ some v → P k v
  unfolding lookup
  lookup-AllAssoc k v [] h e = cc
  lookup-AllAssoc k v ((j, w) ∷ l) h e = elim (Bool-cases (j == k)) [
    | inl y ↦ subst₂ P ((eq_iff j k).0 y) (some-injective w v (rw y at e)) h.0
    | inr n ↦ lookup-AllAssoc k v l h.1 (rw n at e)
  ]

  values-AllAssoc :
      (Q : V → Type 0)
      → ((k : String) (v : V) → P k v → Q v)
      → (l : Bindings V) → AllAssoc l
      → All Q (value_list l)
  unfolding value_list
  values-AllAssoc Q f [] h = tt
  values-AllAssoc Q f ((k, v) ∷ l) h = (f k v h.0, values-AllAssoc Q f l h.1)

  -- Every entry has `P`.
  pub record AllEntries (d : Dict V) : Type 0 where
    all : AllAssoc d.entries

  pub empty-AllEntries : AllEntries empty
  unfolding empty
  empty-AllEntries = record { all = tt }

  pub insert-AllEntries :
      (d : Dict V) (k : String) (v : V) → AllEntries d → P k v → AllEntries (insert d k v)
  unfolding insert
  insert-AllEntries d k v h p = record { all = put-AllAssoc k v d.entries h.all p }

  pub remove-AllEntries : (d : Dict V) (k : String) → AllEntries d → AllEntries (remove d k)
  unfolding remove
  remove-AllEntries d k h = record { all = without_key-AllAssoc k d.entries h.all }

  pub modify-AllEntries :
      (d : Dict V) (k : String) (f : V → V)
      → AllEntries d
      → ((j : String) (v : V) → P j v → P j (f v))
      → AllEntries (modify d k f)
  unfolding modify
  modify-AllEntries d k f h keep = record { all = update-AllAssoc k f d.entries h.all keep }

  pub get-AllEntries : (d : Dict V) (k : String) (v : V) → AllEntries d → get d k ≡ some v → P k v
  unfolding get
  get-AllEntries d k v h e = lookup-AllAssoc k v d.entries h.all e

  pub values-AllEntries :
      (Q : V → Type 0)
      → ((k : String) (v : V) → P k v → Q v)
      → (d : Dict V) → AllEntries d
      → All Q (values d)
  unfolding values
  values-AllEntries Q f d h = values-AllAssoc Q f d.entries h.all
