-- ===== src/Base/Dict/Map.antt =====
-- How a change of every value passes through the operations.
use mathlib.Core.Path.{◌≡◌, refl, ap}
use Prim.Native.String.{String}
use mathlib.Core.List.{[], ◌∷◌}
use native.Mathlib.Omega.{arith}
use otters.Base.Dict.Defs.{
  Bindings, Dict, put, without_key, update, empty, insert, remove, modify, map_assoc, map_values,
}

module _ {ℓ} {V : Type ℓ} (f : V → V) where
  map_assoc-put :
      (k : String) (v : V) (l : Bindings V) → map_assoc f (put k v l) ≡ put k (f v) (map_assoc f l)
  unfolding map_assoc put
  map_assoc-put k v [] = refl
  map_assoc-put k v ((j, w) ∷ l) = ground (arith, map_assoc-put k v l)

  map_assoc-without_key :
      (k : String) (l : Bindings V) → map_assoc f (without_key k l) ≡ without_key k (map_assoc f l)
  unfolding map_assoc without_key
  map_assoc-without_key k [] = refl
  map_assoc-without_key k ((j, w) ∷ l) = ground (arith, map_assoc-without_key k l)

  map_assoc-update :
      (k : String) (g : V → V)
      → ((v : V) → f (g v) ≡ g (f v))
      → (l : Bindings V) → map_assoc f (update k g l) ≡ update k g (map_assoc f l)
  unfolding map_assoc update
  map_assoc-update k g h [] = refl
  map_assoc-update k g h ((j, w) ∷ l) = ground (arith, map_assoc-update k g h l, h w)

  pub map_values-empty : map_values f (empty {V = V}) ≡ empty
  unfolding map_values empty
  map_values-empty = refl

  pub map_values-insert :
      (d : Dict V) (k : String) (v : V)
      → map_values f (insert d k v) ≡ insert (map_values f d) k (f v)
  unfolding map_values insert
  map_values-insert d k v = ap (λ l. record { entries = l }) (map_assoc-put k v d.entries)

  pub map_values-remove :
      (d : Dict V) (k : String) → map_values f (remove d k) ≡ remove (map_values f d) k
  unfolding map_values remove
  map_values-remove d k = ap (λ l. record { entries = l }) (map_assoc-without_key k d.entries)

  pub map_values-modify :
      (d : Dict V) (k : String) (g : V → V)
      → ((v : V) → f (g v) ≡ g (f v))
      → map_values f (modify d k g) ≡ modify (map_values f d) k g
  unfolding map_values modify
  map_values-modify d k g h = ap (λ l. record { entries = l }) (map_assoc-update k g h d.entries)
