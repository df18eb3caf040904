-- ===== src/Base/Identified.antt =====
-- Maps whose entries carry their own key, and the list of values from which such a map is rebuilt.
use Prim.Native.Nat.{ℕ}
use mathlib.Core.Path.{◌≡◌, refl}
use mathlib.Core.List.{List, [], ◌∷◌}
use mathlib.Core.Option.{none}
use native.Mathlib.Omega.{arith}
use mumdota.Base.Tests.{nat_eq}
use mumdota.Base.Maps.{Map, lookup, insert, remove, values, lookup-insert, lookup-remove}

module _ {V : Type 0} (id_of : V → ℕ) where
  -- Each value stands under its own id, once.
  abbrev pub Keyed : Map ℕ V → Type 0
  Keyed [] = Unit {0}
  Keyed ((k, v) ∷ m) = (id_of v ≡ k) × (lookup k m ≡ none) × Keyed m

  pub insert-Keyed : (k : ℕ) (v : V) (m : Map ℕ V) → id_of v ≡ k → Keyed m → Keyed (insert k v m)
  unfolding insert lookup
  insert-Keyed k v [] e h = (e, refl, tt)
  insert-Keyed k v ((j, w) ∷ m) e h =
      ground (arith, insert-Keyed k v m e h.2, lookup-insert k j v m)

  pub remove-Keyed : (k : ℕ) (m : Map ℕ V) → Keyed m → Keyed (remove k m)
  unfolding remove
  remove-Keyed k [] h = tt
  remove-Keyed k ((j, w) ∷ m) h = ground (arith, remove-Keyed k m h.2, lookup-remove k j m)

  abbrev pub rebuild : List V → Map ℕ V
  rebuild [] = []
  rebuild (v ∷ vs) = insert (id_of v) v (rebuild vs)

  pub lookup-rebuild : (k : ℕ) (m : Map ℕ V) → Keyed m → lookup k (rebuild (values m)) ≡ lookup k m
  unfolding lookup
  lookup-rebuild k [] h = refl
  lookup-rebuild k ((j, v) ∷ m) h =
      ground (arith, lookup-rebuild k m h.2, lookup-insert (id_of v) k v (rebuild (values m)))
