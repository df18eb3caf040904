-- ===== src/Base/Maps.antt =====
-- A hash map as an association list. The order of the entries stands for the order in which the
-- map is iterated; `insert` replaces an entry in place.
use mathlib.Core.Path.{◌≡◌, refl}
use mathlib.Core.Bool.{Bool}
use mathlib.Core.List.{List, [], ◌∷◌}
use mathlib.Core.Option.{Option, none, some}
use native.Mathlib.Omega.{arith}
use mumdota.Base.Tests.{Eq, ◌==◌, if◌then◌else◌, is_some}

abbrev pub Map {ℓ κ} : Type ℓ → Type κ → Type (ℓ ⊔ κ)
Map K V = List (K × V)

module _ {ℓ κ} {K : Type ℓ} {V : Type κ} ⦃e : Eq K⦄ where
  unfoldable pub lookup : K → Map K V → Option V
  lookup key [] = none
  lookup key ((first, value) ∷ entries) = if first == key then some value else lookup key entries

  abbrev pub contains_key : K → Map K V → Bool
  contains_key key entries = is_some (lookup key entries)

  unfoldable pub remove : K → Map K V → Map K V
  remove key [] = []
  remove key ((first, value) ∷ entries) =
      let rest = remove key entries in if first == key then rest else (first, value) ∷ rest

  unfoldable pub insert : K → V → Map K V → Map K V
  insert key new [] = (key, new) ∷ []
  insert key new ((first, value) ∷ entries) =
      let rest = insert key new entries in
      if first == key then (first, new) ∷ entries else (first, value) ∷ rest

  pub lookup-remove :
      (key asked : K) (entries : Map K V)
      → lookup asked (remove key entries) ≡ (if key == asked then none else lookup asked entries)
  unfolding lookup remove
  lookup-remove key asked [] = ground arith
  lookup-remove key asked ((first, value) ∷ entries) = ground (
    arith,
    e.same_iff first key,
    e.same_iff key asked,
    e.same_iff first asked,
    lookup-remove key asked entries,
  )

  pub lookup-insert :
      (key asked : K) (new : V) (entries : Map K V)
      → lookup asked (insert key new entries)
        ≡ (if key == asked then some new else lookup asked entries)
  unfolding lookup insert
  lookup-insert key asked new [] = refl
  lookup-insert key asked new ((first, value) ∷ entries) = ground (
    arith,
    e.same_iff first key,
    e.same_iff key asked,
    e.same_iff first asked,
    lookup-insert key asked new entries,
  )

module _ {ℓ κ} {K : Type ℓ} {V : Type κ} where
  abbrev pub values : Map K V → List V
  values [] = []
  values ((_, v) ∷ m) = v ∷ values m

  abbrev pub keys : Map K V → List K
  keys [] = []
  keys ((k, _) ∷ m) = k ∷ keys m
