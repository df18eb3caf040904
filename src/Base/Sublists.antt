-- ===== src/Base/Sublists.antt =====
-- Sublists, the library's, and the last entry of a list.
use mathlib.Core.Path.{◌≡◌, refl, ap}
use mathlib.Core.List.{List, [], ◌∷◌, ◌++◌, map, Sublistᴰ}
use mathlib.Core.List.Sublistᴰ
use mathlib.Core.Option.{some}
use mathlib.Core.Logic.{◌⊎◌, inl, inr}
use mumdota.Base.Lists.{length, get_elem?}

module _ {ℓ} {A : Type ℓ} where
  pub append-Sublistᴰ : (xs ys : List A) → Sublistᴰ ys (xs ++ ys)
  append-Sublistᴰ [] ys = Sublistᴰ.refl ys
  append-Sublistᴰ (x ∷ xs) ys = Sublistᴰ.cons (append-Sublistᴰ xs ys)

  pub last_cases :
      (xs : List A) → (xs ≡ []) ⊎ ((front : List A) × (last : A) × (xs ≡ front ++ last ∷ []))
  last_cases [] = inl refl
  last_cases (x ∷ xs) = elim (last_cases xs) [
    | inl empty ↦ inr ([], x, ap (λ l. x ∷ l) empty)
    | inr (front, last, e) ↦ inr (x ∷ front, last, ap (λ l. x ∷ l) e)
  ]

  pub get_elem?-append :
      (front : List A) (x : A) (seen : List A)
      → get_elem? (front ++ x ∷ seen) (length front) ≡ some x
  get_elem?-append [] x seen = refl
  get_elem?-append (y ∷ front) x seen = get_elem?-append front x seen

module _ {ℓ κ} {A : Type ℓ} {B : Type κ} where
  pub map-Sublistᴰ : (f : A → B) {xs ys : List A} → Sublistᴰ xs ys → Sublistᴰ (map f xs) (map f ys)
  map-Sublistᴰ f Sublistᴰ.slnil = Sublistᴰ.slnil
  map-Sublistᴰ f (Sublistᴰ.cons h) = Sublistᴰ.cons (map-Sublistᴰ f h)
  map-Sublistᴰ f (Sublistᴰ.cons-cons e h) = Sublistᴰ.cons-cons (ap f e) (map-Sublistᴰ f h)
