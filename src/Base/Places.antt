-- ===== src/Base/Places.antt =====
-- Lists with an entry in another place, and predicates on their entries.
use Prim.Native.Nat.{ℕ, zero, suc}
use mathlib.Core.Path.{◌≡◌, refl, ap, subst}
use mathlib.Core.List.{List, [], ◌∷◌}
use mathlib.Core.Option.{Option, some}
use mumdota.Base.Lists.{length, get_elem?, set_elem, remove_elem, All}

pub length-set_elem {ℓ} :
    {A : Type ℓ} (xs : List A) (i : ℕ) (x : A) → length (set_elem xs i x) ≡ length xs
unfolding set_elem
length-set_elem [] i x = refl
length-set_elem (y ∷ xs) zero x = refl
length-set_elem (y ∷ xs) (suc i) x = ap suc (length-set_elem xs i x)

pub length-remove_elem {ℓ} :
    {A : Type ℓ} (xs : List A) (i : ℕ) {x : A}
    → get_elem? xs i ≡ some x
    → suc (length (remove_elem xs i)) ≡ length xs
unfolding remove_elem
length-remove_elem [] i e = cc
length-remove_elem (y ∷ xs) zero e = refl
length-remove_elem (y ∷ xs) (suc i) e = ap suc (length-remove_elem xs i e)

pub same-some {ℓ} : {A : Type ℓ} {a b : A} → ◌≡◌ {A = Option A} (some a) (some b) → a ≡ b
same-some h = cc

pub All-set_elem {ℓ κ} :
    {A : Type ℓ} (P : A → Type κ) (xs : List A) (i : ℕ) (x : A)
    → P x
    → All P xs
    → All P (set_elem xs i x)
unfolding set_elem
All-set_elem P [] i x px h = tt
All-set_elem P (y ∷ xs) zero x px (py, h) = (px, h)
All-set_elem P (y ∷ xs) (suc i) x px (py, h) = (py, All-set_elem P xs i x px h)

pub remove_elem-All {ℓ κ} :
    {A : Type ℓ} (P : A → Type κ) (xs : List A) (i : ℕ) → All P xs → All P (remove_elem xs i)
unfolding remove_elem
remove_elem-All P [] i h = tt
remove_elem-All P (x ∷ xs) zero (px, h) = h
remove_elem-All P (x ∷ xs) (suc i) (px, h) = (px, remove_elem-All P xs i h)

pub All-get {ℓ κ} :
    {A : Type ℓ} (P : A → Type κ) (xs : List A) (i : ℕ) {x : A}
    → All P xs
    → get_elem? xs i ≡ some x
    → P x
All-get P [] i h e = cc
All-get P (y ∷ xs) zero (py, h) e = subst P (same-some e) py
All-get P (y ∷ xs) (suc i) (py, h) e = All-get P xs i h e

pub All-map {ℓ κ μ} :
    {A : Type ℓ} {P : A → Type κ} {Q : A → Type μ} (xs : List A)
    → ((a : A) → P a → Q a)
    → All P xs
    → All Q xs
All-map [] f h = tt
All-map (x ∷ xs) f (px, h) = (f x px, All-map xs f h)
