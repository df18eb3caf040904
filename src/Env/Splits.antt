-- ===== src/Env/Splits.antt =====
-- The split of a placeholder into its name and its default, and what stands for it, of
-- `expand_env_vars` in src/config.rs.
use mathlib.Core.Bool.{false≢true}
use mumdota.Base.{
  ℕ, ◌≡◌, ◌≢◌, inl, inr, refl, sym, ap, ◌∙◌, subst, true, false, ◌&&◌, [], ◌∷◌, ◌++◌, Option, none,
  some, Bool-cases, ◌==◌, nat_eq, nat_beq_iff, Result, drop,
}
use mumdota.Env.{
  Text, Environment, ExpandError, starts_with, prepend, split_default, resolve, value_or,
}
use mumdota.Env.Grammar.{
  Unmarked, Parts, name_only, with_default, Stands, nameless, set, defaulted, missing,
}

pub starts_with-drop :
    (c : ℕ) (inner : Text) → starts_with c inner ≡ true → inner ≡ c ∷ drop 1 inner
starts_with-drop c [] h = cc
starts_with-drop c (d ∷ inner) h = ap (λ e. e ∷ inner) ((nat_beq_iff d c).0 h)

marked :
    (c : ℕ) (inner : Text)
    → (c == b':' && starts_with b'-' inner) ≡ true
    → c ∷ inner ≡ b':' ∷ b'-' ∷ drop 1 inner
marked c inner h = elim (Bool-cases (c == b':')) [
  | inl colon ↦
      ap (λ d. d ∷ inner) ((nat_beq_iff c b':').0 colon)
      ∙ ap (λ l. b':' ∷ l)
          (starts_with-drop b'-' inner (subst (λ t. (t && starts_with b'-' inner) ≡ true) colon h))
  | inr other ↦ absurd (false≢true (subst (λ t. (t && starts_with b'-' inner) ≡ true) other h))
]

-- A colon that the mark starts with does not end a mark.
starts_with-mark :
    (name def : Text) → starts_with b'-' (name ++ b':' ∷ b'-' ∷ def) ≡ starts_with b'-' name
starts_with-mark [] def = refl
starts_with-mark (c ∷ name) def = refl

prepend-Parts :
    (c : ℕ) (inner : Text) (q : Text × Option Text)
    → (c == b':' && starts_with b'-' inner) ≡ false
    → Parts inner q
    → Parts (c ∷ inner) (prepend c q)
prepend-Parts c inner q apart (name_only unmarked) = name_only (apart, unmarked)
prepend-Parts c inner q apart (with_default {name = name} def unmarked) =
    with_default def
      (subst (λ t. (c == b':' && t) ≡ false) (starts_with-mark name def) apart, unmarked)

pub split_default-Parts : (inner : Text) → Parts inner (split_default inner)
unfolding split_default
split_default-Parts [] = name_only tt
split_default-Parts (c ∷ inner) = elim (Bool-cases (c == b':' && starts_with b'-' inner)) [
  | inl mark ↦ rw mark (
      subst (λ l. Parts l ([], some (drop 1 inner))) (sym (marked c inner mark))
        (with_default {name = []} (drop 1 inner) tt))
  | inr apart ↦ rw apart (prepend-Parts c inner _ apart (split_default-Parts inner))
]

split_default-Unmarked : (name : Text) → Unmarked name → split_default name ≡ (name, none)
unfolding split_default
split_default-Unmarked [] h = refl
split_default-Unmarked (c ∷ name) (apart, h) = rw (apart, split_default-Unmarked name h) refl

split_default-marked :
    (name def : Text) → Unmarked name → split_default (name ++ b':' ∷ b'-' ∷ def) ≡ (name, some def)
unfolding split_default
split_default-marked [] def h = refl
split_default-marked (c ∷ name) def (apart, h) =
    rw (starts_with-mark name def, apart, split_default-marked name def h) refl

split_default_unique :
    {inner : Text} {q : Text × Option Text} → Parts inner q → split_default inner ≡ q
split_default_unique (name_only {name = name} unmarked) = split_default-Unmarked name unmarked
split_default_unique (with_default {name = name} def unmarked) =
    split_default-marked name def unmarked

value_or-Stands :
    (env : Environment) (inner name : Text) (value default_val : Option Text)
    → name ≢ []
    → env name ≡ value
    → Parts inner (name, default_val)
    → Stands env inner (value_or name value default_val)
value_or-Stands env inner name (some val) default_val named e parts =
    set name default_val parts named e
value_or-Stands env inner name none (some def) named e parts = defaulted name parts named e
value_or-Stands env inner name none none named e parts = missing parts named e

pub resolve-Stands :
    (env : Environment) (inner : Text) → Stands env inner (resolve env (split_default inner))
unfolding resolve
resolve-Stands env inner = of_parts (split_default inner) (split_default-Parts inner)
  where
    of_parts : (q : Text × Option Text) → Parts inner q → Stands env inner (resolve env q)
    of_parts ([], default_val) parts = nameless default_val parts
    of_parts (c ∷ name, default_val) parts =
        value_or-Stands env inner (c ∷ name) _ default_val (λ e. cc) refl parts

resolve-named :
    (env : Environment) (name : Text) {inner : Text} {value default_val : Option Text}
    → name ≢ []
    → env name ≡ value
    → Parts inner (name, default_val)
    → resolve env (split_default inner) ≡ value_or name value default_val
unfolding resolve
resolve-named env [] named e parts = absurd (named refl)
resolve-named env (c ∷ name) {default_val = default_val} named e parts =
    ap (resolve env) (split_default_unique parts) ∙ ap (λ o. value_or (c ∷ name) o default_val) e

pub resolve_unique :
    (env : Environment) {inner : Text} {r : Result ExpandError Text}
    → Stands env inner r
    → resolve env (split_default inner) ≡ r
unfolding resolve
resolve_unique env (nameless default_val parts) = rw (split_default_unique parts) refl
resolve_unique env (set name default_val parts named found) =
    resolve-named env name named found parts
resolve_unique env (defaulted name parts named absent) = resolve-named env name named absent parts
resolve_unique env (missing {name = name} parts named absent) =
    resolve-named env name named absent parts
