-- ===== src/Env/Grammar.antt =====
-- What a configuration file with placeholders means, as a grammar, next to `expand_env_vars` of
-- src/config.rs.
use mumdota.Base.{
  ℕ, ◌≡◌, ◌≢◌, ◌⊎◌, inl, inr, refl, ap, ◌∙◌, false, ◌&&◌, [], ◌∷◌, ◌++◌, append_assoc, append-nil,
  Option, none, some, All, Bool-cases, ◌==◌, nat_eq, nat_beq_iff, Result, ok, err,
}
use mumdota.Env.{
  Text, Environment, ExpandError, unclosed, empty_name, unset, starts_with, opens, take_inner,
}

abbrev pub IsOpen : ℕ → Type 0
IsOpen c = (c == b'}') ≡ false

-- No `:-` in a text.
abbrev pub Unmarked : Text → Type 0
Unmarked [] = Unit
Unmarked (c ∷ rest) = ((c == b':' && starts_with b'-' rest) ≡ false) × Unmarked rest

-- A placeholder's inside: a name, or a name and a default after the first `:-`.
pub data Parts : Text → Text × Option Text → Type 0 where
  name_only : {name : Text} → Unmarked name → Parts name (name, none)
  with_default :
      {name : Text} (def : Text)
      → Unmarked name
      → Parts (name ++ b':' ∷ b'-' ∷ def) (name, some def)

pub data Stands (env : Environment) (inner : Text) : Result ExpandError Text → Type 0 where
  nameless :
      (default_val : Option Text)
      → Parts inner ([], default_val)
      → Stands env inner (err empty_name)
  set :
      (name : Text) (default_val : Option Text) {val : Text}
      → Parts inner (name, default_val)
      → name ≢ []
      → env name ≡ some val
      → Stands env inner (ok val)
  defaulted :
      (name : Text) {def : Text}
      → Parts inner (name, some def)
      → name ≢ []
      → env name ≡ none
      → Stands env inner (ok def)
  missing :
      {name : Text}
      → Parts inner (name, none)
      → name ≢ []
      → env name ≡ none
      → Stands env inner (err (unset name))

abbrev pub put : Text → Result ExpandError Text → Result ExpandError Text
put before (ok after) = ok (before ++ after)
put before (err e) = err e

-- What a text expands to, or the error of its first bad placeholder.
pub data Expansion (env : Environment) : Text → Result ExpandError Text → Type 0 where
  finished : Expansion env [] (ok [])
  plain :
      (c : ℕ) {rest : Text} {r : Result ExpandError Text}
      → opens c rest ≡ false
      → Expansion env rest r
      → Expansion env (c ∷ rest) (put (c ∷ []) r)
  never_closed :
      {inner : Text} → All IsOpen inner → Expansion env (b'$' ∷ b'{' ∷ inner) (err unclosed)
  replaced :
      (inner : Text) {val rest : Text} {r : Result ExpandError Text}
      → All IsOpen inner
      → Stands env inner (ok val)
      → Expansion env rest r
      → Expansion env (b'$' ∷ b'{' ∷ inner ++ b'}' ∷ rest) (put val r)
  refused :
      (inner rest : Text) {e : ExpandError}
      → All IsOpen inner
      → Stands env inner (err e)
      → Expansion env (b'$' ∷ b'{' ∷ inner ++ b'}' ∷ rest) (err e)

pub take_inner_cases :
    (chars : Text)
    → All IsOpen chars
      ⊎ ((inner : Text) × (rest : Text) × All IsOpen inner × (chars ≡ inner ++ b'}' ∷ rest))
take_inner_cases [] = inl tt
take_inner_cases (c ∷ chars) = elim (Bool-cases (c == b'}')) [
  | inl closes ↦ inr ([], chars, tt, ap (λ d. d ∷ chars) ((nat_beq_iff c b'}').0 closes))
  | inr inside ↦ elim (take_inner_cases chars) [
    | inl none_closes ↦ inl (inside, none_closes)
    | inr (inner, rest, all_open, e) ↦ inr (c ∷ inner, rest, (inside, all_open), ap (λ l. c ∷ l) e)
  ]
]

pub take_inner-closed :
    (acc inner rest : Text)
    → All IsOpen inner
    → take_inner acc (inner ++ b'}' ∷ rest) ≡ some (acc ++ inner, rest)
unfolding take_inner
take_inner-closed acc [] rest inside = rw (append-nil acc) refl
take_inner-closed acc (c ∷ inner) rest (inside, later) =
    rw inside (
      take_inner-closed (acc ++ c ∷ []) inner rest later
      ∙ rw (append_assoc acc (c ∷ []) inner) refl)

pub take_inner-open : (acc inner : Text) → All IsOpen inner → take_inner acc inner ≡ none
unfolding take_inner
take_inner-open acc [] inside = refl
take_inner-open acc (c ∷ inner) (inside, later) =
    rw inside (take_inner-open (acc ++ c ∷ []) inner later)
