-- ===== src/Env.antt =====
-- The placeholders of a configuration file and the environment, `expand_env_vars` of src/config.rs.
-- A text is the list of the codes of its characters. The environment is a parameter: the value of a
-- variable, where it is set and is Unicode.
pub mod Grammar
mod Splits
pub mod Placeholders
pub mod Sequences
pub mod Overrides
pub mod Load
mod Tests
use Prim.Native.Char.{code}
use mumdota.Base.{
  String, ℕ, zero, suc, Bool, true, false, ◌&&◌, List, [], ◌∷◌, ◌++◌, Option, none, some, length,
  drop, ◌==◌, nat_eq, if◌then◌else◌, Result, ok, err,
}

abbrev pub Text : Type 0
Text = List ℕ

abbrev pub Environment : Type 0
Environment = Text → Option Text

-- A literal.
abbrev pub text : String → Text
text String.[] = []
text (String.◌∷◌ c s) = code c ∷ text s

-- The errors, and the end of the fuel of the model, which is never reached.
pub data ExpandError : Type 0 where
  unclosed empty_name out_of_fuel : ExpandError
  unset : Text → ExpandError

abbrev pub starts_with : ℕ → Text → Bool
starts_with c [] = false
starts_with c (d ∷ chars) = d == c

-- Whether a placeholder opens here: `${`.
abbrev pub opens : ℕ → Text → Bool
opens ch chars = ch == b'$' && starts_with b'{' chars

-- The characters up to the next `}` and those after it.
unfoldable pub take_inner : Text → Text → Option (Text × Text)
take_inner inner [] = none
take_inner inner (c ∷ chars) =
    if c == b'}' then some (inner, chars) else take_inner (inner ++ c ∷ []) chars

abbrev pub prepend : ℕ → Text × Option Text → Text × Option Text
prepend c (name, default_val) = (c ∷ name, default_val)

-- The split at the first `:-`.
unfoldable pub split_default : Text → Text × Option Text
split_default [] = ([], none)
split_default (c ∷ inner) =
    if c == b':' && starts_with b'-' inner
    then ([], some (drop 1 inner))
    else prepend c (split_default inner)

-- The value of a variable, or the default.
abbrev pub value_or : Text → Option Text → Option Text → Result ExpandError Text
value_or name (some val) default_val = ok val
value_or name none (some def) = ok def
value_or name none none = err (unset name)

-- What stands for a placeholder.
unfoldable pub resolve : Environment → Text × Option Text → Result ExpandError Text
resolve env ([], default_val) = err empty_name
resolve env (c ∷ name, default_val) = value_or (c ∷ name) (env (c ∷ name)) default_val

unfoldable pub expand_loop : Environment → ℕ → Text → Text → Result ExpandError Text
unfolding take_inner split_default resolve
expand_loop env fuel output [] = ok output
expand_loop env zero output (ch ∷ chars) = err out_of_fuel
expand_loop env (suc fuel) output (ch ∷ chars) = elim (opens ch chars) [
  | false ↦ expand_loop env fuel (output ++ ch ∷ []) chars
  | true ↦ elim (take_inner [] (drop 1 chars)) [
    | none ↦ err unclosed
    | some closed ↦ elim (resolve env (split_default closed.0)) [
      | err e ↦ err e
      | ok val ↦ expand_loop env fuel (output ++ val) closed.1
    ]
  ]
]

unfoldable pub expand_env_vars : Environment → Text → Result ExpandError Text
unfolding expand_loop
expand_env_vars env input = expand_loop env (length input) [] input
