-- ===== src/Env/Load.antt =====
-- `Config::load` of src/config.rs, from the text of the file on. What the `toml` crate makes of a text,
-- and of a table, are parameters.
use mumdota.Base.{
  ◌≡◌, ap, ◌∙◌, Option, none, some, Result, ok, err, ok_or, ◌>>=◌, ◌>>◌, subst, and_then-ok,
  ok-injective,
}
use mumdota.Config.{Config, ConfigError, validate}
use mumdota.Env.{Text, Environment, ExpandError, expand_env_vars}
use mumdota.Env.Grammar.{Expansion}
use mumdota.Env.Placeholders.{expand_env_vars-Expansion}
use mumdota.Env.Overrides.{Table, apply_env_overrides}

-- How loading fails. The first is no error of the code: an override that meets a section that is no
-- table panics.
pub data LoadError (E : Type 0) : Type 0 where
  panicked : LoadError E
  not_expanded : ExpandError → LoadError E
  not_parsed not_deserialized : E → LoadError E
  not_valid : ConfigError → LoadError E

-- `context`
abbrev context {ℓ} : {E F : Type 0} {A : Type ℓ} → (E → F) → Result E A → Result F A
context because (err e) = err (because e)
context because (ok a) = ok a

context-ok {ℓ} :
    {E F : Type 0} {A : Type ℓ} (because : E → F) (r : Result E A) {a : A}
    → context because r ≡ ok a
    → r ≡ ok a
context-ok because (err e) h = cc
context-ok because (ok a) h = cc

ok_or-ok {ℓ κ} :
    {E : Type ℓ} {A : Type κ} (o : Option A) (e : E) {a : A} → ok_or o e ≡ ok a → o ≡ some a
ok_or-ok none e h = cc
ok_or-ok (some a) e h = cc

module _ {Other E : Type 0} (from_str : Text → Result E (Table Other))
    (try_into : Table Other → Result E Config) where
  unfoldable pub load : Environment → Text → Result (LoadError E) Config
  load env raw = do
    expanded ← context not_expanded (expand_env_vars env raw)
    table ← context not_parsed (from_str expanded)
    after ← ok_or (apply_env_overrides env table) panicked
    config ← context not_deserialized (try_into after)
    context not_valid (validate config)
    ok config

  -- A configuration is loaded only if the text expands by the grammar of its placeholders, what it
  -- expands to parses, the overrides apply, and the configuration that comes out is valid.
  pub load-loaded :
      (env : Environment) (raw : Text) (config : Config)
      → load env raw ≡ ok config
      → (expanded : Text) × (table : Table Other) × (after : Table Other) × Expansion env raw
          (ok expanded)
        × (from_str expanded ≡ ok table)
        × (apply_env_overrides env table ≡ some after)
        × (try_into after ≡ ok config)
        × (validate config ≡ ok tt)
  unfolding load
  load-loaded env raw config h =
      let (expanded, e1, h1) = and_then-ok _ _ h in
      let (table, e2, h2) = and_then-ok _ _ h1 in
      let (after, e3, h3) = and_then-ok _ _ h2 in
      let (read, e4, h4) = and_then-ok _ _ h3 in
      let (checked, e5, h5) = and_then-ok _ _ h4 in
      let same : read ≡ config = ok-injective h5 in
      (
        expanded,
        table,
        after,
        (expand_env_vars-Expansion env raw _).0 (context-ok not_expanded _ e1),
        context-ok not_parsed _ e2,
        ok_or-ok _ _ e3,
        context-ok not_deserialized _ e4 ∙ ap ok same,
        subst (λ c. validate c ≡ ok tt) same (context-ok not_valid _ e5),
      )
