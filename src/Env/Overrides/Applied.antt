-- ===== src/Env/Overrides/Applied.antt =====
-- What the overrides of `apply_env_overrides` in src/config.rs leave in the table.
use mumdota.Base.{
  same-some, ◌≡◌, refl, sym, ap, ◌∙◌, subst, Bool, true, false, ◌&&◌, String, string_eq, List, [],
  ◌∷◌, Option, none, some, ◌==◌, Bool-cases, Option-cases, if◌then◌else◌, if_cases, lookup, insert,
  lookup-insert, inl, inr, beq_self,
}
use mumdota.Env.{Environment}
use mumdota.Env.Overrides.{
  Setting, Section, table, no_table, Table, Override, put_setting, setting_of, in_section, store,
  put_if_set, apply_override, apply_all,
}

abbrev pub is_for : String → String → Override → Bool
is_for section key o = o.section == section && o.key == key

none-is-some {ℓ κ} : {A : Type ℓ} {b : A} {P : Type κ} → ◌≡◌ {A = Option A} none (some b) → P
none-is-some h = cc

module _ {Other : Type 0} where
  abbrev entry : String → Option (Section Other) → Option (Setting Other)
  entry key none = none
  entry key (some (table entries)) = lookup key entries
  entry key (some (no_table other)) = none

  -- The setting that a table has for a key of a section.
  abbrev pub setting : String → String → Table Other → Option (Setting Other)
  setting section key t = entry key (lookup section t)

  abbrev pub or_else : Option (Setting Other) → Option (Setting Other) → Option (Setting Other)
  or_else none old = old
  or_else (some new) old = some new

  -- What the last override of a key that the environment gives a value says.
  unfoldable pub overridden : Environment → List Override → String → String → Option (Setting Other)
  overridden env [] section key = none
  overridden env (o ∷ rest) section key =
      or_else (overridden env rest section key)
        (if is_for section key o then setting_of env o else none)

  in_section-entry :
      (key asked : String) (value : Setting Other) (found : Option (Section Other))
      {new : Section Other}
      → in_section key value found ≡ some new
      → entry asked (some new) ≡ (if key == asked then some value else entry asked found)
  unfolding lookup
  in_section-entry key asked value none h = rw (sym (same-some h)) refl
  in_section-entry key asked value (some (table entries)) h =
      ap (λ s. entry asked (some s)) (sym (same-some h)) ∙ lookup-insert key asked value entries
  in_section-entry key asked value (some (no_table other)) h = cc

  insert-setting :
      (section key : String) (value : Setting Other) (new : Section Other) (t : Table Other)
      (asked_section asked : String)
      → entry asked (some new) ≡ (if key == asked then some value else setting section asked t)
      → setting asked_section asked (insert section new t) ≡ (
          if section == asked_section && key == asked
          then some value
          else setting asked_section asked t)
  insert-setting section key value new t asked_section asked h =
      ap (entry asked) (lookup-insert section asked_section new t)
      ∙ elim (Bool-cases (section == asked_section)) [
        | inl same ↦
            subst
              (λ n.
                ◌≡◌ {A = Option (Setting Other)}
                  (entry asked (if section == n then some new else lookup n t))
                  (if section == n && key == asked then some value else setting n asked t))
              ((string_eq.same_iff section asked_section).0 same) (rw (beq_self section) h)
        | inr other ↦ rw other refl
      ]

  put_setting-setting :
      (section key : String) (value : Setting Other) (t after : Table Other)
      (asked_section asked : String)
      → put_setting section key value t ≡ some after
      → setting asked_section asked after ≡ (
          if section == asked_section && key == asked
          then some value
          else setting asked_section asked t)
  unfolding put_setting
  put_setting-setting section key value t after asked_section asked h =
      elim (Option-cases (in_section key value (lookup section t))) [
        | inl panics ↦ none-is-some (ap (store section t) (sym panics) ∙ h)
        | inr (new, e) ↦
            ap (setting asked_section asked) (sym (same-some (ap (store section t) (sym e) ∙ h)))
            ∙ insert-setting section key value new t asked_section asked
                (in_section-entry key asked value (lookup section t) e)
      ]

  if_or_else :
      (mine : Bool) (value : Setting Other) (old : Option (Setting Other))
      → (if mine then some value else old) ≡ or_else (if mine then some value else none) old
  if_or_else true value old = refl
  if_or_else false value old = refl

  or_else_assoc :
      (a b c : Option (Setting Other)) → or_else a (or_else b c) ≡ or_else (or_else a b) c
  or_else_assoc none b c = refl
  or_else_assoc (some a) b c = refl

  put_if_set-setting :
      (o : Override) (value : Option (Setting Other)) (t after : Table Other) (section key : String)
      → put_if_set o t value ≡ some after
      → setting section key after
        ≡ or_else (if is_for section key o then value else none) (setting section key t)
  unfolding put_if_set
  put_if_set-setting o none t after section key h =
      ap (setting section key) (sym (same-some h))
      ∙ if_cases (λ x. setting section key t ≡ or_else x (setting section key t))
          (is_for section key o) none none refl refl
  put_if_set-setting o (some value) t after section key h =
      put_setting-setting o.section o.key value t after section key h
      ∙ if_or_else (is_for section key o) value (setting section key t)

  abbrev then_all : Environment → List Override → Option (Table Other) → Option (Table Other)
  then_all env rest applied = elim applied [
    | none ↦ none
    | some changed ↦ apply_all env rest changed
  ]

  pub apply_all-setting :
      (env : Environment) (os : List Override) (t after : Table Other) (section key : String)
      → apply_all env os t ≡ some after
      → setting section key after ≡ or_else (overridden env os section key) (setting section key t)
  unfolding apply_all overridden apply_override
  apply_all-setting env [] t after section key h = ap (setting section key) (sym (same-some h))
  apply_all-setting env (o ∷ rest) t after section key h =
      elim (Option-cases (apply_override env o t)) [
        | inl panics ↦ none-is-some (ap (λ x. then_all env rest x) (sym panics) ∙ h)
        | inr (changed, e) ↦
            apply_all-setting env rest changed after section key
              (ap (λ x. then_all env rest x) (sym e) ∙ h)
            ∙ ap (or_else (overridden env rest section key))
                (put_if_set-setting o (setting_of env o) t changed section key e)
            ∙ or_else_assoc (overridden env rest section key) _ _
      ]

  -- A section that is absent or a table.
  abbrev pub IsTable : Option (Section Other) → Type 0
  IsTable none = Unit
  IsTable (some (table entries)) = Unit
  IsTable (some (no_table other)) = ⊥
