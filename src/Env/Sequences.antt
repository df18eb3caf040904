-- ===== src/Env/Sequences.antt =====
-- Texts with placeholders one behind another, expanded by `expand_env_vars` of src/config.rs.
use mathlib.Core.Bool.{and-false}
use mumdota.Base.{
  ℕ, ◌≡◌, ◌≢◌, refl, sym, ap, ◌∙◌, subst, false, [], ◌∷◌, ◌++◌, append_assoc, none, ok-injective,
  All, ◌==◌, nat_eq, Result, ok, err,
}
use mumdota.Env.{Text, Environment, ExpandError, unset, starts_with, opens, expand_env_vars}
use mumdota.Env.Grammar.{
  IsOpen, Unmarked, name_only, missing, put, Expansion, finished, plain, never_closed, replaced,
  refused,
}
use mumdota.Env.Placeholders.{put-nil, put-append, expand_env_vars-Expansion}

module _ (env : Environment) where
  put-ok :
      (before : Text) (r : Result ExpandError Text) {out : Text}
      → put before r ≡ ok out
      → (after : Text) × (r ≡ ok after) × (out ≡ before ++ after)
  put-ok before (ok after) h = (after, refl, sym (ok-injective h))
  put-ok before (err e) h = cc

  opens-append :
      (c : ℕ) (rest b : Text)
      → starts_with b'{' b ≡ false
      → opens c rest ≡ false
      → opens c (rest ++ b) ≡ false
  opens-append c [] b hb h = rw hb (and-false (c == b'$'))
  opens-append c (d ∷ rest) b hb h = h

  append-Expansion :
      {a b : Text} {r s : Result ExpandError Text} {out : Text}
      → starts_with b'{' b ≡ false
      → Expansion env a r
      → r ≡ ok out
      → Expansion env b s
      → Expansion env (a ++ b) (put out s)
  append-Expansion {b = b} {s = s} hb finished e x =
      subst (Expansion env b) (sym (put-nil env s) ∙ ap (λ o. put o s) (ok-injective e)) x
  append-Expansion {b = b} {s = s} hb (plain c {rest = rest} {r = r} other later) e x =
      let (after, same, cut) = put-ok (c ∷ []) r e in
      subst (Expansion env (c ∷ (rest ++ b)))
        (sym (put-append env (c ∷ []) after s) ∙ ap (λ o. put o s) (sym cut))
        (plain c (opens-append c rest b hb other) (append-Expansion hb later same x))
  append-Expansion hb (never_closed inside) e x = cc
  append-Expansion {b = b} {s = s} {out = out} hb
        (replaced inner {val = val} {rest = rest} {r = r} inside stands later) e x =
      let (after, same, cut) = put-ok val r e in
      subst (λ l. Expansion env l (put out s))
        (sym (append_assoc (b'$' ∷ b'{' ∷ inner) (b'}' ∷ rest) b))
        (subst (Expansion env (b'$' ∷ b'{' ∷ inner ++ b'}' ∷ (rest ++ b)))
          (sym (put-append env val after s) ∙ ap (λ o. put o s) (sym cut))
          (replaced inner inside stands (append-Expansion hb later same x)))
  append-Expansion hb (refused inner rest inside stands) e x = cc

  -- Text is expanded from left to right: behind a text that expands, another text expands as it does
  -- alone, its error included, unless it starts with the brace that would complete a `${`.
  pub expand_env_vars-append :
      (a b out : Text)
      → expand_env_vars env a ≡ ok out
      → starts_with b'{' b ≡ false
      → expand_env_vars env (a ++ b) ≡ put out (expand_env_vars env b)
  expand_env_vars-append a b out e hb = (expand_env_vars-Expansion env (a ++ b) _).1 (
      append-Expansion hb ((expand_env_vars-Expansion env a _).0 e) refl
        ((expand_env_vars-Expansion env b _).0 refl))

  -- Behind a text that expands, a placeholder without a default whose variable is not set is the
  -- error that names the variable, whatever follows.
  pub expand_env_vars-unset :
      (a name rest out : Text)
      → expand_env_vars env a ≡ ok out
      → name ≢ []
      → All IsOpen name
      → Unmarked name
      → env name ≡ none
      → expand_env_vars env (a ++ (b'$' ∷ b'{' ∷ name ++ b'}' ∷ rest)) ≡ err (unset name)
  expand_env_vars-unset a name rest out e named inside unmarked absent =
      expand_env_vars-append a (b'$' ∷ b'{' ∷ name ++ b'}' ∷ rest) out e refl
      ∙ ap (put out) (
          (expand_env_vars-Expansion env (b'$' ∷ b'{' ∷ name ++ b'}' ∷ rest) (err (unset name))).1
            (refused name rest inside (missing (name_only unmarked) named absent)))
