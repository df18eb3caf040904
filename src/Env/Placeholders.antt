-- ===== src/Env/Placeholders.antt =====
-- `expand_env_vars` of src/config.rs against the grammar of its placeholders.
use mathlib.Core.Bool.{false≢true}
use mumdota.Base.{
  ℕ, zero, suc, ◌≤◌, ◌≡◌, ◌≢◌, ◌↔◌, inl, inr, refl, sym, ap, ◌∙◌, subst, true, ◌&&◌, [], ◌∷◌, ◌++◌,
  append_assoc, append-nil, length, length-append, All, Bool-cases, ◌==◌, nat_eq, nat_beq_iff,
  Result, ok, err, arith, drop, Result-cases,
}
use mumdota.Env.{
  Text, Environment, ExpandError, unclosed, out_of_fuel, starts_with, opens, split_default, resolve,
  expand_loop, expand_env_vars,
}
use mumdota.Env.Grammar.{
  IsOpen, Stands, nameless, set, defaulted, missing, put, Expansion, finished, plain, never_closed,
  replaced, refused, take_inner_cases, take_inner-closed, take_inner-open,
}
use mumdota.Env.Splits.{starts_with-drop, resolve-Stands, resolve_unique}

opens-true : (c : ℕ) (chars : Text) → opens c chars ≡ true → c ∷ chars ≡ b'$' ∷ b'{' ∷ drop 1 chars
opens-true c chars h = elim (Bool-cases (c == b'$')) [
  | inl dollar ↦
      ap (λ d. d ∷ chars) ((nat_beq_iff c b'$').0 dollar)
      ∙ ap (λ l. b'$' ∷ l)
          (starts_with-drop b'{' chars (subst (λ t. (t && starts_with b'{' chars) ≡ true) dollar h))
  | inr other ↦ absurd (false≢true (subst (λ t. (t && starts_with b'{' chars) ≡ true) other h))
]

module _ (env : Environment) where
  -- A placeholder that is closed, whatever stands for it and after it.
  closed_total :
      (inner rest : Text)
      → All IsOpen inner
      → (s : Result ExpandError Text) × Expansion env rest s
      → (r : Result ExpandError Text) × Expansion env (b'$' ∷ b'{' ∷ inner ++ b'}' ∷ rest) r
  closed_total inner rest inside (s, later) =
      elim (Result-cases (resolve env (split_default inner))) [
        | inl (val, e) ↦ (
          put val s,
          replaced inner inside (subst (Stands env inner) e (resolve-Stands env inner)) later,
        )
        | inr (failure, e) ↦ (
          err failure,
          refused inner rest inside (subst (Stands env inner) e (resolve-Stands env inner)),
        )
      ]

  expand_total :
      (fuel : ℕ) (input : Text)
      → length input ≤ fuel
      → (r : Result ExpandError Text) × Expansion env input r
  expand_total fuel [] h = (ok [], finished)
  expand_total zero (c ∷ chars) h = absurd (omega (arith, h))
  expand_total (suc fuel) (c ∷ chars) h = elim (Bool-cases (opens c chars)) [
    | inr other ↦
        let later : (r : Result ExpandError Text) × Expansion env chars r =
          expand_total fuel chars (omega (arith, h)) in
        (put (c ∷ []) later.0, plain c other later.1)
    | inl dollar ↦
        let whole : c ∷ chars ≡ b'$' ∷ b'{' ∷ drop 1 chars = opens-true c chars dollar in
        elim (take_inner_cases (drop 1 chars)) [
          | inl inside ↦ (
            err unclosed,
            subst (λ l. Expansion env l (err unclosed)) (sym whole) (never_closed inside),
          )
          | inr (inner, rest, inside, cut) ↦
              let whole : c ∷ chars ≡ b'$' ∷ b'{' ∷ inner ++ b'}' ∷ rest =
                whole ∙ ap (λ l. b'$' ∷ b'{' ∷ l) cut in
              subst (λ l. (r : Result ExpandError Text) × Expansion env l r) (sym whole)
                (closed_total inner rest inside (
                  expand_total fuel rest
                    (omega (arith, h, ap length whole, length-append inner (b'}' ∷ rest)))))
        ]
  ]

  pub put-append : (a b : Text) (r : Result ExpandError Text) → put (a ++ b) r ≡ put a (put b r)
  put-append a b (ok after) = ap ok (append_assoc a b after)
  put-append a b (err e) = refl

  pub put-nil : (s : Result ExpandError Text) → put [] s ≡ s
  put-nil (ok after) = refl
  put-nil (err e) = refl

  expand_loop_complete :
      (fuel : ℕ) (output : Text) {input : Text} {r : Result ExpandError Text}
      → Expansion env input r
      → length input ≤ fuel
      → expand_loop env fuel output input ≡ put output r
  unfolding expand_loop
  expand_loop_complete fuel output finished h = ap ok (sym (append-nil output))
  expand_loop_complete zero output x h = absurd (omega (arith, h))
  expand_loop_complete (suc fuel) output (plain c {rest = rest} {r = r} other later) h =
      rw (expand_loop, other)
        (expand_loop_complete fuel (output ++ c ∷ []) later (omega (arith, h))
          ∙ put-append output (c ∷ []) r)
  expand_loop_complete (suc fuel) output (never_closed {inner = inner} inside) h =
      rw (expand_loop, take_inner-open [] inner inside) refl
  expand_loop_complete (suc fuel) output
        (replaced inner {val = val} {rest = rest} {r = r} inside stands later) h =
      rw (expand_loop, take_inner-closed [] inner rest inside, resolve_unique env stands)
        (expand_loop_complete fuel (output ++ val) later
            (omega (arith, h, length-append inner (b'}' ∷ rest)))
          ∙ put-append output val r)
  expand_loop_complete (suc fuel) output (refused inner rest inside stands) h =
      rw (expand_loop, take_inner-closed [] inner rest inside, resolve_unique env stands) refl

  -- Expansion ends, and is what the grammar says: a text with placeholders expands to the one result
  -- that the grammar derives for it, a text or the error of the first bad placeholder.
  pub expand_env_vars-Expansion :
      (input : Text) (r : Result ExpandError Text)
      → (expand_env_vars env input ≡ r) ↔ Expansion env input r
  unfolding expand_env_vars
  expand_env_vars-Expansion input r =
      ((λ e. subst (Expansion env input) (sym (complete derived.1) ∙ e) derived.1), complete)
    where
      derived : (s : Result ExpandError Text) × Expansion env input s
      derived = expand_total (length input) input (omega arith)

      complete :
          {s : Result ExpandError Text} → Expansion env input s → expand_env_vars env input ≡ s
      complete {s} x = expand_loop_complete (length input) [] x (omega arith) ∙ put-nil s

  Stands-ends :
      {inner : Text} {r : Result ExpandError Text} → Stands env inner r → r ≢ err out_of_fuel
  Stands-ends (nameless default_val parts) e = cc
  Stands-ends (set name default_val parts named found) e = cc
  Stands-ends (defaulted name parts named absent) e = cc
  Stands-ends (missing parts named absent) e = cc

  put-err :
      (before : Text) (r : Result ExpandError Text) (e : ExpandError)
      → put before r ≡ err e
      → r ≡ err e
  put-err before (ok after) e h = cc
  put-err before (err f) e h = h

  Expansion-ends :
      {input : Text} {r : Result ExpandError Text} → Expansion env input r → r ≢ err out_of_fuel
  Expansion-ends finished e = cc
  Expansion-ends (plain c {r = r} other later) e =
      Expansion-ends later (put-err (c ∷ []) r out_of_fuel e)
  Expansion-ends (never_closed inside) e = cc
  Expansion-ends (replaced inner {val = val} {r = r} inside stands later) e =
      Expansion-ends later (put-err val r out_of_fuel e)
  Expansion-ends (refused inner rest inside stands) e = Stands-ends stands e

  -- The fuel of the model, the length of the text, is always enough.
  pub expand_env_vars-ends : (input : Text) → expand_env_vars env input ≢ err out_of_fuel
  expand_env_vars-ends input e = Expansion-ends ((expand_env_vars-Expansion input _).0 e) refl
