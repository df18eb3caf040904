-- ===== src/Credentials/Expiries.antt =====
-- The expiry times of the credentials of src/turn/credentials.rs that one session has, as the store
-- drops and gains entries.
use mumdota.Base.{
  ℕ, ◌+◌, ◌≤◌, ◌<◌, ◌≡◌, refl, String, List, [], ◌∷◌, ◌++◌, Bool, none, inl, inr, arith, ltb, ◌==◌,
  string_eq, if◌then◌else◌, keep, find_first, Map, values, lookup, insert, Bool-cases, if_cases,
  All, All-append,
}
use mumdota.Credentials.{Credential, retain, is_reusable}

-- The expiry times of a session's credentials, in the order in which they were issued.
unfoldable pub expiries : String → Map String Credential → List ℕ
expiries session [] = []
expiries session ((_, c) ∷ m) =
    if c.session == session then c.expires_at ∷ expiries session m else expiries session m

-- Each credential was issued at least `ttl - 90` seconds after the one before.
abbrev pub Gapped : ℕ → List ℕ → Type 0
Gapped ttl [] = Unit {0}
Gapped ttl (x ∷ xs) = All (λ y. x + ttl ≤ y + 90) xs × Gapped ttl xs

abbrev head_expiry : String → Credential → List ℕ → List ℕ
head_expiry session c xs = if c.session == session then c.expires_at ∷ xs else xs

All-head_expiry :
    (P : ℕ → Type 0) (session : String) (c : Credential) (xs ys : List ℕ)
    → (All P xs → All P ys)
    → All P (head_expiry session c xs)
    → All P (head_expiry session c ys) × All P ys
All-head_expiry P session c xs ys shrinks h = elim (Bool-cases (c.session == session)) [
  | inl mine ↦
      let h' : P c.expires_at × All P xs = rw mine at h in
      rw mine ((h'.0, shrinks h'.1), shrinks h'.1)
  | inr other ↦ let h' : All P xs = rw other at h in rw other (shrinks h', shrinks h')
]

-- Dropping entries drops expiry times.
pub All-expiries-retain :
    (P : ℕ → Type 0) (session : String) (test : Credential → Bool) (m : Map String Credential)
    → All P (expiries session m)
    → All P (expiries session (retain test m))
unfolding expiries retain keep
All-expiries-retain P session test [] h = tt
All-expiries-retain P session test ((k, c) ∷ m) h =
    let (taken, dropped) =
      All-head_expiry P session c (expiries session m) (expiries session (retain test m))
        (All-expiries-retain P session test m) h in
    if_cases (λ (r : Map String Credential). All P (expiries session r)) (test c) _ _ taken dropped

pub expiries-retain-Gapped :
    (ttl : ℕ) (session : String) (test : Credential → Bool) (m : Map String Credential)
    → Gapped ttl (expiries session m)
    → Gapped ttl (expiries session (retain test m))
unfolding expiries retain keep
expiries-retain-Gapped ttl session test [] h = tt
expiries-retain-Gapped ttl session test ((k, c) ∷ m) h = elim (Bool-cases (c.session == session)) [
  | inl mine ↦
      let h' : Gapped ttl (c.expires_at ∷ expiries session m) = rw mine at h in
      let rest = expiries-retain-Gapped ttl session test m h'.1 in
      if_cases (λ (r : Map String Credential). Gapped ttl (expiries session r)) (test c) _ _
        (rw mine (All-expiries-retain (λ y. c.expires_at + ttl ≤ y + 90) session test m h'.0, rest))
        rest
  | inr other ↦
      let rest = expiries-retain-Gapped ttl session test m (rw other at h) in
      if_cases (λ (r : Map String Credential). Gapped ttl (expiries session r)) (test c) _ _
        (rw other rest) rest
]

-- What `issue_at` keeps has not expired.
pub expiries-retain_live :
    (session : String) (now : ℕ) (m : Map String Credential)
    → All (λ x. now < x) (expiries session (retain (λ c. ltb now c.expires_at) m))
unfolding expiries retain keep
expiries-retain_live session now [] = tt
expiries-retain_live session now ((k, c) ∷ m) = ground (arith, expiries-retain_live session now m)

pub expiries-insert_new :
    (session k : String) (c : Credential) (m : Map String Credential)
    → lookup k m ≡ none
    → expiries session (insert k c m) ≡ expiries session m ++ head_expiry session c []
unfolding expiries insert lookup
expiries-insert_new session k c [] absent = refl
expiries-insert_new session k c ((j, d) ∷ m) absent =
    ground (arith, expiries-insert_new session k c m)

-- Nothing to reuse: each of the session's credentials ends within 90 s.
pub expiries-find_first-none :
    (session : String) (now : ℕ) (m : Map String Credential)
    → find_first (is_reusable session now) (values m) ≡ none
    → All (λ x. x ≤ now + 90) (expiries session m)
unfolding expiries find_first
expiries-find_first-none session now [] nothing = tt
expiries-find_first-none session now ((k, c) ∷ m) nothing =
    ground (arith, expiries-find_first-none session now m)

pub Gapped-append :
    (ttl now : ℕ) (xs : List ℕ)
    → Gapped ttl xs
    → All (λ x. x ≤ now + 90) xs
    → Gapped ttl (xs ++ (now + ttl) ∷ [])
Gapped-append ttl now [] gapped ending = (tt, tt)
Gapped-append ttl now (x ∷ xs) gapped ending = (
  All-append (λ y. x + ttl ≤ y + 90) xs ((now + ttl) ∷ []) gapped.0 (omega arith),
  Gapped-append ttl now xs gapped.1 ending.1,
)
