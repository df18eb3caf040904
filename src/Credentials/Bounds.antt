-- ===== src/Credentials/Bounds.antt =====
-- The store of src/turn/credentials.rs does not grow by refreshing: at most two credentials of a
-- session live at a time.
use mumdota.Base.{
  ℕ, ◌+◌, ◌≤◌, ◌<◌, ◌≡◌, refl, String, List, [], ◌∷◌, not, none, ◌⊎◌, inl, inr, arith, ltb, ◌==◌,
  string_eq, find_first, Map, values, lookup, insert, Option-cases, Bool-cases, All, All-append,
  length, append-nil, subst,
}
use mumdota.Credentials.{
  Credential, Credentials, new, retain, Draw, is_reusable, fresh_credential, choose, issue_at,
  revoke,
}
use mumdota.Credentials.Expiries.{
  expiries, Gapped, All-expiries-retain, expiries-retain-Gapped, expiries-retain_live,
  expiries-insert_new, expiries-find_first-none, Gapped-append,
}
use mumdota.Credentials.Sessions.{IsSound, lookup-retain, retain-IsSound, insert-IsSound}

-- The stores that can come about: `issue_at` and `revoke` are called in any order at times that do
-- not go back, and a random username is never one that the store holds.
pub data Reach (realm : String) (ttl : ℕ) : Credentials → ℕ → Type 0 where
  start : Reach realm ttl (new realm ttl) 0
  issued :
      {cs : Credentials} {before : ℕ} (session : String) (urls : List String) (now : ℕ)
      (draw : Draw)
      → Reach realm ttl cs before
      → before ≤ now
      → lookup draw.username cs.entries ≡ none
      → Reach realm ttl (issue_at cs session urls now draw).1 now
  revoked :
      {cs : Credentials} {before : ℕ} (session : String)
      → Reach realm ttl cs before
      → Reach realm ttl (revoke cs session).1 before

-- What holds of a session's expiry times at time `now`.
record IsPaced (ttl now : ℕ) (xs : List ℕ) : Type 0 where
  live : All (λ x. now < x) xs
  near : All (λ x. x ≤ now + ttl) xs
  gapped : Gapped ttl xs

record Inv (ttl now : ℕ) (cs : Credentials) : Type 0 where
  sound : IsSound cs.entries
  lifetime : cs.ttl ≡ ttl
  paced : (session : String) → IsPaced ttl now (expiries session cs.entries)

All-later :
    (ttl before now : ℕ) (xs : List ℕ)
    → before ≤ now
    → All (λ x. x ≤ before + ttl) xs
    → All (λ x. x ≤ now + ttl) xs
All-later ttl before now [] h near = tt
All-later ttl before now (x ∷ xs) h near = (omega arith, All-later ttl before now xs h near.1)

retain_live-IsPaced :
    (ttl before now : ℕ) (session : String) (m : Map String Credential)
    → before ≤ now
    → IsPaced ttl before (expiries session m)
    → IsPaced ttl now (expiries session (retain (λ c. ltb now c.expires_at) m))
retain_live-IsPaced ttl before now session m h p =
    let test = λ (c : Credential). ltb now c.expires_at in
    record {
      live = expiries-retain_live session now m;
      near =
          All-expiries-retain (λ x. x ≤ now + ttl) session test m
            (All-later ttl before now (expiries session m) h p.near);
      gapped = expiries-retain-Gapped ttl session test m p.gapped;
    }

-- A new credential keeps the pace of its own session and touches no other.
insert-IsPaced :
    (cs : Credentials) (session other : String) (now : ℕ) (draw : Draw) (m : Map String Credential)
    → 180 ≤ cs.ttl
    → lookup draw.username m ≡ none
    → find_first (is_reusable session now) (values m) ≡ none
    → IsPaced cs.ttl now (expiries other m)
    → IsPaced cs.ttl now
        (expiries other (insert draw.username (fresh_credential cs session now draw) m))
insert-IsPaced cs session other now draw m lasting absent nothing p =
    let c = fresh_credential cs session now draw in
    rw (expiries-insert_new other draw.username c m absent) (elim (Bool-cases (session == other)) [
      | inl mine ↦
          let same : session ≡ other = (string_eq.same_iff session other).0 mine in
          let ending = rw same at (expiries-find_first-none session now m nothing) in
          rw mine (record {
            live = All-append (λ x. now < x) _ _ p.live (omega arith);
            near = All-append (λ x. x ≤ now + cs.ttl) _ _ p.near (omega arith);
            gapped = Gapped-append cs.ttl now _ p.gapped ending;
          })
      | inr theirs ↦ rw (theirs, append-nil) p
    ])

choose_cases :
    (cs : Credentials) (session : String) (now : ℕ) (draw : Draw) (m : Map String Credential)
    → ((c : Credential) × (choose cs session now draw m ≡ (c, m)))
      ⊎ ((find_first (is_reusable session now) (values m) ≡ none)
          × (choose cs session now draw m ≡ (
            fresh_credential cs session now draw,
            insert draw.username (fresh_credential cs session now draw) m,
          )))
unfolding choose
choose_cases cs session now draw m =
    elim (Option-cases (find_first (is_reusable session now) (values m))) [
      | inl nothing ↦ inr (nothing, rw (nothing, choose))
      | inr (c, e) ↦ inl (c, rw (e, choose))
    ]

issue_at-Inv :
    (before now : ℕ) (cs : Credentials) (session : String) (urls : List String) (draw : Draw)
    → 180 ≤ cs.ttl
    → before ≤ now
    → lookup draw.username cs.entries ≡ none
    → Inv cs.ttl before cs
    → Inv cs.ttl now (issue_at cs session urls now draw).1
unfolding issue_at
issue_at-Inv before now cs session urls draw lasting h absent v =
    let test = λ (c : Credential). ltb now c.expires_at in
    let m = retain test cs.entries in
    let sound = retain-IsSound test cs.entries v.sound in
    let gone : lookup draw.username m ≡ none =
      rw (lookup-retain test draw.username cs.entries v.sound, absent) in
    let paced = λ (s : String). retain_live-IsPaced cs.ttl before now s cs.entries h (v.paced s) in
    elim (choose_cases cs session now draw m) [
      | inl (c, kept) ↦ rw kept (record { sound = sound; lifetime = refl; paced = paced })
      | inr (nothing, added) ↦ rw added (record {
        sound = insert-IsSound (fresh_credential cs session now draw) m sound;
        lifetime = refl;
        paced = λ s. insert-IsPaced cs session s now draw m lasting gone nothing (paced s);
      })
    ]

revoke-Inv :
    (ttl now : ℕ) (cs : Credentials) (session : String)
    → Inv ttl now cs
    → Inv ttl now (revoke cs session).1
unfolding revoke
revoke-Inv ttl now cs session v =
    let test = λ (c : Credential). not (c.session == session) in
    record {
      sound = retain-IsSound test cs.entries v.sound;
      lifetime = v.lifetime;
      paced = λ s.
          let p = v.paced s in
          record {
            live = All-expiries-retain (λ x. now < x) s test cs.entries p.live;
            near = All-expiries-retain (λ x. x ≤ now + ttl) s test cs.entries p.near;
            gapped = expiries-retain-Gapped ttl s test cs.entries p.gapped;
          };
    }

Reach-Inv :
    {realm : String} {ttl now : ℕ} {cs : Credentials}
    → 180 ≤ ttl
    → Reach realm ttl cs now
    → Inv ttl now cs
unfolding new expiries
Reach-Inv lasting start = record {
  sound = tt;
  lifetime = refl;
  paced = λ s. record { live = tt; near = tt; gapped = tt };
}
Reach-Inv lasting (issued {cs} {before} session urls now draw r h absent) =
    let v = Reach-Inv lasting r in
    let step = λ (l : 180 ≤ cs.ttl). issue_at-Inv before now cs session urls draw l h absent in
    subst (λ t. 180 ≤ t → Inv t before cs → Inv t now (issue_at cs session urls now draw).1)
      v.lifetime step lasting v
Reach-Inv {ttl} {now} lasting (revoked {cs} session r) =
    revoke-Inv ttl now cs session (Reach-Inv lasting r)

length-IsPaced : (ttl now : ℕ) (xs : List ℕ) → 180 ≤ ttl → IsPaced ttl now xs → length xs ≤ 2
length-IsPaced ttl now [] lasting p = omega arith
length-IsPaced ttl now (x ∷ []) lasting p = omega arith
length-IsPaced ttl now (x ∷ y ∷ []) lasting p = omega arith
length-IsPaced ttl now (x ∷ y ∷ z ∷ xs) lasting p = absurd (omega arith)

-- Where credentials live for 180 s and more, the clock does not go back, and a username that is drawn
-- is never one that the store holds: however often and in whatever order sessions refresh and are
-- revoked, the store never holds more than two credentials of a session, none of them
-- expired at the last call of `issue_at`, and each stands under its own username.
pub Reach-bound :
    {realm : String} {ttl now : ℕ} {cs : Credentials}
    → 180 ≤ ttl
    → Reach realm ttl cs now
    → (session : String)
    → (length (expiries session cs.entries) ≤ 2)
      × All (λ x. now < x) (expiries session cs.entries)
      × IsSound cs.entries
Reach-bound {ttl} {now} {cs} lasting r session =
    let v = Reach-Inv lasting r in
    let p = v.paced session in
    (length-IsPaced ttl now (expiries session cs.entries) lasting p, p.live, v.sound)
