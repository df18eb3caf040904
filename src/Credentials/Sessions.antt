-- ===== src/Credentials/Sessions.antt =====
-- Who may use a credential of src/turn/credentials.rs, and until when.
use text.Mathlib.Text.{starts_with}
use mumdota.Base.{
  false, ◌⊎◌, ℕ, ◌+◌, ◌≤◌, ◌<◌, ◌≡◌, refl, String, List, [], ◌∷◌, map, Bool, true, not, Option,
  none, some, inl, inr, arith, ltb, ◌==◌, ◌&&◌, string_eq, if◌then◌else◌, keep, find_first, Map,
  values, lookup, insert, ok, err, Option-cases, Bool-cases, beq_self, ltb-false, ltb-true,
  lookup-insert,
}
use mumdota.Credentials.{
  IceServer, Credential, Credentials, retain, Draw, is_reusable, fresh_credential, choose,
  ice_server, issue_at, revoke, unknown_credential, authenticate_at,
}

-- Each credential stands under its own username, once.
abbrev pub IsSound : Map String Credential → Type 0
IsSound [] = Unit {0}
IsSound ((k, c) ∷ m) = (c.username ≡ k) × (lookup k m ≡ none) × IsSound m

abbrev pub filter_option : (Credential → Bool) → Option Credential → Option Credential
filter_option test none = none
filter_option test (some c) = if test c then some c else none

pub lookup-retain :
    (test : Credential → Bool) (k : String) (m : Map String Credential)
    → IsSound m
    → lookup k (retain test m) ≡ filter_option test (lookup k m)
unfolding retain keep lookup
lookup-retain test k [] sound = refl
lookup-retain test k ((j, c) ∷ m) sound =
    ground (arith, string_eq.same_iff j k, lookup-retain test k m sound.2)

pub retain-IsSound :
    (test : Credential → Bool) (m : Map String Credential) → IsSound m → IsSound (retain test m)
unfolding retain keep
retain-IsSound test [] sound = tt
retain-IsSound test ((k, c) ∷ m) sound =
    ground (arith, retain-IsSound test m sound.2, lookup-retain test k m sound.2)

pub insert-IsSound :
    (c : Credential) (m : Map String Credential) → IsSound m → IsSound (insert c.username c m)
unfolding insert lookup
insert-IsSound c [] sound = (refl, refl, tt)
insert-IsSound c ((k, d) ∷ m) sound = ground (
  arith,
  insert-IsSound c m sound.2,
  lookup-insert c.username k c m,
  string_eq.same_iff k c.username,
  string_eq.same_iff c.username k,
)

-- What `find` returns passes the test and stands under its username.
pub find_first-lookup :
    (test : Credential → Bool) (m : Map String Credential) {c : Credential}
    → IsSound m
    → find_first test (values m) ≡ some c
    → (test c ≡ true) × (lookup c.username m ≡ some c)
unfolding find_first lookup
find_first-lookup test [] sound e = cc
find_first-lookup test ((k, d) ∷ m) {c} sound e = elim (Bool-cases (test d)) [
  | inl hit ↦
      let same : d ≡ c = ground arith in
      rw (← same) (hit, ground (arith, string_eq.same_iff k d.username))
  | inr miss ↦
      let rest : find_first test (values m) ≡ some c = ground arith in
      let (passes, found) = find_first-lookup test m sound.2 rest in
      (passes, ground (arith, string_eq.same_iff k c.username))
]

-- The chosen credential stands in the new map under its username, and is good for 90 s and more.
pub choose_lem :
    (cs : Credentials) (session : String) (now : ℕ) (draw : Draw) (m : Map String Credential)
    → IsSound m
    → 90 < cs.ttl
    → (c : Credential) × (m' : Map String Credential) × (choose cs session now draw m ≡ (c, m'))
      × (lookup c.username m' ≡ some c)
      × (c.session ≡ session)
      × (now + 90 < c.expires_at)
unfolding choose
choose_lem cs session now draw m sound lasting =
    elim (Option-cases (find_first (is_reusable session now) (values m))) [
      | inl nothing ↦
          let c = fresh_credential cs session now draw in
          (
            c,
            insert draw.username c m,
            rw (nothing, choose),
            rw (lookup-insert draw.username draw.username c m, beq_self draw.username),
            refl,
            omega arith,
          )
      | inr (c, e) ↦
          let (passes, found) = find_first-lookup (is_reusable session now) m sound e in
          (
            c,
            m,
            rw (e, choose),
            found,
            ground (arith, string_eq.same_iff c.session session),
            ground arith,
          )
    ]

-- A server of the list for the browser: it has the URL, and the username and the password of the
-- credential if the URL starts with `turn`, and neither if not.
abbrev pub Serves : Credential → String → IceServer → Type 0
Serves c url server =
    (server.urls ≡ url)
    × (((starts_with url "turn" ≡ true)
          × (server.username ≡ some c.username)
          × (server.credential ≡ some c.password))
        ⊎ ((starts_with url "turn" ≡ false)
            × (server.username ≡ none)
            × (server.credential ≡ none)))

-- One server for each URL, in order.
abbrev pub Lists : Credential → List String → List IceServer → Type 0
Lists c [] [] = Unit {0}
Lists c (url ∷ urls) (server ∷ servers) = Serves c url server × Lists c urls servers
Lists c [] (server ∷ servers) = ⊥
Lists c (url ∷ urls) [] = ⊥

ice_server-Serves : (c : Credential) (url : String) → Serves c url (ice_server c url)
ice_server-Serves c url = elim (Bool-cases (starts_with url "turn")) [
  | inl turn ↦ (refl, inl (turn, rw turn refl, rw turn refl))
  | inr other ↦ (refl, inr (other, rw other refl, rw other refl))
]

map-Lists : (c : Credential) (urls : List String) → Lists c urls (map (ice_server c) urls)
map-Lists c [] = tt
map-Lists c (url ∷ urls) = (ice_server-Serves c url, map-Lists c urls)

-- Where credentials live for more than 90 s and each stands under its own username, once, `issue_at` hands out a credential of the session that
-- is good for more than 90 s. It quotes that credential's expiry, and gives one server for each URL, in
-- order, which has the credential's username and password if the URL starts with `turn`, and neither
-- if not. The username then authenticates in the configured
-- realm, with the credential's key, before the expiry and no longer from the expiry on.
pub issue_at-authenticate_at :
    (cs : Credentials) (session : String) (urls : List String) (now : ℕ) (draw : Draw)
    → IsSound cs.entries
    → 90 < cs.ttl
    → let (config, cs') = issue_at cs session urls now draw in
      (c : Credential) × (c.session ≡ session)
      × Lists c urls config.ice_servers
      × (config.expires_at ≡ some c.expires_at)
      × (now + 90 < c.expires_at)
      × ((later : ℕ)
          → later < c.expires_at
          → authenticate_at cs' c.username cs.realm later ≡ ok c.key)
      × ((later : ℕ)
          → c.expires_at ≤ later
          → authenticate_at cs' c.username cs.realm later ≡ err unknown_credential)
unfolding issue_at authenticate_at
issue_at-authenticate_at cs session urls now draw sound lasting =
    let live = retain (λ c. ltb now c.expires_at) cs.entries in
    let (c, m, chosen, found, owned, lasts) =
      choose_lem cs session now draw live
        (retain-IsSound (λ c. ltb now c.expires_at) cs.entries sound) lasting in
    (
      c,
      owned,
      rw chosen (map-Lists c urls),
      rw chosen refl,
      lasts,
      λ later before. rw (chosen, beq_self cs.realm, found, ltb-true before),
      λ later after. rw (chosen, beq_self cs.realm, found, ltb-false after),
    )

-- Revoking a session takes its credentials away and no other session's: at any time the username
-- of a stored credential then fails if the credential was the session's, and otherwise
-- authenticates, or fails, as before.
pub revoke-authenticate_at :
    (cs : Credentials) (session username realm : String) (now : ℕ) (c : Credential)
    → IsSound cs.entries
    → lookup username cs.entries ≡ some c
    → authenticate_at (revoke cs session).1 username realm now ≡ (
        if c.session == session && realm == cs.realm
        then err unknown_credential
        else authenticate_at cs username realm now)
unfolding revoke authenticate_at
revoke-authenticate_at cs session username realm now c sound e =
    rw (lookup-retain (λ c. not (c.session == session)) username cs.entries sound, e) (ground arith)
