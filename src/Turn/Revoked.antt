-- ===== src/Turn/Revoked.antt =====
-- What `TurnService::revoke` of src/turn/mod.rs reaches.
use mathlib.Core.Bool.{false≢true}
use mumdota.Base.{
  false, ℕ, ◌≡◌, refl, sym, ap, ◌∙◌, subst, Bool, true, not, ◌||◌, ◌&&◌, String, List, [], ◌∷◌,
  ◌++◌, map, Option, none, some, Option-cases, Bool-cases, inl, inr, arith, keep, any, ◌==◌, nat_eq,
  string_eq, if_cases, Map, insert, lookup, values, get_elem?, err, beq_self, ltb, find_first,
}
use mumdota.Config.{Config}
use mumdota.Credentials.{
  new, Credential, Credentials, Draw, fresh_credential, is_reusable, choose, issue_at,
  revoke as revoke_credentials, authenticate_at, unknown_credential,
}
use mumdota.Credentials.Sessions.{IsSound, retain-IsSound, insert-IsSound, revoke-authenticate_at}
use mumdota.Turn.{
  Client, handshaking, making, serving, Listener, TurnService, has, new_server, list_server,
  make_server, ask_servers, start, update, client, drop_server, serve_client, end_client, on_accept,
  stop, ice_config, revoke, deletions, close, Step, accepts, makes, serves, ends, udp_ends, stops,
  issues, revokes, closes, step, run,
}
use mumdota.Turn.Slots.{has-keep, Holds, start-Holds, step-Holds, run-Holds}

-- Whether a server is asked to delete what belongs to a username.
abbrev pub asked : ℕ → String → List (ℕ × String) → Bool
asked id username calls = any (λ d. d.0 == id && d.1 == username) calls

abbrev named : String → List String → Bool
named username usernames = any (λ u. u == username) usernames

asked-append :
    (id : ℕ) (username : String) (xs ys : List (ℕ × String))
    → asked id username (xs ++ ys) ≡ (asked id username xs || asked id username ys)
asked-append id username [] ys = refl
asked-append id username (x ∷ xs) ys = ground (arith, asked-append id username xs ys)

asked-map :
    (id : ℕ) (username u : String) (held : List ℕ)
    → asked id username (map (λ server. (server, u)) held) ≡ (has id held && u == username)
asked-map id username u [] = refl
asked-map id username u (x ∷ held) = ground (arith, asked-map id username u held)

asked-deletions :
    (id : ℕ) (username : String) (held : List ℕ) (usernames : List String)
    → has id held ≡ true
    → named username usernames ≡ true
    → asked id username (deletions held usernames) ≡ true
unfolding deletions
asked-deletions id username held [] h k = k
asked-deletions id username held (u ∷ usernames) h k =
    asked-append id username (map (λ server. (server, u)) held) (deletions held usernames)
    ∙ elim (Bool-cases (u == username)) [
      | inl same ↦ rw (asked-map id username u held, h, same) refl
      | inr other ↦
          let later : named username usernames ≡ true =
            subst (λ t. (t || named username usernames) ≡ true) other k in
          rw (asked-map id username u held, h, other)
            (asked-deletions id username held usernames h later)
    ]

named-lookup :
    (session username : String) (m : Map String Credential) (c : Credential)
    → IsSound m
    → lookup username m ≡ some c
    → (c.session == session) ≡ true
    → named username (map (λ d. d.username) (keep (λ d. d.session == session) (values m))) ≡ true
unfolding lookup keep
named-lookup session username [] c sound e mine = cc
named-lookup session username ((k, d) ∷ m) c sound e mine = elim (Bool-cases (k == username)) [
  | inl same ↦
      let first : d ≡ c = ground arith in
      let owned : (d.session == session) ≡ true = ap (λ x. x.session == session) first ∙ mine in
      let called : (d.username == username) ≡ true = ap (λ n. n == username) sound.0 ∙ same in
      rw (owned, called) refl
  | inr other ↦
      let rest : lookup username m ≡ some c = ground arith in
      let later : named username
            (map (λ x. x.username) (keep (λ x. x.session == session) (values m)))
          ≡ true =
        named-lookup session username m c sound.2 rest mine in
      if_cases (λ l. named username (map (λ x. x.username) l) ≡ true) (d.session == session)
        (d ∷ keep (λ x. x.session == session) (values m))
        (keep (λ x. x.session == session) (values m)) (rw later (ground arith)) later
]

choose-IsSound :
    (cs : Credentials) (session : String) (now : ℕ) (draw : Draw) (m : Map String Credential)
    → IsSound m
    → IsSound (choose cs session now draw m).1
unfolding choose
choose-IsSound cs session now draw m sound =
    elim (Option-cases (find_first (is_reusable session now) (values m))) [
      | inl nothing ↦
          let c = fresh_credential cs session now draw in
          let made : choose cs session now draw m ≡ (c, insert draw.username c m) =
            rw (choose, nothing) refl in
          subst (λ r. IsSound r.1) (sym made) (insert-IsSound c m sound)
      | inr (c, found) ↦
          let same : choose cs session now draw m ≡ (c, m) = rw (choose, found) refl in
          subst (λ r. IsSound r.1) (sym same) sound
    ]

-- The credentials of a service, each under its own username, once.
abbrev pub Sound : TurnService → Type 0
Sound s = IsSound s.credentials.entries

update-Sound :
    (s : TurnService) (i : ℕ) (o : Option Listener) (f : Listener → Listener)
    → Sound s
    → Sound (update s i o f)
update-Sound s i none f h = h
update-Sound s i (some l) f h = h

make_server-Sound :
    (s : TurnService) (i j : ℕ) (c : Option Client) → Sound s → Sound (make_server s i j c)
unfolding make_server new_server
make_server-Sound s i j (some handshaking) h =
    update-Sound (new_server s) i (get_elem? s.listeners i) _ h
make_server-Sound s i j (some (making id)) h = h
make_server-Sound s i j (some (serving id)) h = h
make_server-Sound s i j none h = h

serve_client-Sound :
    (s : TurnService) (i j : ℕ) (c : Option Client) → Sound s → Sound (serve_client s i j c)
unfolding serve_client list_server
serve_client-Sound s i j (some (making id)) h =
    update-Sound (list_server id s) i (get_elem? s.listeners i) _ h
serve_client-Sound s i j (some handshaking) h = h
serve_client-Sound s i j (some (serving id)) h = h
serve_client-Sound s i j none h = h

end_client-Sound :
    (s : TurnService) (i j : ℕ) (c : Option Client) → Sound s → Sound (end_client s i j c)
unfolding end_client
end_client-Sound s i j (some handshaking) h = update-Sound s i (get_elem? s.listeners i) _ h
end_client-Sound s i j (some (making id)) h = h
end_client-Sound s i j (some (serving id)) h =
    update-Sound (drop_server id s) i (get_elem? s.listeners i) _ h
end_client-Sound s i j none h = h

pub step-Sound : (s : TurnService) (a : Step) → Sound s → Sound (step s a)
unfolding step ice_config issue_at revoke revoke_credentials close
step-Sound s (accepts i is_accepted) h =
    update-Sound s i (get_elem? s.listeners i) (on_accept is_accepted) h
step-Sound s (makes i j) h = make_server-Sound s i j (client s i j) h
step-Sound s (serves i j) h = serve_client-Sound s i j (client s i j) h
step-Sound s (ends i j) h = end_client-Sound s i j (client s i j) h
step-Sound s udp_ends h = if_cases Sound s.shutdown (drop_server 0 s) s h h
step-Sound s (stops i) h =
    if_cases Sound s.shutdown _ s (update-Sound s i (get_elem? s.listeners i) stop h) h
step-Sound s (issues session now draw) h =
    choose-IsSound s.credentials session now draw _
      (retain-IsSound (λ c. ltb now c.expires_at) s.credentials.entries h)
step-Sound s (revokes session) h =
    retain-IsSound (λ c. not (c.session == session)) s.credentials.entries h
step-Sound s closes h = h

run-Sound : (s : TurnService) (steps : List Step) → Sound s → Sound (run s steps)
unfolding run
run-Sound s [] h = h
run-Sound s (a ∷ steps) h = run-Sound (step s a) steps (step-Sound s a h)

start-Sound : (config : Config) → Sound (start config)
unfolding start new_server list_server new
start-Sound config = tt

-- At every moment of the service, revoking a session leaves none of its usernames that authenticates;
-- and whatever happens until `revoke` has the list of servers, it then asks each server that is still
-- held, unless it waits to be put into the list, to delete what belongs to each of these usernames.
pub revoke-asked :
    (config : Config) (before between : List Step) (session username : String) (id : ℕ)
    (c : Credential)
    → lookup username (run (start config) before).credentials.entries ≡ some c
    → (c.session == session) ≡ true
    → has id (run (revoke (run (start config) before) session).1 between).live ≡ true
    → has id (run (revoke (run (start config) before) session).1 between).unlisted ≡ false
    → let s = run (start config) before in
      let (usernames, revoked) = revoke s session in
      (asked id username (ask_servers (run revoked between) usernames) ≡ true)
      × ((now : ℕ)
          → authenticate_at revoked.credentials username s.credentials.realm now
            ≡ err unknown_credential)
unfolding revoke ask_servers step
revoke-asked config before between session username id c found mine live listed =
    let s : TurnService = run (start config) before in
    let sound : Sound s = run-Sound (start config) before (start-Sound config) in
    let revoked : TurnService = step s (revokes session) in
    let later : TurnService = run revoked between in
    let h : Holds config later = run-Holds config revoked between (
      step-Holds config s (revokes session)
        (run-Holds config (start config) before (start-Holds config))) in
    let there : has id later.servers ≡ true = elim (h.tracked id live) [
      | inl here ↦ here
      | inr waits ↦ absurd (false≢true (sym listed ∙ waits))
    ] in
    (
      asked-deletions id username (keep (λ n. has n later.live) later.servers) _
          (has-keep id (λ n. has n later.live) later.servers there live)
          (named-lookup session username s.credentials.entries c sound found mine),
      λ now.
          revoke-authenticate_at s.credentials session username s.credentials.realm now c sound
            found
          ∙ rw (mine, beq_self s.credentials.realm) refl,
    )
