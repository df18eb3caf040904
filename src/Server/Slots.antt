-- ===== src/Server/Slots.antt =====
-- Who gets a WebSocket from src/server.rs, and how many do.
use mathlib.Core.Bool.{false≢true}
use mumdota.Base.{
  ◌⊎◌, ◌↔◌, ◌<◌, ◌≤◌, ◌||◌, ◌==◌, string_eq, subst, length-remove_elem, remove_elem-All, ℕ, ◌+◌,
  ◌≡◌, refl, sym, ap, ◌∙◌, Bool, true, false, String, List, [], ◌∷◌, Option, none, some, Bool-cases,
  inl, inr, arith, length, get_elem?, All, ltb, any,
}
use mumdota.Config.{Config}
use mumdota.Server.{
  AppState, create_router, forbidden, service_unavailable, switching_protocols, is_allowed,
  ws_upgrade, release, Event, requested, ended, on_event, serve_events, Action, turn_started,
  turn_closed, Outcomes, run, run_media,
}

-- An origin is in a list.
abbrev pub Among : String → List String → Type 0
Among origin [] = ⊥
Among origin (allowed ∷ rest) = (origin ≡ allowed) ⊎ Among origin rest

-- No origin at all, any origin where the list is empty, or one of the list.
abbrev pub IsAllowed : Config → Option String → Type 0
IsAllowed config none = Unit {0}
IsAllowed config (some origin) =
    (config.server.allowed_origins ≡ []) ⊎ Among origin config.server.allowed_origins

any-Among :
    (origin : String) (origins : List String)
    → (any (λ allowed. origin == allowed) origins ≡ true) ↔ Among origin origins
any-Among origin [] = (λ h. cc, λ h. absurd h)
any-Among origin (allowed ∷ rest) =
    let here = string_eq.same_iff origin allowed in
    let later = any-Among origin rest in
    elim (Bool-cases (origin == allowed)) [
      | inl same ↦ (λ h. inl (here.0 same), λ h. rw same refl)
      | inr other ↦ (
        λ h. inr (later.0 (subst (λ t. (t || any (λ a. origin == a) rest) ≡ true) other h)),
        λ h.
            rw other
              (elim h [ inl e ↦ absurd (false≢true (sym other ∙ here.1 e)) | inr m ↦ later.1 m ]),
      )
    ]

is_allowed_iff :
    (config : Config) (origin : Option String)
    → (is_allowed config.server.allowed_origins origin ≡ true) ↔ IsAllowed config origin
unfolding is_allowed
is_allowed_iff config none = (λ h. tt, λ h. refl)
is_allowed_iff config (some origin) = listed config.server.allowed_origins
  where
    listed :
        (origins : List String)
        → (is_allowed origins (some origin) ≡ true) ↔ ((origins ≡ []) ⊎ Among origin origins)
    listed [] = (λ h. inl refl, λ h. refl)
    listed (allowed ∷ rest) =
        let (found, finds) = any-Among origin (allowed ∷ rest) in
        (λ h. inr (found h), λ h. elim h [ inl e ↦ cc | inr m ↦ finds m ])

record Holds (config : Config) (s : AppState) : Type 0 where
  same : s.config ≡ config
  conserved : s.websocket_slots + length s.connections ≡ config.server.max_connections
  allowed : All (IsAllowed config) s.connections

ws_upgrade-Holds :
    (config : Config) (s : AppState) (origin : Option String)
    → Holds config s
    → Holds config (ws_upgrade s origin).1
unfolding ws_upgrade
ws_upgrade-Holds config s origin h =
    elim (Bool-cases (is_allowed s.config.server.allowed_origins origin)) [
      | inl allowed ↦ elim (Bool-cases (ltb 0 s.websocket_slots)) [
        | inl free ↦
            rw (allowed, free)
              (record {
                same = h.same;
                conserved = ground (arith, h.conserved, free);
                allowed = (
                  (is_allowed_iff config origin).0
                      (ap (λ c. is_allowed c.server.allowed_origins origin) (sym h.same) ∙ allowed),
                  h.allowed,
                );
              })
        | inr full ↦ rw (allowed, full) h
      ]
      | inr refused ↦ rw refused h
    ]

release-Holds :
    (config : Config) (s : AppState) (i : ℕ) (o : Option (Option String))
    → get_elem? s.connections i ≡ o
    → Holds config s
    → Holds config (release s i o)
release-Holds config s i none e h = h
release-Holds config s i (some origin) e h = record {
  same = h.same;
  conserved = omega (arith, h.conserved, length-remove_elem s.connections i e);
  allowed = remove_elem-All (IsAllowed config) s.connections i h.allowed;
}

serve_events-Holds :
    (config : Config) (s : AppState) (events : List Event)
    → Holds config s
    → Holds config (serve_events s events)
unfolding serve_events on_event
serve_events-Holds config s [] h = h
serve_events-Holds config s (requested origin ∷ events) h =
    serve_events-Holds config (ws_upgrade s origin).1 events (ws_upgrade-Holds config s origin h)
serve_events-Holds config s (ended i ∷ events) h =
    serve_events-Holds config (release s i (get_elem? s.connections i)) events
      (release-Holds config s i _ refl h)

-- What a request gets: an origin that is not allowed is forbidden, and an allowed one is upgraded if
-- fewer than `max_connections` connections are there, and put off if not.
abbrev pub Answered : Config → AppState → Option String → Type 0
Answered config s origin =
    ((¬ IsAllowed config origin) × ((ws_upgrade s origin).0 ≡ forbidden))
    ⊎ (IsAllowed config origin
        × (length s.connections < config.server.max_connections)
        × ((ws_upgrade s origin).0 ≡ switching_protocols))
    ⊎ (IsAllowed config origin
        × (config.server.max_connections ≤ length s.connections)
        × ((ws_upgrade s origin).0 ≡ service_unavailable))

ws_upgrade-Answered :
    (config : Config) (s : AppState) (origin : Option String)
    → Holds config s
    → Answered config s origin
unfolding ws_upgrade
ws_upgrade-Answered config s origin h =
    let test : is_allowed s.config.server.allowed_origins origin
        ≡ is_allowed config.server.allowed_origins origin =
      ap (λ c. is_allowed c.server.allowed_origins origin) h.same in
    let (allows, is_needed) = is_allowed_iff config origin in
    elim (Bool-cases (is_allowed config.server.allowed_origins origin)) [
      | inl allowed ↦ elim (Bool-cases (ltb 0 s.websocket_slots)) [
        | inl free ↦ inr (
            inl (allows allowed, ground (arith, h.conserved, free), rw (test ∙ allowed, free) refl))
        | inr full ↦ inr (
            inr (allows allowed, ground (arith, h.conserved, full), rw (test ∙ allowed, full) refl))
      ]
      | inr refused ↦ inl (λ m. false≢true (sym refused ∙ is_needed m), rw (test ∙ refused) refl)
    ]

-- Whatever requests come and whatever connections end, in any order: each of the `max_connections`
-- slots is free or held by one connection; each connection that holds one came without an origin, or
-- with one of `allowed_origins`, or that list is empty; and the next request is upgraded if its origin
-- is allowed in this sense and fewer than `max_connections` connections are there, refused as forbidden
-- if the origin is not allowed, and told that the service is unavailable if there is no room.
pub serve_events-slots :
    (config : Config) (events : List Event) (origin : Option String)
    → let s = serve_events (create_router config) events in
      (s.websocket_slots + length s.connections ≡ config.server.max_connections)
      × All (IsAllowed config) s.connections
      × Answered config s origin
serve_events-slots config events origin =
    let s : AppState = serve_events (create_router config) events in
    let h : Holds config s =
      serve_events-Holds config (create_router config) events
        (record { same = refl; conserved = omega arith; allowed = tt }) in
    (h.conserved, h.allowed, ws_upgrade-Answered config s origin h)

abbrev pub started : List Action → Bool
started actions = any (λ a. elim a [ turn_started ↦ true | _ ↦ false ]) actions

abbrev pub closed : List Action → Bool
closed actions = any (λ a. elim a [ turn_closed ↦ true | _ ↦ false ]) actions

-- However `run` ends, the TURN service is closed if it was started.
run-closes : (config : Config) (o : Outcomes) → closed (run config o).1 ≡ started (run config o).1
unfolding run run_media
run-closes config o = ground arith
