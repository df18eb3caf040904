-- ===== src/Server.antt =====
-- The HTTP server of src/server.rs: the upgrade to a WebSocket with its origin check and its slots, the
-- readiness report, and the order in which the parts are started and closed. What the network and the
-- parts answer are arguments.
pub mod Slots
mod Tests
use mumdota.Base.{
  ℕ, suc, ◌-◌, Bool, true, false, not, ◌||◌, String, string_eq, List, [], ◌∷◌, ◌++◌, Option, none,
  some, any, ◌==◌, ltb, get_elem?, remove_elem, if◌then◌else◌,
}
use mumdota.Config.{Config}

-- `websocket_slots` are the free permits; `open` are the origins of the connections that hold one.
pub record AppState : Type 0 where
  pub config : Config
  pub websocket_slots : ℕ
  pub connections : List (Option String)

abbrev pub create_router : Config → AppState
create_router config = record {
  config = config;
  websocket_slots = config.server.max_connections;
  connections = [];
}

pub data Response : Type 0 where
  forbidden service_unavailable switching_protocols : Response

abbrev pub is_nil : List String → Bool
is_nil [] = true
is_nil (x ∷ xs) = false

-- A request without an origin is no browser's.
unfoldable pub is_allowed : List String → Option String → Bool
is_allowed allowed_origins none = true
is_allowed allowed_origins (some origin) =
    is_nil allowed_origins || any (λ allowed. origin == allowed) allowed_origins

unfoldable pub ws_upgrade : AppState → Option String → Response × AppState
unfolding is_allowed
ws_upgrade s origin =
    if not (is_allowed s.config.server.allowed_origins origin)
    then (forbidden, s)
    else if ltb 0 s.websocket_slots
    then (
      switching_protocols,
      record s { websocket_slots = s.websocket_slots - 1; connections = origin ∷ s.connections },
    )
    else (service_unavailable, s)

-- The task of a connection ends, or its upgrade fails, and drops its slot.
abbrev pub release : AppState → ℕ → Option (Option String) → AppState
release s i none = s
release s i (some origin) = record s {
  websocket_slots = suc s.websocket_slots;
  connections = remove_elem s.connections i;
}

pub data Event : Type 0 where
  requested : Option String → Event
  ended : ℕ → Event

unfoldable pub on_event : AppState → Event → AppState
unfolding ws_upgrade
on_event s (requested origin) = (ws_upgrade s origin).1
on_event s (ended i) = release s i (get_elem? s.connections i)

unfoldable pub serve_events : AppState → List Event → AppState
serve_events s [] = s
serve_events s (e ∷ events) = serve_events (on_event s e) events

pub record Readiness : Type 0 where
  pub is_ok : Bool
  pub upstream_tcp_reachable : Bool
  pub sessions : ℕ
  pub builtin_turn : Bool
  pub media_udp_port : ℕ

abbrev pub readiness : AppState → Bool → ℕ → Readiness
readiness s reachable connection_count = record {
  is_ok = reachable;
  upstream_tcp_reachable = reachable;
  sessions = connection_count;
  builtin_turn = s.config.turn.enabled;
  media_udp_port = s.config.webrtc.udp_port;
}

-- What `run` does, in order; the actions of a part name the part.
pub data Action : Type 0 where
  bound turn_started media_initialized served manager_closed turn_closed : Action

-- What `bind`, `TurnService::start`, `initialize_media` and `serve` answer.
pub record Outcomes : Type 0 where
  pub binds : Bool
  pub turn_starts : Bool
  pub media_starts : Bool
  pub serves : Bool

abbrev pub close_turn : Bool → List Action
close_turn is_started = if is_started then turn_closed ∷ [] else []

-- `run` from `initialize_media` on.
unfoldable pub run_media : Outcomes → Bool → Bool × List Action
run_media o is_started =
    if not o.media_starts
    then (false, close_turn is_started)
    else (o.serves, media_initialized ∷ served ∷ manager_closed ∷ close_turn is_started)

abbrev pub after : List Action → Bool × List Action → Bool × List Action
after actions (is_ok, rest) = (is_ok, actions ++ rest)

unfoldable pub run : Config → Outcomes → Bool × List Action
unfolding run_media
run config o =
    if not o.binds
    then (false, [])
    else if not config.turn.enabled
    then after (bound ∷ []) (run_media o false)
    else if not o.turn_starts
    then (false, bound ∷ [])
    else after (bound ∷ turn_started ∷ []) (run_media o true)
