-- ===== src/Server/Tests.antt =====
-- Requests to src/server.rs with one slot: a foreign origin, a full house, and a slot that comes back.
use mumdota.Base.{◌+◌, ◌≡◌, refl, true, false, List, [], ◌∷◌, none, some, length, All, remove_elem}
use mumdota.Config.{Config, default_turn, default_media_port}
use mumdota.Server.{
  create_router, is_allowed, ws_upgrade, Event, requested, ended, on_event, serve_events, run,
  run_media, bound, turn_started, turn_closed,
}
use mumdota.Server.Slots.{IsAllowed, Answered, serve_events-slots}

abbrev config : Config
config = record {
  server = record {
    listen_addr = "::";
    listen_port = 8080;
    max_connections = 1;
    allowed_origins = "https://x.org" ∷ [];
  };
  mumble = record { host = "x.org"; port = 64738; accept_invalid_certs = true };
  webrtc = record { stun_servers = []; udp_port = default_media_port; public_ip = some 7 };
  turn = record default_turn { enabled = true };
}

abbrev events : List Event
events =
    requested (some "https://y.org")
    ∷ requested (some "https://x.org")
    ∷ requested none
    ∷ ended 0
    ∷ requested none
    ∷ []

serve_events-events : (serve_events (create_router config) events).connections ≡ none ∷ []
unfolding serve_events on_event ws_upgrade is_allowed remove_elem
serve_events-events = refl

serve_events-slots_example :
    let s = serve_events (create_router config) events in
    (s.websocket_slots + length s.connections ≡ config.server.max_connections)
    × All (IsAllowed config) s.connections
    × Answered config s (some "https://x.org")
serve_events-slots_example = serve_events-slots config events (some "https://x.org")

run-no_media :
    run config (record { binds = true; turn_starts = true; media_starts = false; serves = true })
    ≡ (false, bound ∷ turn_started ∷ turn_closed ∷ [])
unfolding run run_media
run-no_media = refl
