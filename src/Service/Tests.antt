-- ===== src/Service/Tests.antt =====
-- A WebSocket connection that connects, starts voice and asks for new TURN credentials.
use mumdota.Base.{
  ℕ, ◌≡◌, true, false, String, List, [], ◌∷◌, none, some, ok, lookup, string_eq, ◌==◌, nat_eq,
  if◌then◌else◌,
}
use mumdota.Config.{Config, default_turn, default_media_port}
use mumdota.Credentials.{Draw, new}
use mumdota.Turn.{start, new_server, list_server}
use mumdota.Messages.{connect, start_voice, answer, ice_refresh, chat_send}
use mumdota.Negotiation.{SignalingState, stable, have_local_offer, PeerOps}
use mumdota.Sessions.{new_manager}
use mumdota.Sessions.Slots.{permits}
use mumdota.Handler.{Incoming, parsed, serve, new_connection, handle_ws_connection}
use mumdota.Service.{
  World, Service, Meanwhile, authenticated, gets_credentials, enter, session_manager,
}
use mumdota.Service.Keeps.{SoundTurn}
use mumdota.Service.Ended.{Owns, holds_slot, handle_ws_connection-ended}

abbrev config : Config
config = record {
  server = record {
    listen_addr = "::";
    listen_port = 8080;
    max_connections = 2;
    allowed_origins = [];
  };
  mumble = record { host = "x.org"; port = 64738; accept_invalid_certs = true };
  webrtc = record { stun_servers = []; udp_port = default_media_port; public_ip = some 7 };
  turn = record default_turn { enabled = true; public_ip = some 7; public_host = "v.x.org" };
}

abbrev peer : PeerOps SignalingState
peer = record {
  signaling_state = λ s. s;
  has_remote_description = λ s. true;
  create_offer = λ restart s. (ok "offer", s);
  set_local_description = λ sdp s. (ok tt, have_local_offer);
  set_remote_description = λ sdp s. (ok tt, stable);
  add_ice_candidate = λ init s. (ok tt, s);
}

abbrev draw_of : ℕ → Draw
draw_of n = record { username = "4600:a"; password = "p"; key = n ∷ [] }

-- Mumble authenticates the first session, with two speakers, before the second call, and the event loop
-- gets credentials once more when the session is gone.
abbrev between : ℕ → List Meanwhile
between n =
    if n == 1
    then authenticated 0 5 (8 ∷ 9 ∷ []) ∷ gets_credentials "c" 900 (draw_of 1) ∷ []
    else if n == 6
    then gets_credentials "c" 1001 (draw_of 2) ∷ []
    else []

abbrev world : World SignalingState
world = record {
  ops = peer;
  new_peer = λ n. stable;
  is_set_up = λ n. true;
  is_open = λ n. true;
  adds_track = λ n speaker. true;
  now = λ n. 1000;
  draw = draw_of;
  meanwhile = between;
  interrupted = λ n m. m;
}

abbrev service : Service SignalingState
service = record {
  config = config;
  manager = new_manager 2;
  media = [];
  turn = some (start config);
  sent = [];
  calls = 0;
}

abbrev frames : List Incoming
frames =
    parsed (connect "Ann") true
    ∷ parsed start_voice true
    ∷ parsed (answer "sdp") true
    ∷ parsed ice_refresh true
    ∷ parsed (chat_send 1 "hello") false
    ∷ []

sound : SoundTurn service.turn
unfolding start new_server list_server new
sound = tt

handle_ws_connection-ended_example :
    let manager = session_manager world "c" 3 in
    let served = (serve manager (new_connection service) frames).manager in
    let left = manager.disconnect_user served in
    let after = (handle_ws_connection manager service frames).manager in
    (lookup "c" left.manager.sessions ≡ none)
    × (holds_slot world left.manager (lookup "c" (enter world served).manager.sessions) ≡ false)
    × (permits after.manager ≡ permits service.manager)
    × ((username : String) → ¬ Owns "c" after.turn username)
handle_ws_connection-ended_example = handle_ws_connection-ended world "c" 3 service frames sound
