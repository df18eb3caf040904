-- ===== src/Config/Tests.antt =====
-- The check of src/config.rs on a configuration with TURN and on one whose relay covers the media port.
use mumdota.Base.{
  arith, ◌≤◌, ◌≡◌, refl, true, [], ◌∷◌, lookup, some, ok, err, length, nat_eq, string_eq,
}
use mumdota.Credentials.{Credentials, Draw, new, issue_at}
use mumdota.Credentials.Expiries.{expiries}
use mumdota.Credentials.Bounds.{Reach, start, issued}
use mumdota.Config.{
  Config, TurnConfig, default_turn, default_media_port, validate, validate_turn,
  invalid_relay_range,
}
use mumdota.Config.Ports.{SeparatePorts, validate-SeparatePorts, validate-credentials}

abbrev with_turn : TurnConfig
with_turn = record default_turn {
  enabled = true;
  public_ip = some 0xcb007107;
  public_host = "voice.example.org";
  tls_cert = some "cert.pem";
  tls_key = some "key.pem";
}

abbrev config : Config
config = record {
  server = record {
    listen_addr = "0.0.0.0";
    listen_port = 8080;
    max_connections = 100;
    allowed_origins = [];
  };
  mumble = record { host = "localhost"; port = 64738; accept_invalid_certs = true };
  webrtc = record { stun_servers = []; udp_port = default_media_port; public_ip = some 0xcb007107 };
  turn = with_turn;
}

config_validates : validate config ≡ ok tt
unfolding validate validate_turn
config_validates = refl

validate-overlap :
    validate (record config { turn = record with_turn { relay_max_port = 50000 } })
    ≡ err invalid_relay_range
unfolding validate validate_turn
validate-overlap = refl

validate-SeparatePorts_example : SeparatePorts config
validate-SeparatePorts_example = validate-SeparatePorts config refl config_validates

abbrev draw : Draw
draw = record { username = "4600:u1"; password = "secret"; key = 1 ∷ 2 ∷ [] }

abbrev store : Credentials
store = (issue_at (new "mumdota" 3600) "ann" [] 1000 draw).1

store-Reach : Reach "mumdota" 3600 store 1000
unfolding new lookup
store-Reach = issued "ann" [] 1000 draw start (omega arith) refl

expiries-store : length (expiries "ann" store.entries) ≤ 2
expiries-store = validate-credentials config store 1000 refl config_validates store-Reach "ann"
