-- ===== src/Config.antt =====
-- The configuration of src/config.rs and its check, `Config::validate`. Ports are u16 and an IPv4
-- address is its 32 bits. Bytes of a host name are the codes of its characters, since a name with
-- another character fails the test either way.
pub mod Ports
mod Tests
use Prim.Native.Char.{code}
use mumdota.Base.{
  ℕ, ◌/◌, ◌^◌, Bool, true, false, not, ◌&&◌, ◌||◌, String, List, Option, none, some, ltb, leb, ◌==◌,
  nat_eq, string_eq, is_some, if◌then◌else◌, Result, ok, err, ◌>>=◌, ◌>>◌, ensure, ok_or,
}

pub record ServerConfig : Type 0 where
  pub listen_addr : String
  pub listen_port : ℕ
  pub max_connections : ℕ
  pub allowed_origins : List String

pub record MumbleConfig : Type 0 where
  pub host : String
  pub port : ℕ
  pub accept_invalid_certs : Bool

pub record WebrtcConfig : Type 0 where
  pub stun_servers : List String
  pub udp_port : ℕ
  pub public_ip : Option ℕ

pub record TurnConfig : Type 0 where
  pub enabled : Bool
  pub listen_addr : ℕ
  pub port : ℕ
  pub public_ip : Option ℕ
  pub public_host : String
  pub realm : String
  pub relay_min_port : ℕ
  pub relay_max_port : ℕ
  pub credential_ttl_secs : ℕ
  pub tls_port : ℕ
  pub tls_cert : Option String
  pub tls_key : Option String

pub record Config : Type 0 where
  pub server : ServerConfig
  pub mumble : MumbleConfig
  pub webrtc : WebrtcConfig
  pub turn : TurnConfig

abbrev pub default_media_port : ℕ
default_media_port = 50000

abbrev pub default_turn : TurnConfig
default_turn = record {
  enabled = false;
  listen_addr = 0;
  port = 3478;
  public_ip = none;
  public_host = "";
  realm = "mumdota";
  relay_min_port = 49160;
  relay_max_port = 49999;
  credential_ttl_secs = 3600;
  tls_port = 5349;
  tls_cert = none;
  tls_key = none;
}

pub data ConfigError : Type 0 where
  no_connections no_public_ip invalid_public_ip public_ips_differ no_udp_port ports_not_distinct
        no_realm invalid_public_host invalid_ttl invalid_relay_range half_tls tls_port_conflict :
      ConfigError

-- 0.0.0.0 and 224.0.0.0/4
abbrev pub is_usable : ℕ → Bool
is_usable ip = not (ip == 0) && not (ip / 2 ^ 28 == 14)

abbrev pub same_ip : Option ℕ → ℕ → Bool
same_ip none ip = false
same_ip (some a) ip = a == ip

abbrev pub between : ℕ → ℕ → ℕ → Bool
between low high n = leb low n && leb n high

-- `is_ascii_alphanumeric()`, a dot or a dash.
abbrev pub is_host_byte : ℕ → Bool
is_host_byte b = between 48 57 b || between 65 90 b || between 97 122 b || b == 46 || b == 45

abbrev pub is_host : String → Bool
is_host String.[] = true
is_host (String.◌∷◌ c s) = is_host_byte (code c) && is_host s

abbrev pub same_test : Bool → Bool → Bool
same_test a b = if a then b else not b

-- The checks of a TURN server that is enabled.
unfoldable pub validate_turn : Config → Result ConfigError (Unit {0})
validate_turn c = do
  ip ← ok_or c.turn.public_ip no_public_ip
  ensure (is_usable ip) invalid_public_ip
  ensure (same_ip c.webrtc.public_ip ip) public_ips_differ
  ensure (not (c.webrtc.udp_port == 0)) no_udp_port
  ensure
      (not (c.turn.port == 0)
        && not (c.turn.port == c.webrtc.udp_port)
        && not (c.turn.port == c.server.listen_port))
      ports_not_distinct
  ensure (not (c.turn.realm == "")) no_realm
  ensure (not (c.turn.public_host == "") && is_host c.turn.public_host) invalid_public_host
  ensure (between 300 86400 c.turn.credential_ttl_secs) invalid_ttl
  ensure
      (ltb 0 c.turn.relay_min_port
        && leb c.turn.relay_min_port c.turn.relay_max_port
        && not (between c.turn.relay_min_port c.turn.relay_max_port c.webrtc.udp_port)
        && not (between c.turn.relay_min_port c.turn.relay_max_port c.turn.port))
      invalid_relay_range
  ensure (same_test (is_some c.turn.tls_cert) (is_some c.turn.tls_key)) half_tls
  ensure
      (not (is_some c.turn.tls_cert)
        || not (c.turn.tls_port == 0)
          && not (c.turn.tls_port == c.turn.port)
          && not (c.turn.tls_port == c.server.listen_port))
      tls_port_conflict

unfoldable pub validate : Config → Result ConfigError (Unit {0})
unfolding validate_turn
validate c = do
  ensure (ltb 0 c.server.max_connections) no_connections
  if c.turn.enabled then validate_turn c else ok tt
