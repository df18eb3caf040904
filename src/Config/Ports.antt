-- ===== src/Config/Ports.antt =====
-- What the check of src/config.rs guarantees to the listeners and to the credentials.
use mumdota.Base.{
  ℕ, ◌≤◌, ◌<◌, ◌≢◌, ◌≡◌, true, String, Option, none, some, arith, nat_eq, string_eq, ok,
  Option-cases, inl, inr, length,
}
use mumdota.Credentials.{Credentials}
use mumdota.Credentials.Expiries.{expiries}
use mumdota.Credentials.Bounds.{Reach, Reach-bound}
use mumdota.Config.{Config, validate, validate_turn, same_ip}

-- The guarantees for the media port, the relay and the TURN listeners.
pub record SeparatePorts (c : Config) : Type 0 where
  pub public_ip : (ip : ℕ) × (c.turn.public_ip ≡ some ip) × (c.webrtc.public_ip ≡ some ip)
  pub udp : (c.turn.port ≢ c.webrtc.udp_port) × (0 < c.webrtc.udp_port) × (0 < c.turn.port)
  pub relay :
      (p : ℕ)
      → c.turn.relay_min_port ≤ p
      → p ≤ c.turn.relay_max_port
      → (0 < p) × (p ≢ c.webrtc.udp_port) × (p ≢ c.turn.port)
  pub some_relay_port : c.turn.relay_min_port ≤ c.turn.relay_max_port
  pub tcp : c.turn.port ≢ c.server.listen_port
  pub tls :
      (cert : String)
      → c.turn.tls_cert ≡ some cert
      → ((key : String) × (c.turn.tls_key ≡ some key))
        × (c.turn.tls_port ≢ c.turn.port)
        × (c.turn.tls_port ≢ c.server.listen_port)
  pub ttl : (300 ≤ c.turn.credential_ttl_secs) × (c.turn.credential_ttl_secs ≤ 86400)

same_ip_lem : (o : Option ℕ) (ip : ℕ) → same_ip o ip ≡ true → o ≡ some ip
same_ip_lem none ip h = cc
same_ip_lem (some a) ip h = ground arith

validate_turn-SeparatePorts : (c : Config) → validate_turn c ≡ ok tt → SeparatePorts c
unfolding validate_turn
validate_turn-SeparatePorts c h = elim (Option-cases c.turn.public_ip) [
  | inl missing ↦ absurd (ground arith)
  | inr (ip, here) ↦ record {
    public_ip = (ip, here, ground (arith, same_ip_lem c.webrtc.public_ip ip));
    udp = ground arith;
    relay = λ p low high. ground arith;
    some_relay_port = ground arith;
    tcp = ground arith;
    tls = λ cert named. elim (Option-cases c.turn.tls_key) [
      | inl half ↦ absurd (ground arith)
      | inr (key, both) ↦ ((key, both), ground arith, ground arith)
    ];
    ttl = ground arith;
  }
]

-- A configuration with TURN that passes `validate`: media and TURN share one public address; the media
-- port, the TURN port and every port of the relay range are nonzero and differ from one another where
-- they are UDP; the TCP listeners of TURN, with TLS if it is configured, are apart from the web
-- server's; a certificate comes with its key; and credentials live from 300 to 86400 seconds.
pub validate-SeparatePorts :
    (c : Config) → c.turn.enabled ≡ true → validate c ≡ ok tt → SeparatePorts c
unfolding validate
validate-SeparatePorts c enabled h =
    let checked : validate_turn c ≡ ok tt = ground arith in validate_turn-SeparatePorts c checked

-- With a configuration with TURN that passes `validate`, however often and in whatever order sessions
-- refresh and are revoked, the store of credentials never holds more than two of a session.
pub validate-credentials :
    (c : Config) (cs : Credentials) (now : ℕ)
    → c.turn.enabled ≡ true
    → validate c ≡ ok tt
    → Reach c.turn.realm c.turn.credential_ttl_secs cs now
    → (session : String) → length (expiries session cs.entries) ≤ 2
validate-credentials c cs now enabled h reached session =
    let (longer, _) = (validate-SeparatePorts c enabled h).ttl in
    (Reach-bound (omega arith) reached session).0
