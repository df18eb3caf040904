-- ===== src/Relay/Tests.antt =====
-- Runs of the relay of src/turn/relay.rs, on the addresses of its own test.
use mumdota.Base.{true, false, none, ℕ, ◌≡◌, ◌≢◌, ◌⊎◌, refl, [], ◌∷◌, List, arith, ok, err}
use mumdota.Relay
use mumdota.Relay.{
  IpAddr, v4, SocketAddr, localhost, Datagram, MediaRelayConn, recv_from, allocate_conn,
  unsupported, permission_denied,
}
use mumdota.Relay.Endpoint.{
  public_endpoint, local_endpoint, Use, sends, receives, connects, sends_on, IsLocal, use_relay,
  Contained, use_relay-Contained, recv_from-skips, send_to_cases,
}

abbrev addr : ℕ → ℕ → SocketAddr
addr ip port = record { ip = v4 ip; port = port }

abbrev relay : List Datagram → MediaRelayConn
relay inbox = record {
  public_ip = 0xcb007107;
  media_port = 50000;
  inbox = inbox;
  remote = none;
  sent = [];
}

abbrev metadata : SocketAddr
metadata = addr 0xa9fea9fe 80

abbrev attempts : List Use
attempts =
    sends (1 ∷ []) metadata true
    ∷ sends (2 ∷ []) (addr 0xcb007107 22) true
    ∷ receives
    ∷ sends (3 ∷ []) (addr 0xcb007107 50000) true
    ∷ sends_on (4 ∷ []) true
    ∷ connects metadata true
    ∷ connects (addr 0xcb007107 50000) true
    ∷ sends_on (6 ∷ []) false
    ∷ sends_on (5 ∷ []) true
    ∷ []

use_relay-attempts :
    (use_relay (relay []) attempts).sent
    ≡ record { payload = 5 ∷ []; peer = addr 0x7f000001 50000 }
      ∷ record { payload = 3 ∷ []; peer = addr 0x7f000001 50000 }
      ∷ []
unfolding use_relay Relay.send_to recv_from Relay.connect Relay.send Relay.recv
use_relay-attempts = refl

use_relay-Contained_example :
    Contained 50000 (use_relay (relay []) attempts).sent
    × IsLocal 50000 (use_relay (relay []) attempts).remote
use_relay-Contained_example = use_relay-Contained (relay []) attempts tt (λ peer e. cc)

abbrev stranger : Datagram
stranger = record { payload = 9 ∷ []; peer = metadata }

abbrev reply : Datagram
reply = record { payload = 4 ∷ []; peer = addr 0x7f000001 50000 }

recv_from-stray :
    recv_from (relay (stranger ∷ reply ∷ []))
    ≡ (ok (record { payload = 4 ∷ []; peer = addr 0xcb007107 50000 }), relay [])
recv_from-stray =
    recv_from-skips (relay (stranger ∷ reply ∷ [])) (stranger ∷ []) [] (4 ∷ []) (ground arith, tt)
      refl

send_to_cases-relay :
    ((metadata ≡ public_endpoint (relay []))
      × (Relay.send_to (relay []) (1 ∷ []) metadata true ≡ (
        ok tt,
        record {
          public_ip = 0xcb007107;
          media_port = 50000;
          inbox = [];
          remote = none;
          sent = record { payload = 1 ∷ []; peer = local_endpoint (relay []) } ∷ [];
        },
      )))
    ⊎ ((metadata ≢ public_endpoint (relay []))
        × (Relay.send_to (relay []) (1 ∷ []) metadata true ≡ (err permission_denied, relay [])))
send_to_cases-relay = send_to_cases (relay []) (1 ∷ []) metadata
