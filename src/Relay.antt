-- ===== src/Relay.antt =====
-- The TURN relay of src/turn/relay.rs, which reaches one destination only. An address is an IP and
-- a port; the relay knows IPv4 addresses only, so an IPv6 address is another constructor. What the
-- inner socket delivers is a list of datagrams, and what it sends is recorded.
pub mod Endpoint
mod Tests
use mumdota.Base.{
  Option, ℕ, ◌≡◌, Bool, true, false, not, ◌&&◌, ◌||◌, List, [], ◌∷◌, none, some, leb, ◌==◌, nat_eq,
  if◌then◌else◌, Result, ok, err, ◌>>=◌,
}

pub data IpAddr : Type 0 where
  v4 v6 : ℕ → IpAddr

pub record SocketAddr : Type 0 where
  pub ip : IpAddr
  pub port : ℕ

abbrev pub ip_eq : IpAddr → IpAddr → Bool
ip_eq (v4 a) (v4 b) = a == b
ip_eq (v6 a) (v6 b) = a == b
ip_eq _ _ = false

abbrev pub addr_eq : SocketAddr → SocketAddr → Bool
addr_eq a b = ip_eq a.ip b.ip && a.port == b.port

-- 127.0.0.1
abbrev pub localhost : IpAddr
localhost = v4 0x7f000001

pub data RelayError : Type 0 where
  permission_denied unsupported socket_error : RelayError

pub record Datagram : Type 0 where
  pub payload : List ℕ
  pub peer : SocketAddr

-- `MediaRelayConn`; `inbox` is what its socket will deliver before it fails, `sent` what it sent, and
-- `remote` the peer that its socket is connected to.
pub record MediaRelayConn : Type 0 where
  pub public_ip : ℕ
  pub media_port : ℕ
  pub inbox : List Datagram
  pub remote : Option SocketAddr
  pub sent : List Datagram

unfoldable pub target : MediaRelayConn → SocketAddr → Result RelayError SocketAddr
target c addr =
    if not (addr.port == c.media_port) || not (ip_eq addr.ip (v4 c.public_ip))
    then err permission_denied
    else ok (record { ip = localhost; port = c.media_port })

-- Whether the inner socket sends or connects is an argument.
unfoldable pub send_to :
    MediaRelayConn → List ℕ → SocketAddr → Bool → Result RelayError (Unit {0}) × MediaRelayConn
unfolding target
send_to c payload addr passes = elim (target c addr) [
  | err e ↦ (err e, c)
  | ok local ↦
      if passes
      then (ok tt, record c { sent = record { payload = payload; peer = local } ∷ c.sent })
      else (err socket_error, c)
]

-- The loop of `recv_from`: the first datagram from the local media endpoint, under its public
-- name, and what is left of the inbox.
unfoldable pub recv_loop : ℕ → ℕ → List Datagram → Result RelayError Datagram × List Datagram
recv_loop public_ip media_port [] = (err socket_error, [])
recv_loop public_ip media_port (d ∷ inbox) =
    let rest = recv_loop public_ip media_port inbox in
    if addr_eq d.peer (record { ip = localhost; port = media_port })
    then (
      ok (record { payload = d.payload; peer = record { ip = v4 public_ip; port = media_port } }),
      inbox,
    )
    else rest

unfoldable pub recv_from : MediaRelayConn → Result RelayError Datagram × MediaRelayConn
unfolding recv_loop
recv_from c =
    let (result, inbox) = recv_loop c.public_ip c.media_port c.inbox in
    (result, record c { inbox = inbox })

unfoldable pub connect :
    MediaRelayConn → SocketAddr → Bool → Result RelayError (Unit {0}) × MediaRelayConn
unfolding target
connect c addr passes = elim (target c addr) [
  | err e ↦ (err e, c)
  | ok local ↦ if passes then (ok tt, record c { remote = some local }) else (err socket_error, c)
]

-- `send` goes to the peer that the socket is connected to, and fails without one, or as the socket does.
unfoldable pub send : MediaRelayConn → List ℕ → Bool → Result RelayError (Unit {0}) × MediaRelayConn
send c payload passes = elim c.remote [
  | none ↦ (err socket_error, c)
  | some peer ↦
      if passes
      then (ok tt, record c { sent = record { payload = payload; peer = peer } ∷ c.sent })
      else (err socket_error, c)
]

abbrev pub payload_of : Result RelayError Datagram → Result RelayError (List ℕ)
payload_of (err e) = err e
payload_of (ok d) = ok d.payload

unfoldable pub recv : MediaRelayConn → Result RelayError (List ℕ) × MediaRelayConn
unfolding recv_from
recv c = let (result, c') = recv_from c in (payload_of result, c')

-- `MediaRelayGenerator`, over what the inner generator answers.
pub record MediaRelayGenerator : Type 0 where
  pub min_port : ℕ
  pub max_port : ℕ
  pub public_ip : ℕ
  pub media_port : ℕ

unfoldable pub allocate_conn :
    MediaRelayGenerator
    → Bool
    → ℕ
    → Result RelayError SocketAddr
    → Result RelayError (MediaRelayConn × SocketAddr)
allocate_conn g ipv4 port answer =
    if not ipv4 || (not (port == 0) && not (leb g.min_port port && leb port g.max_port))
    then err unsupported
    else do
      addr ← answer
      ok (
        record {
          public_ip = g.public_ip;
          media_port = g.media_port;
          inbox = [];
          remote = none;
          sent = [];
        },
        addr,
      )
