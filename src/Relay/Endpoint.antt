-- ===== src/Relay/Endpoint.antt =====
-- What the relay of src/turn/relay.rs lets through, over any use of it.
use mumdota.Base.{
  Option, some, Option-cases, sym, same-some, if_cases, not, ◌||◌, ◌==◌, ℕ, ◌≡◌, refl, ap, ◌∙◌, ◌≢◌,
  ◌↔◌, true, Bool, List, [], ◌∷◌, ◌++◌, arith, nat_eq, Result, ok, err, All, Bool-cases, inl, inr,
  ◌⊎◌,
}
use mumdota.Relay.{
  IpAddr, v4, v6, SocketAddr, ip_eq, addr_eq, localhost, RelayError, permission_denied, Datagram,
  MediaRelayConn, target, connect, send, recv, send_to, recv_loop, recv_from,
}

abbrev pub public_endpoint : MediaRelayConn → SocketAddr
public_endpoint c = record { ip = v4 c.public_ip; port = c.media_port }

abbrev pub local_endpoint : MediaRelayConn → SocketAddr
local_endpoint c = record { ip = localhost; port = c.media_port }

-- A use of the relay by the TURN server; the Boolean tells whether the inner socket does its part.
pub data Use : Type 0 where
  sends : List ℕ → SocketAddr → Bool → Use
  receives : Use
  connects : SocketAddr → Bool → Use
  sends_on : List ℕ → Bool → Use
  receives_on : Use

unfoldable pub use_relay : MediaRelayConn → List Use → MediaRelayConn
use_relay c [] = c
use_relay c (sends payload addr passes ∷ uses) = use_relay (send_to c payload addr passes).1 uses
use_relay c (receives ∷ uses) = use_relay (recv_from c).1 uses
use_relay c (connects addr passes ∷ uses) = use_relay (connect c addr passes).1 uses
use_relay c (sends_on payload passes ∷ uses) = use_relay (send c payload passes).1 uses
use_relay c (receives_on ∷ uses) = use_relay (recv c).1 uses

ip_eq_iff : (a b : IpAddr) → (ip_eq a b ≡ true) ↔ (a ≡ b)
ip_eq_iff (v4 a) (v4 b) = ground arith
ip_eq_iff (v6 a) (v6 b) = ground arith
ip_eq_iff (v4 a) (v6 b) = ground arith
ip_eq_iff (v6 a) (v4 b) = ground arith

addr_eq_iff : (a b : SocketAddr) → (addr_eq a b ≡ true) ↔ (a ≡ b)
addr_eq_iff a b = ground (arith, ip_eq_iff a.ip b.ip)

-- Where the socket sends, `send_to` reaches the media port on the loopback address when it is asked for the public media
-- endpoint, with the payload unchanged; for any other destination it is refused and sends nothing.
pub send_to_cases :
    (c : MediaRelayConn) (payload : List ℕ) (addr : SocketAddr)
    → ((addr ≡ public_endpoint c)
        × (send_to c payload addr true ≡ (
          ok tt,
          record c { sent = record { payload = payload; peer = local_endpoint c } ∷ c.sent },
        )))
      ⊎ ((addr ≢ public_endpoint c) × (send_to c payload addr true ≡ (err permission_denied, c)))
unfolding send_to
send_to_cases c payload addr = elim (Bool-cases (addr_eq addr (public_endpoint c))) [
  | inl asked ↦
      let same = (addr_eq_iff addr (public_endpoint c)).0 asked in
      inl (same, ground (arith, ip_eq_iff addr.ip (v4 c.public_ip)))
  | inr strange ↦
      inr (λ same. ground (arith, (addr_eq_iff addr (public_endpoint c)).1 same), ground arith)
]

-- Everything sent went to the media port on the loopback address.
abbrev pub Contained : ℕ → List Datagram → Type 0
Contained port sent = All (λ d. d.peer ≡ record { ip = localhost; port = port }) sent

-- A peer that the socket is connected to is the media port on the loopback address.
abbrev pub IsLocal : ℕ → Option SocketAddr → Type 0
IsLocal port remote =
    (peer : SocketAddr) → remote ≡ some peer → peer ≡ record { ip = localhost; port = port }

abbrev IsContained : ℕ → MediaRelayConn → Type 0
IsContained port c = (c.media_port ≡ port) × Contained port c.sent × IsLocal port c.remote

target-local :
    (c : MediaRelayConn) (addr : SocketAddr)
    → (target c addr ≡ ok (local_endpoint c)) ⊎ (target c addr ≡ err permission_denied)
unfolding target
target-local c addr =
    if_cases (λ r. (r ≡ ok (local_endpoint c)) ⊎ (r ≡ err permission_denied))
      (not (addr.port == c.media_port) || not (ip_eq addr.ip (v4 c.public_ip))) _ _ (inr refl)
      (inl refl)

local-port :
    (port : ℕ) (c : MediaRelayConn)
    → c.media_port ≡ port
    → local_endpoint c ≡ record { ip = localhost; port = port }
local-port port c same = ap (λ p. record { ip = localhost; port = p }) same

abbrev Reply : Type 0
Reply = Result RelayError (Unit {0}) × MediaRelayConn

send_to-IsContained :
    (port : ℕ) (c : MediaRelayConn) (payload : List ℕ) (addr : SocketAddr) (passes : Bool)
    → IsContained port c
    → IsContained port (send_to c payload addr passes).1
unfolding send_to
send_to-IsContained port c payload addr passes (same, sent, remote) = elim (target-local c addr) [
  | inl allowed ↦
      rw (send_to, allowed)
        (if_cases (λ (r : Reply). IsContained port r.1) passes _ _
          (same, (local-port port c same, sent), remote) (same, sent, remote))
  | inr refused ↦ rw (send_to, refused) (same, sent, remote)
]

connect-IsContained :
    (port : ℕ) (c : MediaRelayConn) (addr : SocketAddr) (passes : Bool)
    → IsContained port c
    → IsContained port (connect c addr passes).1
unfolding connect
connect-IsContained port c addr passes (same, sent, remote) = elim (target-local c addr) [
  | inl allowed ↦
      rw (connect, allowed)
        (if_cases (λ (r : Reply). IsContained port r.1) passes _ _
          (same, sent, λ peer e. sym (same-some e) ∙ local-port port c same) (same, sent, remote))
  | inr refused ↦ rw (connect, refused) (same, sent, remote)
]

send-IsContained :
    (port : ℕ) (c : MediaRelayConn) (payload : List ℕ) (passes : Bool)
    → IsContained port c
    → IsContained port (send c payload passes).1
unfolding send
send-IsContained port c payload passes (same, sent, remote) = elim (Option-cases c.remote) [
  | inl absent ↦ rw (send, absent) (same, sent, remote)
  | inr (peer, there) ↦
      rw (send, there)
        (if_cases (λ (r : Reply). IsContained port r.1) passes _ _
          (same, (remote peer there, sent), remote) (same, sent, remote))
]

use_relay-IsContained :
    (port : ℕ) (c : MediaRelayConn) (uses : List Use)
    → IsContained port c
    → IsContained port (use_relay c uses)
unfolding use_relay recv_from recv
use_relay-IsContained port c [] h = h
use_relay-IsContained port c (sends payload addr passes ∷ uses) h =
    use_relay-IsContained port (send_to c payload addr passes).1 uses
      (send_to-IsContained port c payload addr passes h)
use_relay-IsContained port c (receives ∷ uses) h = use_relay-IsContained port (recv_from c).1 uses h
use_relay-IsContained port c (connects addr passes ∷ uses) h =
    use_relay-IsContained port (connect c addr passes).1 uses
      (connect-IsContained port c addr passes h)
use_relay-IsContained port c (sends_on payload passes ∷ uses) h =
    use_relay-IsContained port (send c payload passes).1 uses
      (send-IsContained port c payload passes h)
use_relay-IsContained port c (receives_on ∷ uses) h = use_relay-IsContained port (recv c).1 uses h

-- If all that a relay has sent went to the media port on the loopback address, and its socket is
-- connected to nothing else (a fresh relay has sent nothing and is not connected), this stays so
-- whatever destinations its users ask for, in whatever order they connect, send and receive, and
-- whichever of these the socket refuses.
pub use_relay-Contained :
    (c : MediaRelayConn) (uses : List Use)
    → Contained c.media_port c.sent
    → IsLocal c.media_port c.remote
    → Contained c.media_port (use_relay c uses).sent
      × IsLocal c.media_port (use_relay c uses).remote
use_relay-Contained c uses sent remote =
    let (same, contained, local) = use_relay-IsContained c.media_port c uses (refl, sent, remote) in
    (contained, local)

recv_loop-skips :
    (public_ip media_port : ℕ) (strangers inbox : List Datagram) (payload : List ℕ)
    → All (λ d. d.peer ≢ record { ip = localhost; port = media_port }) strangers
    → recv_loop public_ip media_port (
        strangers
        ++ record { payload = payload; peer = record { ip = localhost; port = media_port } }
          ∷ inbox)
      ≡ (
        ok (record { payload = payload; peer = record { ip = v4 public_ip; port = media_port } }),
        inbox,
      )
unfolding recv_loop
recv_loop-skips public_ip media_port [] inbox payload h = ground arith
recv_loop-skips public_ip media_port (d ∷ strangers) inbox payload (strange, h) = ground (
  arith,
  addr_eq_iff d.peer (record { ip = localhost; port = media_port }),
  recv_loop-skips public_ip media_port strangers inbox payload h,
)

-- `recv_from` passes over datagrams from anyone but the local media endpoint, and hands the next
-- one from there up under the public media endpoint, with its payload unchanged.
pub recv_from-skips :
    (c : MediaRelayConn) (strangers inbox : List Datagram) (payload : List ℕ)
    → All (λ d. d.peer ≢ local_endpoint c) strangers
    → c.inbox ≡ strangers ++ record { payload = payload; peer = local_endpoint c } ∷ inbox
    → recv_from c
      ≡ (ok (record { payload = payload; peer = public_endpoint c }), record c { inbox = inbox })
unfolding recv_from
recv_from-skips c strangers inbox payload h e =
    let skipped =
      ap (recv_loop c.public_ip c.media_port) e
      ∙ recv_loop-skips c.public_ip c.media_port strangers inbox payload h in
    ap (λ (r : Result RelayError Datagram × List Datagram). (r.0, record c { inbox = r.1 })) skipped
