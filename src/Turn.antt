-- ===== src/Turn.antt =====
-- The TURN service of src/turn/mod.rs: its listeners with their slots, the servers that it makes of the
-- `turn` crate, and the credentials that it hands out and takes back. A server is known by its number:
-- `servers` is the list of weak references, `live` has the numbers whose server is still held, and
-- `unlisted` those of the servers whose `make_server` waits for the lock of the list.
-- The outcomes of the network and of `Server::new` are arguments of the steps.
pub mod Slots
pub mod Revoked
mod Tests
use Prim.Native.String.{◌++◌ as ◌<>◌}
use mumdota.Base.{
  zero, ◌/◌, ◌%◌, set_elem, remove_elem, ℕ, ◌+◌, ◌-◌, ◌*◌, suc, Bool, true, false, not, ◌&&◌,
  String, List, [], ◌∷◌, ◌++◌, map, Option, none, some, ◌==◌, nat_eq, ltb, is_some, any, keep,
  get_elem?, if◌then◌else◌,
}
use mumdota.Config.{Config}
use mumdota.Credentials.{Credentials, new, Draw, IceConfig, issue_at, revoke as revoke_credentials}

pub data Client : Type 0 where
  handshaking : Client
  making : ℕ → Client
  serving : ℕ → Client

-- The state of an `accept_streams` loop.
pub record Listener : Type 0 where
  pub is_open : Bool
  pub slots : ℕ
  pub clients : List Client

pub record TurnService : Type 0 where
  pub config : Config
  pub credentials : Credentials
  pub servers : List ℕ
  pub live : List ℕ
  pub unlisted : List ℕ
  pub next_server : ℕ
  pub shutdown : Bool
  pub listeners : List Listener

abbrev pub has : ℕ → List ℕ → Bool
has id ids = any (λ s. s == id) ids

abbrev pub new_listener : Config → Listener
new_listener config = record {
  is_open = true;
  slots = config.server.max_connections * 2;
  clients = [];
}

-- `make_server` up to its second await, when `Server::new` succeeds.
unfoldable pub new_server : TurnService → TurnService
new_server s = record s {
  live = s.next_server ∷ s.live;
  unlisted = s.next_server ∷ s.unlisted;
  next_server = suc s.next_server;
}

-- The rest of `make_server`, under the lock: dead references go, the new one is added.
unfoldable pub list_server : ℕ → TurnService → TurnService
list_server id s = record s {
  servers = keep (λ n. has n s.live) s.servers ++ id ∷ [];
  unlisted = keep (λ n. not (n == id)) s.unlisted;
}

abbrev pub bound : Config → TurnService
bound config = record {
  config = config;
  credentials = new config.turn.realm config.turn.credential_ttl_secs;
  servers = [];
  live = [];
  unlisted = [];
  next_server = 0;
  shutdown = false;
  listeners =
      if is_some config.turn.tls_cert && is_some config.turn.tls_key
      then new_listener config ∷ new_listener config ∷ []
      else new_listener config ∷ [];
}

-- `start` with listeners that could be bound: the first server is that of the UDP socket, and nothing
-- else uses the service yet.
unfoldable pub start : Config → TurnService
unfolding new_server list_server
start config = list_server 0 (new_server (bound config))

-- A stream arrives, or `accept` fails and the loop ends.
unfoldable pub on_accept : Bool → Listener → Listener
on_accept is_accepted l =
    if not l.is_open
    then l
    else if not is_accepted
    then record l { is_open = false }
    else if ltb 0 l.slots
    then record l { slots = l.slots - 1; clients = handshaking ∷ l.clients }
    else l

abbrev pub update : TurnService → ℕ → Option Listener → (Listener → Listener) → TurnService
update s i none f = s
update s i (some l) f = record s { listeners = set_elem s.listeners i (f l) }

abbrev pub with_client : ℕ → Client → Listener → Listener
with_client j client l = record l { clients = set_elem l.clients j client }

abbrev pub without_client : ℕ → Listener → Listener
without_client j l = record l { slots = suc l.slots; clients = remove_elem l.clients j }

abbrev pub client_of : Option Listener → ℕ → Option Client
client_of none j = none
client_of (some l) j = get_elem? l.clients j

abbrev pub client : TurnService → ℕ → ℕ → Option Client
client s i j = client_of (get_elem? s.listeners i) j

abbrev pub drop_server : ℕ → TurnService → TurnService
drop_server id s = record s { live = keep (λ n. not (n == id)) s.live }

-- The handshake of a client is done and its server is there.
unfoldable pub make_server : TurnService → ℕ → ℕ → Option Client → TurnService
unfolding new_server
make_server s i j (some handshaking) =
    update (new_server s) i (get_elem? s.listeners i) (with_client j (making s.next_server))
make_server s i j (some (making id)) = s
make_server s i j (some (serving id)) = s
make_server s i j none = s

-- The server of a client gets into the list, and the client is served.
unfoldable pub serve_client : TurnService → ℕ → ℕ → Option Client → TurnService
unfolding list_server
serve_client s i j (some (making id)) =
    update (list_server id s) i (get_elem? s.listeners i) (with_client j (serving id))
serve_client s i j (some handshaking) = s
serve_client s i j (some (serving id)) = s
serve_client s i j none = s

-- A client's task ends: its server, if it has one, is closed and its slot is free again. While it waits
-- for the lock it does not end.
unfoldable pub end_client : TurnService → ℕ → ℕ → Option Client → TurnService
end_client s i j (some handshaking) = update s i (get_elem? s.listeners i) (without_client j)
end_client s i j (some (making id)) = s
end_client s i j (some (serving id)) =
    update (drop_server id s) i (get_elem? s.listeners i) (without_client j)
end_client s i j none = s

unfoldable pub close : TurnService → TurnService
close s = record s { shutdown = true }

-- The loop of a listener sees the shutdown.
abbrev pub stop : Listener → Listener
stop l = record l { is_open = false }

-- `format!` of a port
abbrev pub digit : ℕ → String
digit d =
    if d == 0
    then "0"
    else if d == 1
    then "1"
    else if d == 2
    then "2"
    else if d == 3
    then "3"
    else if d == 4
    then "4"
    else if d == 5
    then "5"
    else if d == 6
    then "6"
    else if d == 7
    then "7"
    else if d == 8
    then "8"
    else "9"

-- The digits of a number of at most 20 digits, a u64, in front of a text.
unfoldable pub decimal_on : ℕ → ℕ → String → String
decimal_on zero n text = text
decimal_on (suc fuel) n text =
    let longer = digit (n % 10) <> text in
    let rest = decimal_on fuel (n / 10) longer in if ltb n 10 then longer else rest

abbrev pub decimal : ℕ → String
decimal n = decimal_on 20 n ""

abbrev pub address : String → String → ℕ → String
address scheme host port = scheme <> host <> ":" <> decimal port

unfoldable pub ice_urls : Config → List String
ice_urls config =
    let turn = config.turn in
    address "stun:" turn.public_host turn.port
    ∷ (address "turn:" turn.public_host turn.port <> "?transport=udp")
    ∷ (address "turn:" turn.public_host turn.port <> "?transport=tcp")
    ∷ (if is_some turn.tls_cert
        then (address "turns:" turn.public_host turn.tls_port <> "?transport=tcp") ∷ []
        else [])

unfoldable pub ice_config : TurnService → String → ℕ → Draw → IceConfig × TurnService
unfolding ice_urls issue_at
ice_config s session now draw =
    let (config, credentials) = issue_at s.credentials session (ice_urls s.config) now draw in
    (config, record s { credentials = credentials })

-- The calls of `delete_allocations_by_username`: for each username, on each server that is still held.
unfoldable pub deletions : List ℕ → List String → List (ℕ × String)
deletions held [] = []
deletions held (username ∷ usernames) =
    map (λ server. (server, username)) held ++ deletions held usernames

-- `revoke` up to its await: the usernames that are to be deleted.
unfoldable pub revoke : TurnService → String → List String × TurnService
unfolding revoke_credentials
revoke s session =
    let (usernames, credentials) = revoke_credentials s.credentials session in
    (usernames, record s { credentials = credentials })

-- The rest of `revoke`, when it has the lock of the list.
unfoldable pub ask_servers : TurnService → List String → List (ℕ × String)
unfolding deletions
ask_servers s usernames = deletions (keep (λ id. has id s.live) s.servers) usernames

pub data Step : Type 0 where
  accepts : ℕ → Bool → Step
  makes : ℕ → ℕ → Step
  serves : ℕ → ℕ → Step
  ends : ℕ → ℕ → Step
  udp_ends : Step
  stops : ℕ → Step
  issues : String → ℕ → Draw → Step
  revokes : String → Step
  closes : Step

unfoldable pub step : TurnService → Step → TurnService
unfolding on_accept make_server serve_client end_client ice_config revoke close
step s (accepts i is_accepted) = update s i (get_elem? s.listeners i) (on_accept is_accepted)
step s (makes i j) = make_server s i j (client s i j)
step s (serves i j) = serve_client s i j (client s i j)
step s (ends i j) = end_client s i j (client s i j)
step s udp_ends = if s.shutdown then drop_server 0 s else s
step s (stops i) = if s.shutdown then update s i (get_elem? s.listeners i) stop else s
step s (issues session now draw) = (ice_config s session now draw).1
step s (revokes session) = (revoke s session).1
step s closes = close s

unfoldable pub run : TurnService → List Step → TurnService
run s [] = s
run s (a ∷ steps) = run (step s a) steps
