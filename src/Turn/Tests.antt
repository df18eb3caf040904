-- ===== src/Turn/Tests.antt =====
-- A run of the TURN service of src/turn/mod.rs: a stream client is served, another is turned away.
use mumdota.Base.{
  remove_elem, set_elem, keep, insert, find_first, ap, ℕ, ◌≡◌, refl, true, List, [], ◌∷◌, some,
  string_eq, lookup, err, All,
}
use mumdota.Config.{Config, default_turn, default_media_port}
use mumdota.Credentials.{
  Draw, Credential, new, issue_at, choose, retain, authenticate_at, unknown_credential,
}
use mumdota.Turn.{
  TurnService, has, start, new_server, list_server, make_server, ask_servers, run, step, Step,
  accepts, makes, serves, ends, issues, revoke, ice_urls, decimal_on, on_accept, serve_client,
  end_client, ice_config,
}
use mumdota.Turn.Slots.{Conserved, Tracked, run-Tracked}
use mumdota.Turn.Revoked.{asked, revoke-asked}

abbrev config : Config
config = record {
  server = record {
    listen_addr = "::";
    listen_port = 8080;
    max_connections = 1;
    allowed_origins = [];
  };
  mumble = record { host = "x.org"; port = 64738; accept_invalid_certs = true };
  webrtc = record { stun_servers = []; udp_port = default_media_port; public_ip = some 7 };
  turn = record default_turn { enabled = true; public_ip = some 7; public_host = "v.x.org" };
}

abbrev draw : Draw
draw = record { username = "4600:a"; password = "p"; key = 1 ∷ [] }

abbrev steps : List Step
steps =
    accepts 0 true
    ∷ accepts 0 true
    ∷ accepts 0 true
    ∷ makes 0 1
    ∷ serves 0 1
    ∷ issues "s" 1000 draw
    ∷ makes 0 0
    ∷ ends 0 1
    ∷ accepts 0 true
    ∷ []

-- The server that waits is listed before `revoke` has the list.
abbrev meanwhile : List Step
meanwhile = serves 0 1 ∷ []

ice_urls-config :
    ice_urls config
    ≡ "stun:v.x.org:3478" ∷ "turn:v.x.org:3478?transport=udp" ∷ "turn:v.x.org:3478?transport=tcp"
      ∷ []
unfolding ice_urls decimal_on
ice_urls-config = refl

run-live : (run (start config) steps).live ≡ 2 ∷ 0 ∷ []
unfolding run step start new_server list_server make_server on_accept serve_client end_client
    ice_config set_elem keep
run-live = refl

run-Tracked-steps :
    let s = run (start config) steps in All (Conserved config) s.listeners × Tracked s
run-Tracked-steps = run-Tracked config steps

abbrev issued : Credential
issued = record {
  session = "s";
  username = "4600:a";
  password = "p";
  key = 1 ∷ [];
  expires_at = 4600;
}

run-issued : lookup "4600:a" (run (start config) steps).credentials.entries ≡ some issued
unfolding run step start new_server list_server make_server on_accept serve_client end_client
    ice_config set_elem keep lookup new issue_at retain choose insert find_first
run-issued = refl

abbrev revoked_state : TurnService
revoked_state = (revoke (run (start config) steps) "s").1

run-meanwhile :
    ((run revoked_state meanwhile).live ≡ 2 ∷ 0 ∷ [])
    × ((run revoked_state meanwhile).servers ≡ 0 ∷ 2 ∷ [])
    × ((run revoked_state meanwhile).unlisted ≡ [])
unfolding run step start new_server list_server make_server on_accept serve_client end_client
    ice_config set_elem keep revoke remove_elem
run-meanwhile = (refl, refl, refl)

revoke-asked_example :
    let s = run (start config) steps in
    let (usernames, revoked) = revoke s "s" in
    (asked 2 "4600:a" (ask_servers (run revoked meanwhile) usernames) ≡ true)
    × ((now : ℕ)
        → authenticate_at revoked.credentials "4600:a" s.credentials.realm now
          ≡ err unknown_credential)
revoke-asked_example =
    revoke-asked config steps meanwhile "s" "4600:a" 2 issued run-issued refl
      (ap (has 2) run-meanwhile.0) (ap (has 2) run-meanwhile.2)
