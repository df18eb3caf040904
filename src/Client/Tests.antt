-- ===== src/Client/Tests.antt =====
-- Runs of the control task of src/mumble/client.rs, with what the browser makes of one.
use mumdota.Base.{
  nat_eq, ◌≡◌, refl, true, false, [], ◌∷◌, ◌++◌, List, none, some, lookup, insert, ok, err, All,
}
use mumdota.Messages.{UserInfo, stream_error, connection_closed}
use mumdota.Control
use mumdota.Control.{
  ControlState, Sizes, UserState, user_state, server_sync, set_deaf, set_mute, send_chat,
  disconnect, control_run, initial_control, handle_control_packet, disconnected, MumbleEvent,
  merge_user_state,
}
use mumdota.Proto.{
  no_user_state, build_version_message, build_authenticate_message, build_user_state_deaf,
}
use mumdota.Proto.Echo.{echo, command-echoed}
use mumdota.Client.{
  Arm, received, stream_failed, stream_ended, commanded, ticked, run_client, serve, on_arm,
  on_command, version, authenticate, text_message,
}
use mumdota.Client
use mumdota.Client.Handled.{Ends, IsFarewell, packets_of, outgoing_of, run_client-handled}
use mumdota.Client.Browser.{browser-run_client}
use mumdota.Events.{EventState, initial_events, Answers, process_events}
use mumdota.Events
use mumdota.Events.Browser.{browse_all, heard}

abbrev sizes : Sizes
sizes = record { key_size = 16; block_size = 16 }

abbrev ann_state : UserState
ann_state = record no_user_state { session = some 7; name = some "Ann" }

abbrev ann : UserInfo
ann = record {
  session_id = 7;
  name = "Ann";
  channel_id = 0;
  mute = false;
  deaf = false;
  self_mute = false;
  self_deaf = false;
}

abbrev arms : List Arm
arms =
    ticked 10 true
    ∷ received (user_state ann_state)
    ∷ received (server_sync 7)
    ∷ commanded (set_deaf true) true
    ∷ commanded (send_chat 3 "lost") false
    ∷ received (user_state (record (build_user_state_deaf true) { session = some 7 }))
    ∷ stream_ended
    ∷ ticked 25 true
    ∷ []

run_client-arms :
    (run_client sizes "Ann" (ok tt) (ok tt) arms).sent
    ≡ version build_version_message
      ∷ authenticate (build_authenticate_message "Ann")
      ∷ Client.ping (record { timestamp = 10 })
      ∷ Client.user_state (record no_user_state { self_mute = some true; self_deaf = some true })
      ∷ []
unfolding run_client handle_control_packet build_user_state_deaf lookup insert
run_client-arms = refl

run_client-refused :
    (run_client sizes "Ann" (ok tt) (err "broken pipe") arms).events
    ≡ disconnected (stream_error "broken pipe") ∷ []
unfolding run_client
run_client-refused = refl

run_client-handled_example :
    let t = run_client sizes "Ann" (ok tt) (ok tt) arms in
    (handled : List Arm) × (rest : List Arm) × (last : List MumbleEvent) × (arms ≡ handled ++ rest)
    × Ends sizes handled rest last t.goes_on
    × All IsFarewell last
    × (t.control ≡ (control_run sizes initial_control (packets_of handled)).0)
    × (t.events ≡ (control_run sizes initial_control (packets_of handled)).1 ++ last)
    × (t.sent
        ≡ version build_version_message
          ∷ authenticate (build_authenticate_message "Ann")
          ∷ outgoing_of handled)
run_client-handled_example = run_client-handled sizes "Ann" arms

abbrev answers : Answers
answers = record {
  added = ok 1;
  removed = ok tt;
  now = 1700000000;
  ice = record { ice_servers = []; expires_at = none };
  offered = ok none;
  closed = false;
  started = false;
  speakers = [];
}

abbrev taken : List (Answers × Events.Arm)
taken =
    (answers, Events.mumble (Control.connected 7 [] (ann ∷ [])))
    ∷ (
      answers,
      Events.mumble (
          Control.user_state_changed (record {
            session_id = 7;
            channel_id = none;
            name = none;
            mute = none;
            deaf = none;
            self_mute = some true;
            self_deaf = some true;
          })),
    )
    ∷ []

browser-run_client_example :
    lookup 7 (browse_all [] (process_events initial_events taken).1)
    ≡ lookup 7 (run_client sizes "Ann" (ok tt) (ok tt) arms).control.users
unfolding run_client handle_control_packet heard Events.on_arm lookup insert build_user_state_deaf
browser-run_client_example =
    browser-run_client sizes "Ann" arms initial_events taken (disconnected connection_closed ∷ [])
      refl refl (tt, tt) 7

abbrev joined : ControlState
joined = record initial_control { users = (7, ann) ∷ []; is_connected = true }

command-echoed_example :
    lookup 7
      (control_run sizes joined (echo 7 (on_command joined (set_deaf true) true).sent)).0.users
    ≡ some (record ann { self_mute = true; self_deaf = true })
unfolding lookup
command-echoed_example = command-echoed sizes joined (set_deaf true) 7 ann 7 refl refl
