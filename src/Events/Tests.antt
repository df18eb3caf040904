-- ===== src/Events/Tests.antt =====
-- A run of the event loop of src/session.rs behind a run of the control loop of src/mumble/client.rs.
use mumdota.Base.{nat_eq, insert, ◌≡◌, refl, true, false, [], ◌∷◌, List, none, some, lookup, ok}
use mumdota.Messages.{UserInfo}
use mumdota.Control
use mumdota.Control.{
  ControlPacket, UserState, Sizes, user_state, user_remove, server_sync, text_message, control_run,
  initial_control, handle_control_packet, merge_user_state,
}
use mumdota.Control.Replica.{hear_all, no_tables}
use mumdota.Events.{
  initial_events, Answers, Arm, mumble, webrtc, WebrtcEvent, process_events, on_arm,
}
use mumdota.Events.Browser.{browse_all, heard, browser-control_run, process_events-browse}
use mumdota.Events.Speaking.{IsApart, process_events-IsApart}

abbrev sizes : Sizes
sizes = record { key_size = 16; block_size = 16 }

abbrev blank : UserState
blank = record {
  session = some 7;
  name = none;
  channel_id = none;
  mute = none;
  deaf = none;
  self_mute = none;
  self_deaf = none;
}

abbrev ann : UserInfo
ann = record {
  session_id = 7;
  name = "Ann";
  channel_id = 0;
  mute = false;
  deaf = false;
  self_mute = false;
  self_deaf = false;
}

abbrev bob : UserInfo
bob = record ann { session_id = 8; name = "Bob" }

abbrev packets : List ControlPacket
packets =
    user_state (record blank { name = some "Ann" })
    ∷ server_sync 7
    ∷ user_state (record blank { session = some 8; name = some "Bob" })
    ∷ user_state (record blank { mute = some true })
    ∷ text_message 8 (0 ∷ []) "hello"
    ∷ user_remove 8
    ∷ []

abbrev answers : Answers
answers = record {
  added = ok 1;
  removed = ok tt;
  now = 1700000000;
  ice = record { ice_servers = []; expires_at = none };
  offered = ok (some "sdp");
  closed = false;
  started = true;
  speakers = [];
}

abbrev arms : List (Answers × Arm)
arms =
    (answers, mumble (Control.connected 7 [] (ann ∷ [])))
    ∷ (answers, webrtc WebrtcEvent.negotiation_needed)
    ∷ (answers, mumble (Control.user_joined bob))
    ∷ (
      answers,
      mumble (
          Control.user_state_changed (record {
            session_id = 7;
            channel_id = none;
            name = none;
            mute = some true;
            deaf = none;
            self_mute = none;
            self_deaf = none;
          })),
    )
    ∷ (answers, mumble (Control.chat_message 8 0 "hello"))
    ∷ (answers, mumble (Control.user_left 8))
    ∷ []

browser-arms :
    lookup 7 (browse_all [] (process_events initial_events arms).1)
    ≡ lookup 7 (control_run sizes initial_control packets).0.users
unfolding control_run handle_control_packet heard on_arm lookup insert
browser-arms = browser-control_run sizes packets initial_events arms refl refl 7

process_events-browse_example :
    browse_all [] (process_events initial_events arms).1
    ≡ (hear_all no_tables (heard initial_events arms)).users
process_events-browse_example = process_events-browse no_tables initial_events arms

process_events-IsApart_example : IsApart (process_events initial_events arms).0
process_events-IsApart_example = process_events-IsApart initial_events arms (λ own e. cc)
