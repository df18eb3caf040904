-- ===== src/Client.antt =====
-- The task of src/mumble/client.rs that holds the control connection: its greeting, and one arm of its
-- `select!` at a time. Whether a packet could be sent is an argument of the arm that sends it. A turn
-- gives the events reported and the packets sent, both in order.
pub mod Handled
pub mod Browser
mod Tests
use mumdota.Base.{ℕ, Bool, true, false, String, List, [], ◌∷◌, ◌++◌, Result, ok, err, if◌then◌else◌}
use mumdota.Messages.{stream_error, connection_closed}
use mumdota.Control.{
  MumbleEvent, disconnected, MumbleCommand, send_chat, join_channel, set_mute, set_deaf, disconnect,
  UserState, ControlPacket, ControlState, initial_control, Sizes, handle_control_packet,
}
use mumdota.Proto.{
  Version, Authenticate, TextMessage, Ping, build_version_message, build_authenticate_message,
  build_text_message, build_user_state_channel, build_user_state_mute, build_user_state_deaf,
  build_ping,
}

pub data Outgoing : Type 0 where
  version : Version → Outgoing
  authenticate : Authenticate → Outgoing
  text_message : TextMessage → Outgoing
  user_state : UserState → Outgoing
  ping : Ping → Outgoing

-- The arms: a packet, an error of the stream with its text, the end of the stream, a command, the end
-- of the commands, and a tick at a time. The Boolean tells whether the arm's packet went out.
pub data Arm : Type 0 where
  received : ControlPacket → Arm
  stream_failed : String → Arm
  stream_ended : Arm
  commanded : MumbleCommand → Bool → Arm
  commands_ended : Arm
  ticked : ℕ → Bool → Arm

pub record Turn : Type 0 where
  pub control : ControlState
  pub events : List MumbleEvent
  pub sent : List Outgoing
  pub goes_on : Bool

abbrev pub when_sent : Bool → Outgoing → List Outgoing
when_sent true packet = packet ∷ []
when_sent false packet = []

-- An arm that sends a packet, or fails to, and goes on.
abbrev pub sending : ControlState → Bool → Outgoing → Turn
sending s is_sent packet = record {
  control = s;
  events = [];
  sent = when_sent is_sent packet;
  goes_on = true;
}

abbrev pub ending : ControlState → List MumbleEvent → Turn
ending s events = record { control = s; events = events; sent = []; goes_on = false }

unfoldable pub on_command : ControlState → MumbleCommand → Bool → Turn
unfolding build_text_message build_user_state_channel build_user_state_mute build_user_state_deaf
on_command s (send_chat channel_id message) is_sent =
    sending s is_sent (text_message (build_text_message channel_id message))
on_command s (join_channel channel_id) is_sent =
    sending s is_sent (user_state (build_user_state_channel channel_id))
on_command s (set_mute muted) is_sent = sending s is_sent (user_state (build_user_state_mute muted))
on_command s (set_deaf deafened) is_sent =
    sending s is_sent (user_state (build_user_state_deaf deafened))
on_command s disconnect is_sent = ending s []

unfoldable pub on_arm : Sizes → ControlState → Arm → Turn
unfolding on_command build_ping
on_arm sizes s (received packet) =
    let (s', events, goes_on) = handle_control_packet sizes s packet in
    record { control = s'; events = events; sent = []; goes_on = goes_on }
on_arm sizes s (stream_failed e) = ending s (disconnected (stream_error e) ∷ [])
on_arm sizes s stream_ended = ending s (disconnected connection_closed ∷ [])
on_arm sizes s (commanded cmd is_sent) = on_command s cmd is_sent
on_arm sizes s commands_ended = ending s []
on_arm sizes s (ticked now is_sent) = sending s is_sent (ping (build_ping now))

-- The loop, until an arm ends it.
unfoldable pub serve : Sizes → ControlState → List Arm → Turn
unfolding on_arm
serve sizes s [] = record { control = s; events = []; sent = []; goes_on = true }
serve sizes s (a ∷ arms) =
    let t = on_arm sizes s a in
    let rest = serve sizes t.control arms in
    if t.goes_on
    then record rest { events = t.events ++ rest.events; sent = t.sent ++ rest.sent }
    else t

-- The task: the version, the authentication, then the loop.
unfoldable pub run_client :
    Sizes → String → Result String (Unit {0}) → Result String (Unit {0}) → List Arm → Turn
unfolding serve build_version_message build_authenticate_message
run_client sizes username (err e) authenticating arms =
    ending initial_control (disconnected (stream_error e) ∷ [])
run_client sizes username (ok done) (err e) arms = record (ending initial_control []) {
  events = disconnected (stream_error e) ∷ [];
  sent = version build_version_message ∷ [];
}
run_client sizes username (ok done) (ok done') arms =
    let served = serve sizes initial_control arms in
    record served {
      sent =
          version build_version_message
          ∷ authenticate (build_authenticate_message username)
          ∷ served.sent;
    }
