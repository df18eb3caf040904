-- ===== src/Handler.antt =====
-- One WebSocket connection, src/ws/handler.rs. The session manager is behind an interface here,
-- `Manager`: each of its methods takes its state and gives the new one, with the error that the
-- handler reports. What the socket, the clock and the sender task do is a list of `Incoming`: a text
-- that parses, or not, is given by what the JSON parser makes of it. Messages sent are newest first.
pub mod Guards
mod Tests
use Prim.Native.Char.{code}
use Prim.Native.String.{len}
use mumdota.Base.{
  ℕ, Bool, true, false, not, ◌&&◌, ◌||◌, String, List, [], ◌∷◌, Option, none, some, any, ltb, leb,
  ◌==◌, nat_eq, if◌then◌else◌, Result, ok, err,
}
use mumdota.Messages.{
  ClientMessage, connect, disconnect, client_offer, answer, start_voice, ice_restart, ice_refresh,
  client_candidate, chat_send, channel_join, mute, deafen, ServerMessage, ErrorText, text, foreign,
  IceCandidateData,
}

-- `char::is_whitespace`: the characters with the property White_Space.
abbrev pub is_whitespace : ℕ → Bool
is_whitespace c =
    (leb 9 c && leb c 13)
    || (leb 8192 c && leb c 8202)
    || any (λ w. c == w) (32 ∷ 133 ∷ 160 ∷ 5760 ∷ 8232 ∷ 8233 ∷ 8239 ∷ 8287 ∷ 12288 ∷ [])

-- `trim().is_empty()`
abbrev pub is_blank : String → Bool
is_blank String.[] = true
is_blank (String.◌∷◌ c s) = is_whitespace (code c) && is_blank s

-- A method of the manager, called for one connection.
abbrev pub Method : Type 0 → Type 0
Method M = M → Result ErrorText (Unit {0}) × M

pub record Manager (M : Type 0) : Type 0 where
  pub connect_user : String → Method M
  pub disconnect_user : M → M
  pub revoke_turn : M → M
  pub handle_answer : String → Method M
  pub begin_voice : Bool → Method M
  pub refresh_ice : Method M
  pub add_ice_candidate : IceCandidateData → Method M
  pub send_chat : ℕ → String → Method M
  pub join_channel : ℕ → Method M
  pub set_mute : Bool → Method M
  pub set_deaf : Bool → Method M
  -- What a call for a message has done when it is dropped at one of its awaits.
  pub cancelled : ClientMessage → M → M

-- What wakes the loop: a text with the message it parses to, or the number of the parser's error,
-- another frame, or one of the events that end the loop. The Boolean of `parsed` tells whether the
-- handler of the message returned within its 15 seconds.
pub data Incoming : Type 0 where
  parsed : ClientMessage → Bool → Incoming
  unparsed : ℕ → Incoming
  other_frame : Incoming
  close_frame socket_error deadline stopping sender_ended : Incoming

pub record Connection (M : Type 0) : Type 0 where
  pub manager : M
  pub first_message : Bool
  pub sent : List ServerMessage

abbrev pub new_connection : {M : Type 0} → M → Connection M
new_connection manager = record { manager = manager; first_message = true; sent = [] }

abbrev pub is_connect : ClientMessage → Bool
is_connect (connect username) = true
is_connect _ = false

abbrev pub is_disconnect : ClientMessage → Bool
is_disconnect disconnect = true
is_disconnect _ = false

abbrev pub is_invalid_username : String → Bool
is_invalid_username username = is_blank username || ltb 128 (len username)

-- The state after a method, with its error as a message.
abbrev pub report :
    {M : Type 0}
    → String
    → List ServerMessage
    → Result ErrorText (Unit {0}) × M
    → M × List ServerMessage
report code sent (ok done, m) = (m, sent)
report code sent (err e, m) = (m, ServerMessage.error code e ∷ sent)

module _ {M : Type 0} (manager : Manager M) where
  unfoldable pub handle_client_message :
      M → List ServerMessage → ClientMessage → M × List ServerMessage
  handle_client_message m sent (connect username) =
      if is_invalid_username username
      then (m, ServerMessage.error "connect_failed" (text "invalid username") ∷ sent)
      else report "connect_failed" sent (manager.connect_user username m)
  handle_client_message m sent disconnect = (manager.disconnect_user m, sent)
  handle_client_message m sent (client_offer sdp) = (
    m,
    ServerMessage.error "upgrade_required" (
          text
            "MumDota protocol v2 requires start_voice and server SDP offers; refresh the web client")
        ∷ sent,
  )
  handle_client_message m sent (answer sdp) =
      report "voice_error" sent (manager.handle_answer sdp m)
  handle_client_message m sent start_voice = report "voice_error" sent (manager.begin_voice false m)
  handle_client_message m sent ice_restart = report "voice_error" sent (manager.begin_voice true m)
  handle_client_message m sent ice_refresh = report "voice_error" sent (manager.refresh_ice m)
  handle_client_message m sent (client_candidate candidate_data) =
      report "ice_failed" sent (manager.add_ice_candidate candidate_data m)
  handle_client_message m sent (chat_send channel_id message) =
      if ltb 4096 (len message)
      then (m, ServerMessage.error "chat_failed" (text "message exceeds 4096 bytes") ∷ sent)
      else report "chat_failed" sent (manager.send_chat channel_id message m)
  handle_client_message m sent (channel_join channel_id) =
      report "channel_join_failed" sent (manager.join_channel channel_id m)
  handle_client_message m sent (mute muted) = report "mute_failed" sent (manager.set_mute muted m)
  handle_client_message m sent (deafen deafened) =
      report "deafen_failed" sent (manager.set_deaf deafened m)

  -- A message that parses: the new state, and whether the loop goes on.
  unfoldable pub on_message : Connection M → ClientMessage → Bool → Connection M × Bool
  unfolding handle_client_message
  on_message c message is_handled =
      if c.first_message && not (is_connect message)
      then (c, false)
      else (let past : Connection M = record c { first_message = false } in
          if is_disconnect message
          then (past, false)
          else if is_handled
          then (let (m, sent) = handle_client_message c.manager c.sent message in
              (record past { manager = m; sent = sent }, true))
          else (record past { manager = manager.cancelled message c.manager }, false))

  unfoldable pub on_incoming : Connection M → Incoming → Connection M × Bool
  unfolding on_message
  on_incoming c (parsed message is_handled) = on_message c message is_handled
  on_incoming c (unparsed e) =
      (record c { sent = ServerMessage.error "invalid_message" (foreign e) ∷ c.sent }, true)
  on_incoming c other_frame = (c, true)
  on_incoming c close_frame = (c, false)
  on_incoming c socket_error = (c, false)
  on_incoming c deadline = (c, false)
  on_incoming c stopping = (c, false)
  on_incoming c sender_ended = (c, false)

  -- The loop, until something ends it.
  unfoldable pub serve : Connection M → List Incoming → Connection M
  unfolding on_incoming
  serve c [] = c
  serve c (i ∷ is) =
      let (c', goes_on) = on_incoming c i in let rest = serve c' is in if goes_on then rest else c'

  unfoldable pub handle_ws_connection : M → List Incoming → Connection M
  unfolding serve
  handle_ws_connection m is =
      let c = serve (new_connection m) is in
      record c { manager = manager.revoke_turn (manager.disconnect_user c.manager) }
