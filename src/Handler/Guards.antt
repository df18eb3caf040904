-- ===== src/Handler/Guards.antt =====
-- What src/ws/handler.rs lets through to the session manager.
use Prim.Native.String.{len}
use mumdota.Base.{
  ◌≤◌, ◌≡◌, refl, inl, inr, Bool, true, false, not, ◌&&◌, String, List, [], ◌∷◌, arith, ltb,
  Bool-cases, if_cases, Result, ok, err, ℕ,
}
use mumdota.Messages.{
  ClientMessage, connect, disconnect, client_offer, answer, start_voice, ice_restart, ice_refresh,
  client_candidate, chat_send, channel_join, mute, deafen, ServerMessage, ErrorText,
  IceCandidateData,
}
use mumdota.Handler.{
  is_blank, Manager, Incoming, parsed, unparsed, other_frame, close_frame, socket_error, deadline,
  stopping, sender_ended, Connection, new_connection, is_connect, is_disconnect,
  is_invalid_username, report, handle_client_message, on_message, serve, handle_ws_connection,
}

-- The events of a socket whose first message that parses is not a connect.
abbrev pub IsStranger : List Incoming → Type 0
IsStranger [] = Unit {0}
IsStranger (parsed message is_handled ∷ is) = is_connect message ≡ false
IsStranger (i ∷ is) = IsStranger is

-- A predicate that the methods of a manager keep, given a user name that is not blank and has 128
-- bytes at most, and a chat message of 4096 bytes at most.
pub record IsKept {M : Type 0} (manager : Manager M) (P : M → Type 0) : Type 0 where
  pub connect_user :
      (m : M) (username : String)
      → is_blank username ≡ false
      → len username ≤ 128
      → P m
      → P (manager.connect_user username m).1
  pub disconnect_user : (m : M) → P m → P (manager.disconnect_user m)
  pub revoke_turn : (m : M) → P m → P (manager.revoke_turn m)
  pub handle_answer : (m : M) (sdp : String) → P m → P (manager.handle_answer sdp m).1
  pub begin_voice : (m : M) (restart : Bool) → P m → P (manager.begin_voice restart m).1
  pub refresh_ice : (m : M) → P m → P (manager.refresh_ice m).1
  pub add_ice_candidate : (m : M) (c : IceCandidateData) → P m → P (manager.add_ice_candidate c m).1
  pub send_chat :
      (m : M) (channel_id : ℕ) (message : String)
      → len message ≤ 4096
      → P m
      → P (manager.send_chat channel_id message m).1
  pub join_channel : (m : M) (channel_id : ℕ) → P m → P (manager.join_channel channel_id m).1
  pub set_mute : (m : M) (muted : Bool) → P m → P (manager.set_mute muted m).1
  pub set_deaf : (m : M) (deafened : Bool) → P m → P (manager.set_deaf deafened m).1
  pub cancelled : (m : M) (message : ClientMessage) → P m → P (manager.cancelled message m)

report-kept :
    {M : Type 0} (P : M → Type 0) (code : String) (sent : List ServerMessage)
    (r : Result ErrorText (Unit {0}) × M)
    → P r.1
    → P (report code sent r).0
report-kept P code sent (ok done, m) p = p
report-kept P code sent (err e, m) p = p

module _ {M : Type 0} (manager : Manager M) where
  serve-stranger :
      (c : Connection M) (is : List Incoming)
      → c.first_message ≡ true
      → IsStranger is
      → (serve manager c is).manager ≡ c.manager
  unfolding serve
  serve-stranger c [] first h = refl
  serve-stranger c (parsed message is_handled ∷ is) first h = ground arith
  serve-stranger c (unparsed e ∷ is) first h =
      serve-stranger
        (record c { sent = ServerMessage.error "invalid_message" (ErrorText.foreign e) ∷ c.sent })
        is first h
  serve-stranger c (other_frame ∷ is) first h = serve-stranger c is first h
  serve-stranger c (close_frame ∷ is) first h = refl
  serve-stranger c (socket_error ∷ is) first h = refl
  serve-stranger c (deadline ∷ is) first h = refl
  serve-stranger c (stopping ∷ is) first h = refl
  serve-stranger c (sender_ended ∷ is) first h = refl

  -- A socket whose first message that parses is not a connect reaches nothing of the session
  -- manager, whatever else it sends: all that happens there is the cleaning up at the end.
  pub handle_ws_connection-stranger :
      (m : M) (is : List Incoming)
      → IsStranger is
      → (handle_ws_connection manager m is).manager
        ≡ manager.revoke_turn (manager.disconnect_user m)
  unfolding handle_ws_connection
  handle_ws_connection-stranger m is h = rw (serve-stranger (new_connection m) is refl h) refl

module _ {M : Type 0} (manager : Manager M) (P : M → Type 0) (kept : IsKept manager P) where
  handle_client_message-kept :
      (m : M) (sent : List ServerMessage) (message : ClientMessage)
      → P m
      → P (handle_client_message manager m sent message).0
  unfolding handle_client_message
  handle_client_message-kept m sent (connect username) p =
      elim (Bool-cases (is_invalid_username username)) [
        | inl invalid ↦ rw (handle_client_message, invalid) p
        | inr valid ↦
            let named : is_blank username ≡ false = ground arith in
            let short : len username ≤ 128 = ground arith in
            rw (handle_client_message, valid)
              (report-kept P "connect_failed" sent (manager.connect_user username m)
                (kept.connect_user m username named short p))
      ]
  handle_client_message-kept m sent disconnect p = kept.disconnect_user m p
  handle_client_message-kept m sent (client_offer sdp) p = p
  handle_client_message-kept m sent (answer sdp) p =
      report-kept P "voice_error" sent (manager.handle_answer sdp m) (kept.handle_answer m sdp p)
  handle_client_message-kept m sent start_voice p =
      report-kept P "voice_error" sent (manager.begin_voice false m) (kept.begin_voice m false p)
  handle_client_message-kept m sent ice_restart p =
      report-kept P "voice_error" sent (manager.begin_voice true m) (kept.begin_voice m true p)
  handle_client_message-kept m sent ice_refresh p =
      report-kept P "voice_error" sent (manager.refresh_ice m) (kept.refresh_ice m p)
  handle_client_message-kept m sent (client_candidate c) p =
      report-kept P "ice_failed" sent (manager.add_ice_candidate c m) (kept.add_ice_candidate m c p)
  handle_client_message-kept m sent (chat_send channel_id message) p =
      elim (Bool-cases (ltb 4096 (len message))) [
        | inl long ↦ rw (handle_client_message, long) p
        | inr fits ↦
            let short : len message ≤ 4096 = ground arith in
            rw (handle_client_message, fits)
              (report-kept P "chat_failed" sent (manager.send_chat channel_id message m)
                (kept.send_chat m channel_id message short p))
      ]
  handle_client_message-kept m sent (channel_join channel_id) p =
      report-kept P "channel_join_failed" sent (manager.join_channel channel_id m)
        (kept.join_channel m channel_id p)
  handle_client_message-kept m sent (mute muted) p =
      report-kept P "mute_failed" sent (manager.set_mute muted m) (kept.set_mute m muted p)
  handle_client_message-kept m sent (deafen deafened) p =
      report-kept P "deafen_failed" sent (manager.set_deaf deafened m) (kept.set_deaf m deafened p)

  on_message-kept :
      (c : Connection M) (message : ClientMessage) (is_handled : Bool)
      → P c.manager
      → P (on_message manager c message is_handled).0.manager
  unfolding on_message
  on_message-kept c message is_handled p =
      if_cases (λ (r : Connection M × Bool). P r.0.manager)
        (c.first_message && not (is_connect message)) _ _ p
        (if_cases (λ (r : Connection M × Bool). P r.0.manager) (is_disconnect message) _ _ p
          (if_cases (λ (r : Connection M × Bool). P r.0.manager) is_handled _ _
            (handle_client_message-kept c.manager c.sent message p)
            (kept.cancelled c.manager message p)))

  pub serve-kept :
      (c : Connection M) (is : List Incoming) → P c.manager → P (serve manager c is).manager
  unfolding serve
  serve-kept c [] p = p
  serve-kept c (parsed message is_handled ∷ is) p =
      let (c', goes_on) = on_message manager c message is_handled in
      let p' = on_message-kept c message is_handled p in
      if_cases (λ (d : Connection M). P d.manager) goes_on (serve manager c' is) c'
        (serve-kept c' is p') p'
  serve-kept c (unparsed e ∷ is) p = serve-kept _ is p
  serve-kept c (other_frame ∷ is) p = serve-kept c is p
  serve-kept c (close_frame ∷ is) p = p
  serve-kept c (socket_error ∷ is) p = p
  serve-kept c (deadline ∷ is) p = p
  serve-kept c (stopping ∷ is) p = p
  serve-kept c (sender_ended ∷ is) p = p

  -- What the methods of a session manager keep, if `connect_user` is only asked for user names that
  -- are not blank and have 128 bytes at most and `send_chat` only for messages of 4096 bytes at
  -- most, is kept by a whole connection, its cleaning up included, whatever the socket sends.
  pub handle_ws_connection-kept :
      (m : M) (is : List Incoming) → P m → P (handle_ws_connection manager m is).manager
  unfolding handle_ws_connection
  handle_ws_connection-kept m is p =
      let served = serve-kept (new_connection m) is p in
      kept.revoke_turn _ (kept.disconnect_user _ served)
