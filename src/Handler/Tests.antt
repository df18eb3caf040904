-- ===== src/Handler/Tests.antt =====
-- Connections of src/ws/handler.rs to a small manager that writes down the names and the chat it gets.
use Prim.Native.String.{len}
use mumdota.Base.{◌≤◌, ◌≡◌, refl, true, false, String, List, [], ◌∷◌, ok, All, string_eq, nat_eq}
use mumdota.Messages.{connect, chat_send, mute}
use mumdota.Handler.{
  is_blank, Manager, Method, Incoming, parsed, unparsed, other_frame, close_frame,
  handle_ws_connection,
}
use mumdota.Handler.Guards.{IsKept, handle_ws_connection-stranger, handle_ws_connection-kept}

abbrev noting : String → Method (List String)
noting note m = (ok tt, note ∷ m)

abbrev notebook : Manager (List String)
notebook = record {
  connect_user = noting;
  disconnect_user = λ m. m;
  revoke_turn = λ m. m;
  handle_answer = λ sdp m. (ok tt, m);
  begin_voice = λ restart m. (ok tt, m);
  refresh_ice = λ m. (ok tt, m);
  add_ice_candidate = λ c m. (ok tt, m);
  send_chat = λ channel_id message m. (ok tt, m);
  join_channel = λ channel_id m. (ok tt, m);
  set_mute = λ muted m. (ok tt, m);
  set_deaf = λ deafened m. (ok tt, m);
  cancelled = λ message m. m;
}

abbrev IsName : String → Type 0
IsName name = (is_blank name ≡ false) × (len name ≤ 128)

notebook-IsKept : IsKept notebook (All IsName)
notebook-IsKept = record {
  connect_user = λ m username named short p. ((named, short), p);
  disconnect_user = λ m p. p;
  revoke_turn = λ m p. p;
  handle_answer = λ m sdp p. p;
  begin_voice = λ m restart p. p;
  refresh_ice = λ m p. p;
  add_ice_candidate = λ m c p. p;
  send_chat = λ m channel_id message short p. p;
  join_channel = λ m channel_id p. p;
  set_mute = λ m muted p. p;
  set_deaf = λ m deafened p. p;
  cancelled = λ m message p. p;
}

abbrev frames : List Incoming
frames =
    unparsed 1
    ∷ parsed (connect "Ann") true
    ∷ parsed (connect "  ") true
    ∷ parsed (chat_send 1 "hello") true
    ∷ close_frame
    ∷ []

handle_ws_connection-frames : (handle_ws_connection notebook [] frames).manager ≡ "Ann" ∷ []
unfolding handle_ws_connection
handle_ws_connection-frames = refl

handle_ws_connection-kept_example : All IsName (handle_ws_connection notebook [] frames).manager
handle_ws_connection-kept_example =
    handle_ws_connection-kept notebook (All IsName) notebook-IsKept [] frames tt

abbrev strange : List Incoming
strange = unparsed 1 ∷ other_frame ∷ parsed (mute true) true ∷ parsed (connect "Ann") true ∷ []

handle_ws_connection-stranger_example : (handle_ws_connection notebook [] strange).manager ≡ []
handle_ws_connection-stranger_example = handle_ws_connection-stranger notebook [] strange refl
