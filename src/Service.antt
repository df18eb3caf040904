-- ===== src/Service.antt =====
-- The session manager of src/session.rs with all its methods, as src/ws/handler.rs calls them for one
-- connection: the table and the permits of Sessions, the WebRTC session of each user and the TURN
-- service. The resolver, Mumble, the peer connections, the clock and the UUIDs answer by the number of
-- the call (World), and what other tasks do happens between two calls.
mod Keeps
mod Calls
pub mod Ended
mod Tests
use package.text.Mathlib.Text.{starts_with}
use mumdota.Base.{
  ℕ, suc, Bool, true, false, not, ◌&&◌, String, List, [], ◌∷◌, ◌++◌, map, Option, none, some,
  is_some, any, ◌==◌, nat_eq, get_elem?, set_elem, keep, length, if◌then◌else◌, Result, ok, err,
  ltb,
}
use mumdota.Config.{Config}
use mumdota.Credentials.{IceConfig, Draw}
use mumdota.Turn.{TurnService, ice_config as turn_ice_config, revoke as turn_revoke}
use mumdota.Messages.{
  ClientMessage, connect, ServerMessage, ErrorText, text, foreign, IceCandidateData,
}
use mumdota.Control.{MumbleCommand, send_chat, join_channel, set_mute, set_deaf}
use mumdota.Negotiation.{
  PeerOps, WebrtcError, too_many_pending, peer_failed, WebrtcSession, fresh_session, offer, answer,
  add_ice_candidate,
}
use mumdota.Sessions.{
  UserSession, SessionManager, SessionError, shutting_down, already_connected, server_full,
  session_not_found, setup_failed, mumble_disconnected, begin_connect, fail_connect, finish_connect,
  get_session, command, disconnect_user, Step, run_steps,
}
use mumdota.Handler.{Manager}

-- The WebRTC part of a user's session.
pub record Media (S : Type 0) : Type 0 where
  pub webrtc : WebrtcSession S
  pub session_id : Option ℕ
  pub known_speakers : List ℕ
  pub tracks : List ℕ

-- What other tasks do: a step of the manager; the event loop of a session learns that Mumble has
-- authenticated it and who is there; it issues the credentials of the connected message at a time,
-- which it does some time after the lock under which it learned this; or that task has ended.
pub data Meanwhile : Type 0 where
  manager_step : Step → Meanwhile
  authenticated : ℕ → ℕ → List ℕ → Meanwhile
  gets_credentials : String → ℕ → Draw → Meanwhile
  task_ended : String → Meanwhile

pub record World (S : Type 0) : Type 0 where
  pub ops : PeerOps S
  pub new_peer : ℕ → S
  pub is_set_up : ℕ → Bool
  pub is_open : ℕ → Bool
  pub adds_track : ℕ → ℕ → Bool
  pub now : ℕ → ℕ
  pub draw : ℕ → Draw
  pub meanwhile : ℕ → List Meanwhile
  pub interrupted : ℕ → Media S → Media S

-- `media` has an entry for each session of the manager's heap.
pub record Service (S : Type 0) : Type 0 where
  pub config : Config
  pub manager : SessionManager
  pub media : List (Media S)
  pub turn : Option TurnService
  pub sent : List (ℕ × ServerMessage)
  pub calls : ℕ

abbrev pub session_text : SessionError → ErrorText
session_text shutting_down = text "Server is shutting down"
session_text already_connected = text "Already connected"
session_text server_full = text "Server full"
session_text session_not_found = text "Session not found"
session_text setup_failed = foreign 0
session_text mumble_disconnected = foreign 1

abbrev pub webrtc_text : WebrtcError → ErrorText
webrtc_text too_many_pending = text "too many pending ICE candidates"
webrtc_text peer_failed = foreign 2

abbrev pub explain : {A B : Type 0} → (A → B) → Result A (Unit {0}) → Result B (Unit {0})
explain why (ok done) = ok tt
explain why (err e) = err (why e)

-- `session_ice_config` without TURN: the STUN servers.
abbrev pub stun_config : Config → IceConfig
stun_config config = record {
  ice_servers =
      map (λ url. record { urls = url; username = none; credential = none })
        (keep (λ url. starts_with url "stun:") config.webrtc.stun_servers);
  expires_at = none;
}

module _ {S : Type 0} (world : World S) where
  abbrev pub Reply : Type 0
  Reply = Result ErrorText (Unit {0}) × Service S

  abbrev pub set_media : Service S → ℕ → Media S → Service S
  set_media s ref m = record s { media = set_elem s.media ref m }

  abbrev pub send : Service S → ℕ → ServerMessage → Service S
  send s ws_tx message = record s { sent = (ws_tx, message) ∷ s.sent }

  abbrev pub issued : IceConfig × TurnService → Service S → IceConfig × Service S
  issued (config, turn) s = (config, record s { turn = some turn })

  -- `session_ice_config` at a time.
  abbrev pub session_ice_config :
      Service S → String → ℕ → Draw → Option TurnService → IceConfig × Service S
  session_ice_config s conn_id now draw none = (stun_config s.config, s)
  session_ice_config s conn_id now draw (some turn) =
      issued (turn_ice_config turn conn_id now draw) s

  abbrev pub revoked_in : Service S → String → Option TurnService → Service S
  revoked_in s conn_id none = s
  revoked_in s conn_id (some turn) = record s { turn = some (turn_revoke turn conn_id).1 }

  -- The event loop notes who is there.
  abbrev pub learn : Service S → ℕ → ℕ → List ℕ → Option (Media S) → Service S
  learn s ref session_id speakers none = s
  learn s ref session_id speakers (some m) =
      set_media s ref (record m { session_id = some session_id; known_speakers = speakers })

  abbrev pub on_authenticated : Service S → ℕ → ℕ → List ℕ → Option UserSession → Service S
  on_authenticated s ref session_id speakers none = s
  on_authenticated s ref session_id speakers (some u) =
      if u.closed then s else learn s ref session_id speakers (get_elem? s.media ref)

  -- What happens before a call.
  unfoldable pub happen : Service S → List Meanwhile → Service S
  happen s [] = s
  happen s (manager_step a ∷ rest) =
      happen (record s { manager = run_steps s.manager (a ∷ []) }) rest
  happen s (authenticated ref session_id speakers ∷ rest) =
      happen (on_authenticated s ref session_id speakers (get_elem? s.manager.heap ref)) rest
  happen s (gets_credentials conn_id now draw ∷ rest) =
      happen (session_ice_config s conn_id now draw s.turn).1 rest
  happen s (task_ended conn_id ∷ rest) = happen (revoked_in s conn_id s.turn) rest

  abbrev pub enter : Service S → Service S
  enter s = happen (record s { calls = suc s.calls }) (world.meanwhile s.calls)

  abbrev pub new_media : Service S → Media S
  new_media s = record {
    webrtc = fresh_session (world.new_peer s.calls);
    session_id = none;
    known_speakers = [];
    tracks = [];
  }

  abbrev pub set_up : Service S → Bool → Reply
  set_up s false =
      let (r, m) = fail_connect s.manager 0 in (explain session_text r, record s { manager = m })
  set_up s true =
      let (r, m) = finish_connect s.manager 0 in
      (explain session_text r, record s { manager = m; media = s.media ++ new_media s ∷ [] })

  abbrev pub go_on : Service S → Result SessionError (Unit {0}) → Reply
  go_on s (err e) = (err (session_text e), s)
  go_on s (ok done) = set_up s (world.is_set_up s.calls)

  unfoldable pub connect_user : String → ℕ → String → Service S → Reply
  connect_user conn_id ws_tx username s =
      let s : Service S = enter s in
      let (r, m) = begin_connect s.manager conn_id username ws_tx in
      go_on (record s { manager = m }) r

  abbrev pub on_media : Service S → Option (Media S) → (Media S → Reply) → Reply
  on_media s none f = (err (text "Session not found"), s)
  on_media s (some m) f = f m

  abbrev pub on_session : Service S → Result SessionError ℕ → (ℕ → Media S → Reply) → Reply
  on_session s (err e) f = (err (session_text e), s)
  on_session s (ok ref) f = on_media s (get_elem? s.media ref) (f ref)

  -- What a negotiation gives: an offer to send, or nothing, or an error.
  abbrev pub send_offer : Service S → ℕ → Result WebrtcError (Option String) → Reply
  send_offer s ws_tx (err e) = (err (webrtc_text e), s)
  send_offer s ws_tx (ok none) = (ok tt, s)
  send_offer s ws_tx (ok (some sdp)) = (ok tt, send s ws_tx (ServerMessage.offer sdp))

  abbrev pub answer_in : Service S → ℕ → String → ℕ → Media S → Reply
  answer_in s ws_tx sdp ref m =
      let (r, w) = answer world.ops m.webrtc sdp in
      send_offer (set_media s ref (record m { webrtc = w })) ws_tx r

  unfoldable pub handle_answer : String → ℕ → String → Service S → Reply
  handle_answer conn_id ws_tx sdp s =
      let s : Service S = enter s in
      on_session s (get_session s.manager conn_id) (answer_in s ws_tx sdp)

  abbrev pub candidate_in : Service S → IceCandidateData → ℕ → Media S → Reply
  candidate_in s init ref m =
      let (r, w) = add_ice_candidate world.ops m.webrtc init in
      (explain webrtc_text r, set_media s ref (record m { webrtc = w }))

  unfoldable pub add_candidate : String → IceCandidateData → Service S → Reply
  add_candidate conn_id init s =
      let s : Service S = enter s in
      on_session s (get_session s.manager conn_id) (candidate_in s init)

  -- The tracks of the known speakers, until one cannot be added; one that is there stays.
  unfoldable pub add_speakers : (ℕ → Bool) → List ℕ → List ℕ → Bool × List ℕ
  add_speakers adds [] tracks = (true, tracks)
  add_speakers adds (speaker ∷ rest) tracks =
      let kept = add_speakers adds rest tracks in
      let after = add_speakers adds rest (speaker ∷ tracks) in
      if any (λ track. track == speaker) tracks
      then kept
      else if adds speaker
      then after
      else (false, tracks)

  abbrev pub offer_in : Service S → ℕ → Bool → ℕ → Media S → Reply
  offer_in s ws_tx restart ref m =
      let (r, w) = offer world.ops m.webrtc restart in
      send_offer (set_media s ref (record m { webrtc = w })) ws_tx r

  abbrev pub voice_with : Service S → ℕ → Bool → ℕ → Media S → Bool × List ℕ → Reply
  voice_with s ws_tx restart ref m (false, tracks) =
      (err (foreign 3), set_media s ref (record m { tracks = tracks }))
  voice_with s ws_tx restart ref m (true, tracks) =
      offer_in s ws_tx restart ref
        (record m { tracks = tracks; webrtc = record m.webrtc { started = true } })

  abbrev pub voice_in : Service S → ℕ → Bool → ℕ → Media S → Reply
  voice_in s ws_tx restart ref m =
      if not (is_some m.session_id)
      then (err (text "Mumble authentication pending"), s)
      else if m.webrtc.started
      then offer_in s ws_tx restart ref m
      else voice_with s ws_tx restart ref m
          (add_speakers (world.adds_track s.calls) m.known_speakers m.tracks)

  unfoldable pub start_voice : String → ℕ → Bool → Service S → Reply
  start_voice conn_id ws_tx restart s =
      let s : Service S = enter s in
      on_session s (get_session s.manager conn_id) (voice_in s ws_tx restart)

  abbrev pub refresh_in : Service S → String → ℕ → ℕ → Media S → Reply
  refresh_in s conn_id ws_tx ref m =
      if not (is_some m.session_id)
      then (err (text "Mumble authentication pending"), s)
      else (let (config, s') =
            session_ice_config s conn_id (world.now s.calls) (world.draw s.calls) s.turn in
          (ok tt, send s' ws_tx (ServerMessage.ice_config config)))

  unfoldable pub refresh_ice : String → ℕ → Service S → Reply
  refresh_ice conn_id ws_tx s =
      let s : Service S = enter s in
      on_session s (get_session s.manager conn_id) (refresh_in s conn_id ws_tx)

  unfoldable pub tell_mumble : String → MumbleCommand → Service S → Reply
  tell_mumble conn_id c s =
      let s : Service S = enter s in
      let (r, m) = command s.manager conn_id c (world.is_open s.calls) in
      (explain session_text r, record s { manager = m })

  unfoldable pub leave : String → Service S → Service S
  leave conn_id s =
      let s : Service S = enter s in record s { manager = disconnect_user s.manager conn_id }

  -- What the event task issues after this is revoked at its own end.
  unfoldable pub revoke_turn : String → Service S → Service S
  revoke_turn conn_id s = let s : Service S = enter s in revoked_in s conn_id s.turn

  abbrev pub give_up : Service S → Result SessionError (Unit {0}) → Service S
  give_up s (err e) = s
  give_up s (ok done) = record s { manager = (fail_connect s.manager 0).1 }

  -- A call that is dropped at an await: a connect has its permit back, whatever it waited for; another
  -- call may have done a part of what it does to the WebRTC session.
  abbrev pub drop_call : ClientMessage → String → ℕ → Service S → Service S
  drop_call (connect username) conn_id ws_tx s =
      let s : Service S = enter s in
      let (r, m) = begin_connect s.manager conn_id username ws_tx in
      give_up (record s { manager = m }) r
  drop_call _ conn_id ws_tx s =
      (on_session s (get_session s.manager conn_id)
        (λ ref m. (ok tt, set_media s ref (world.interrupted s.calls m)))).1

  unfoldable pub session_manager : String → ℕ → Manager (Service S)
  session_manager conn_id ws_tx = record {
    connect_user = connect_user conn_id ws_tx;
    disconnect_user = leave conn_id;
    revoke_turn = revoke_turn conn_id;
    handle_answer = handle_answer conn_id ws_tx;
    begin_voice = start_voice conn_id ws_tx;
    refresh_ice = refresh_ice conn_id ws_tx;
    add_ice_candidate = add_candidate conn_id;
    send_chat = λ channel_id message. tell_mumble conn_id (send_chat channel_id message);
    join_channel = λ channel_id. tell_mumble conn_id (join_channel channel_id);
    set_mute = λ muted. tell_mumble conn_id (set_mute muted);
    set_deaf = λ deafened. tell_mumble conn_id (set_deaf deafened);
    cancelled = λ message. drop_call message conn_id ws_tx;
  }
