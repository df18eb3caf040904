-- ===== src/Service/Calls.antt =====
-- Each method of the session manager of src/session.rs, as the handler calls it, keeps the permits
-- and the credentials in order.
use mumdota.Base.{
  ℕ, ◌≡◌, refl, ap, ◌∙◌, Bool, true, false, not, String, List, Option, none, some, Option-cases,
  inl, inr, is_some, get_elem?, if_cases, Result, ok, err, lookup, remove, lookup-remove, string_eq,
  beq_self,
}
use mumdota.Messages.{
  ClientMessage, connect, disconnect, client_offer, ice_restart, ice_refresh, client_candidate,
  chat_send, channel_join, mute, deafen, IceCandidateData,
}
use mumdota.Control.{MumbleCommand}
use mumdota.Negotiation.{WebrtcError}
use mumdota.Sessions.{SessionManager, SessionError, get_session, take_out, disconnect_user}
use mumdota.Sessions.Slots.{
  permits, begin_connect-permits, fail_connect-permits, command-permits, shutdown-permits,
}
use mumdota.Sessions.Table.{shutdown-same}
use mumdota.Handler.Guards.{IsKept}
use mumdota.Service.{
  Media, World, Service, Reply, set_media, enter, on_media, on_session, send_offer, answer_in,
  handle_answer, candidate_in, add_candidate, voice_with, voice_in, refresh_in, refresh_ice,
  tell_mumble, leave, revoke_turn, give_up, drop_call, start_voice, session_manager,
}
use mumdota.Service.Keeps.{
  Kept, session_ice_config-Kept, revoked_in-Kept, enter-Kept, connect_user-Kept,
}

module _ {S : Type 0} (world : World S) (total : ℕ) where
  on_session-Kept :
      (s : Service S) (r : Result SessionError ℕ) (f : ℕ → Media S → Reply world)
      → ((ref : ℕ) (m : Media S) → Kept world total (f ref m).1)
      → Kept world total s
      → Kept world total (on_session world s r f).1
  on_session-Kept s (err e) f kept h = h
  on_session-Kept s (ok ref) f kept h = on_media-Kept (get_elem? s.media ref)
    where
      on_media-Kept : (o : Option (Media S)) → Kept world total (on_media world s o (f ref)).1
      on_media-Kept none = h
      on_media-Kept (some m) = kept ref m

  send_offer-Kept :
      (s : Service S) (ws_tx : ℕ) (r : Result WebrtcError (Option String))
      → Kept world total s
      → Kept world total (send_offer world s ws_tx r).1
  send_offer-Kept s ws_tx (err e) h = h
  send_offer-Kept s ws_tx (ok none) h = h
  send_offer-Kept s ws_tx (ok (some sdp)) h = h

  handle_answer-Kept :
      (conn_id sdp : String) (ws_tx : ℕ) (s : Service S)
      → Kept world total s
      → Kept world total (handle_answer world conn_id ws_tx sdp s).1
  unfolding handle_answer
  handle_answer-Kept conn_id sdp ws_tx s h =
      let k : Kept world total (enter world s) = enter-Kept world total s h in
      on_session-Kept (enter world s) _ (answer_in world (enter world s) ws_tx sdp)
        (λ ref m. send_offer-Kept _ ws_tx _ k) k

  add_candidate-Kept :
      (conn_id : String) (init : IceCandidateData) (s : Service S)
      → Kept world total s
      → Kept world total (add_candidate world conn_id init s).1
  unfolding add_candidate
  add_candidate-Kept conn_id init s h =
      let k : Kept world total (enter world s) = enter-Kept world total s h in
      on_session-Kept (enter world s) _ (candidate_in world (enter world s) init) (λ ref m. k) k

  voice_with-Kept :
      (s : Service S) (ws_tx : ℕ) (restart : Bool) (ref : ℕ) (m : Media S) (r : Bool × List ℕ)
      → Kept world total s
      → Kept world total (voice_with world s ws_tx restart ref m r).1
  voice_with-Kept s ws_tx restart ref m (false, tracks) h = h
  voice_with-Kept s ws_tx restart ref m (true, tracks) h = send_offer-Kept _ ws_tx _ h

  start_voice-Kept :
      (conn_id : String) (ws_tx : ℕ) (restart : Bool) (s : Service S)
      → Kept world total s
      → Kept world total (start_voice world conn_id ws_tx restart s).1
  unfolding start_voice
  start_voice-Kept conn_id ws_tx restart s h =
      let k : Kept world total (enter world s) = enter-Kept world total s h in
      on_session-Kept (enter world s) _ (voice_in world (enter world s) ws_tx restart)
        (λ ref m.
          if_cases (λ (r : Reply world). Kept world total r.1) (not (is_some m.session_id)) _ _ k
            (if_cases (λ (r : Reply world). Kept world total r.1) m.webrtc.started _ _
              (send_offer-Kept _ ws_tx _ k)
              (voice_with-Kept (enter world s) ws_tx restart ref m _ k)))
        k

  refresh_ice-Kept :
      (conn_id : String) (ws_tx : ℕ) (s : Service S)
      → Kept world total s
      → Kept world total (refresh_ice world conn_id ws_tx s).1
  unfolding refresh_ice
  refresh_ice-Kept conn_id ws_tx s h =
      let k : Kept world total (enter world s) = enter-Kept world total s h in
      on_session-Kept (enter world s) _ (refresh_in world (enter world s) conn_id ws_tx)
        (λ ref m.
          if_cases (λ (r : Reply world). Kept world total r.1) (not (is_some m.session_id)) _ _ k
            (session_ice_config-Kept world total (enter world s) conn_id _ _ (enter world s).turn
              k.1 k))
        k

  tell_mumble-Kept :
      (conn_id : String) (c : MumbleCommand) (s : Service S)
      → Kept world total s
      → Kept world total (tell_mumble world conn_id c s).1
  unfolding tell_mumble
  tell_mumble-Kept conn_id c s h =
      let k : Kept world total (enter world s) = enter-Kept world total s h in
      (command-permits (enter world s).manager conn_id c _ ∙ k.0, k.1)

  disconnect_user-permits :
      (m : SessionManager) (conn_id : String) → permits (disconnect_user m conn_id) ≡ permits m
  unfolding disconnect_user take_out
  disconnect_user-permits m conn_id = elim (Option-cases (lookup conn_id m.sessions)) [
    | inl absent ↦ rw (disconnect_user, absent) refl
    | inr (ref, there) ↦ rw (disconnect_user, there) (shutdown-permits (take_out m conn_id) ref)
  ]

  pub leave-Kept :
      (conn_id : String) (s : Service S)
      → Kept world total s
      → Kept world total (leave world conn_id s)
  unfolding leave
  leave-Kept conn_id s h =
      let k : Kept world total (enter world s) = enter-Kept world total s h in
      (disconnect_user-permits (enter world s).manager conn_id ∙ k.0, k.1)

  revoke_turn-Kept :
      (conn_id : String) (s : Service S)
      → Kept world total s
      → Kept world total (revoke_turn world conn_id s)
  unfolding revoke_turn
  revoke_turn-Kept conn_id s h =
      let k : Kept world total (enter world s) = enter-Kept world total s h in
      revoked_in-Kept world total (enter world s) conn_id (enter world s).turn k.1 k

  give_up-Kept :
      (s : Service S) (r : Result SessionError (Unit {0}))
      → Kept world total s
      → Kept world total (give_up world s r)
  give_up-Kept s (err e) h = h
  give_up-Kept s (ok done) h = (fail_connect-permits s.manager 0 ∙ h.0, h.1)

  drop_connect-Kept :
      (conn_id username : String) (ws_tx : ℕ) (s : Service S)
      → Kept world total s
      → Kept world total (drop_call world (connect username) conn_id ws_tx s)
  drop_connect-Kept conn_id username ws_tx s h =
      let k : Kept world total (enter world s) = enter-Kept world total s h in
      give_up-Kept _ _
        (begin_connect-permits (enter world s).manager conn_id username ws_tx ∙ k.0, k.1)

  drop_other-Kept :
      (conn_id : String) (s : Service S)
      → Kept world total s
      → Kept world total
          (on_session world s
            (get_session s.manager conn_id)
            (λ ref m. (ok tt, set_media world s ref (world.interrupted s.calls m)))).1
  drop_other-Kept conn_id s h =
      on_session-Kept s (get_session s.manager conn_id)
        (λ ref m. (ok tt, set_media world s ref (world.interrupted s.calls m))) (λ ref m. h) h

  drop_call-Kept :
      (conn_id : String) (ws_tx : ℕ) (s : Service S) (message : ClientMessage)
      → Kept world total s
      → Kept world total (drop_call world message conn_id ws_tx s)
  drop_call-Kept conn_id ws_tx s (connect username) h = drop_connect-Kept conn_id username ws_tx s h
  drop_call-Kept conn_id ws_tx s disconnect h = drop_other-Kept conn_id s h
  drop_call-Kept conn_id ws_tx s (client_offer sdp) h = drop_other-Kept conn_id s h
  drop_call-Kept conn_id ws_tx s (ClientMessage.answer sdp) h = drop_other-Kept conn_id s h
  drop_call-Kept conn_id ws_tx s ClientMessage.start_voice h = drop_other-Kept conn_id s h
  drop_call-Kept conn_id ws_tx s ice_restart h = drop_other-Kept conn_id s h
  drop_call-Kept conn_id ws_tx s ice_refresh h = drop_other-Kept conn_id s h
  drop_call-Kept conn_id ws_tx s (client_candidate init) h = drop_other-Kept conn_id s h
  drop_call-Kept conn_id ws_tx s (chat_send channel_id message) h = drop_other-Kept conn_id s h
  drop_call-Kept conn_id ws_tx s (channel_join channel_id) h = drop_other-Kept conn_id s h
  drop_call-Kept conn_id ws_tx s (mute muted) h = drop_other-Kept conn_id s h
  drop_call-Kept conn_id ws_tx s (deafen deafened) h = drop_other-Kept conn_id s h

  pub session_manager-IsKept :
      (conn_id : String) (ws_tx : ℕ)
      → IsKept (session_manager world conn_id ws_tx) (Kept world total)
  unfolding session_manager
  session_manager-IsKept conn_id ws_tx = record {
    connect_user =
        λ s username named short h. connect_user-Kept world total conn_id username ws_tx s h;
    disconnect_user = λ s h. leave-Kept conn_id s h;
    revoke_turn = λ s h. revoke_turn-Kept conn_id s h;
    handle_answer = λ s sdp h. handle_answer-Kept conn_id sdp ws_tx s h;
    begin_voice = λ s restart h. start_voice-Kept conn_id ws_tx restart s h;
    refresh_ice = λ s h. refresh_ice-Kept conn_id ws_tx s h;
    add_ice_candidate = λ s init h. add_candidate-Kept conn_id init s h;
    send_chat = λ s channel_id message short h. tell_mumble-Kept conn_id _ s h;
    join_channel = λ s channel_id h. tell_mumble-Kept conn_id _ s h;
    set_mute = λ s muted h. tell_mumble-Kept conn_id _ s h;
    set_deaf = λ s deafened h. tell_mumble-Kept conn_id _ s h;
    cancelled = λ s message h. drop_call-Kept conn_id ws_tx s message h;
  }

  pub disconnect_user-gone :
      (m : SessionManager) (conn_id : String)
      → lookup conn_id (disconnect_user m conn_id).sessions ≡ none
  unfolding disconnect_user take_out
  disconnect_user-gone m conn_id = elim (Option-cases (lookup conn_id m.sessions)) [
    | inl absent ↦ rw (disconnect_user, absent) (gone conn_id m)
    | inr (ref, there) ↦
        rw (disconnect_user, there)
          (ap (lookup conn_id) (shutdown-same (take_out m conn_id) ref).0 ∙ gone conn_id m)
  ]
    where
      gone :
          (conn_id : String) (m : SessionManager)
          → lookup conn_id (remove conn_id m.sessions) ≡ none
      gone conn_id m = lookup-remove conn_id conn_id m.sessions ∙ rw (beq_self conn_id) refl
