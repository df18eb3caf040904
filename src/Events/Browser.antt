-- ===== src/Events/Browser.antt =====
-- What a browser learns from the event loop of src/session.rs: the users that the Mumble client knows.
use mumdota.Base.{
  ℕ, ◌≡◌, refl, ap, ◌∙◌, sym, ◌⊎◌, inl, inr, true, false, List, [], ◌∷◌, ◌++◌, Option, none, some,
  nat_eq, String, Result, ok, err, Map, lookup, insert, remove, rebuild, if_cases,
}
use mumdota.Messages.{
  UserInfo, ServerMessage, offer, ice_candidate, ice_config, connected, user_joined, user_left,
  user_state, chat_received, channel_updated, error, ErrorText,
}
use mumdota.Control
use mumdota.Speakers.{add, remove_speaker}
use mumdota.Control.{MumbleEvent, ControlPacket, control_run, initial_control, Sizes}
use mumdota.Control.Tables.{user_id_of}
use mumdota.Control.Replica.{
  Replica, change_user, hear_all, hear_all-append, no_tables, control_run-SameTables,
}
use mumdota.Events.{
  EventState, Answers, Arm, mumble, webrtc, ended, goes_on, stops, Reaction, voice_error,
  on_connected, on_user_joined, on_user_left, on_arm, as_left, process_events, WebrtcEvent,
  offer_message, is_own,
}

-- The users of a browser that follows the messages.
abbrev pub browse : Map ℕ UserInfo → ServerMessage → Map ℕ UserInfo
browse users (connected d) = rebuild user_id_of d.users
browse users (user_joined u) = insert u.session_id u users
browse users (user_left session_id) = remove session_id users
browse users (user_state d) = change_user (lookup d.session_id users) d users
browse users (offer sdp) = users
browse users (ice_candidate c) = users
browse users (ice_config ice) = users
browse users (chat_received chat) = users
browse users (channel_updated channels) = users
browse users (error code message) = users

unfoldable pub browse_all : Map ℕ UserInfo → List ServerMessage → Map ℕ UserInfo
browse_all users [] = users
browse_all users (m ∷ ms) = browse_all (browse users m) ms

browse_all-append :
    (users : Map ℕ UserInfo) (xs ys : List ServerMessage)
    → browse_all users (xs ++ ys) ≡ browse_all (browse_all users xs) ys
unfolding browse_all
browse_all-append users [] ys = refl
browse_all-append users (x ∷ xs) ys = browse_all-append (browse users x) xs ys

browse_all-voice_error :
    (users : Map ℕ UserInfo) (r : Result ErrorText (Unit {0})) (ms : List ServerMessage)
    → browse_all users (voice_error r ++ ms) ≡ browse_all users ms
unfolding browse_all
browse_all-voice_error users (ok done) ms = refl
browse_all-voice_error users (err e) ms = refl

browse_all-offer_message :
    (users : Map ℕ UserInfo) (r : Result ErrorText (Option String))
    → browse_all users (offer_message r) ≡ users
unfolding browse_all
browse_all-offer_message users (ok none) = refl
browse_all-offer_message users (ok (some sdp)) = refl
browse_all-offer_message users (err e) = refl

-- The Mumble event of an arm.
abbrev pub event_of : Arm → List MumbleEvent
event_of (mumble e) = e ∷ []
event_of (webrtc e) = []
event_of ended = []

-- The Mumble events that the loop takes, until one ends it.
unfoldable pub heard : EventState → List (Answers × Arm) → List MumbleEvent
heard s [] = []
heard s ((a, arm) ∷ arms) =
    let (s', messages, next) = on_arm (as_left s a) a arm in
    let rest = heard s' arms in elim next [ goes_on ↦ event_of arm ++ rest | stops e ↦ [] ]

-- The handling of one arm, for the browser: the messages do to its users what the event does to
-- those of a listener, or the loop ends without a message.
Follows : Replica → Arm → Reaction → Type 0
Follows r arm (s, messages, next) =
    ((next ≡ goes_on) × (browse_all r.users messages ≡ (hear_all r (event_of arm)).users))
    ⊎ ((messages ≡ []) × ((e : Option ServerMessage) × (next ≡ stops e)))

on_user_joined-browse :
    (s : EventState) (added : Result ErrorText ℕ) (user : UserInfo) (users : Map ℕ UserInfo)
    → ((on_user_joined s added user).2 ≡ goes_on)
      × (browse_all users (on_user_joined s added user).1 ≡ insert user.session_id user users)
unfolding on_user_joined browse_all
on_user_joined-browse s added user users =
    let joined = ServerMessage.user_joined user ∷ [] in
    let (r, _) = add s.speakers user.session_id added in
    let P : Reaction → Type 0 =
      λ r. (r.2 ≡ goes_on) × (browse_all users r.1 ≡ insert user.session_id user users) in
    if_cases P (is_own s.session_id user.session_id) _ _ (refl, refl)
      (if_cases P s.started _ _ (refl, browse_all-voice_error users r joined) (refl, refl))

on_arm-Follows :
    (r : Replica) (s : EventState) (a : Answers) (arm : Arm) → Follows r arm (on_arm s a arm)
unfolding on_arm hear_all browse_all on_connected on_user_left Follows
on_arm-Follows r s a (mumble (Control.connected session_id channels users)) =
    if_cases (Follows r (mumble (Control.connected session_id channels users))) s.closed _ _
      (inr (refl, (none, refl))) (inl (refl, refl))
on_arm-Follows r s a (mumble (Control.user_joined user)) =
    inl (on_user_joined-browse s a.added user r.users)
on_arm-Follows r s a (mumble (Control.user_left session_id)) =
    let (failed, _) = remove_speaker s.speakers session_id a.removed in
    inl (refl, browse_all-voice_error r.users failed (ServerMessage.user_left session_id ∷ []))
on_arm-Follows r s a (mumble (Control.user_state_changed state)) = inl (refl, refl)
on_arm-Follows r s a (mumble (Control.channel_added ch)) = inl (refl, refl)
on_arm-Follows r s a (mumble (Control.channel_updated ch)) = inl (refl, refl)
on_arm-Follows r s a (mumble (Control.channel_removed id)) = inl (refl, refl)
on_arm-Follows r s a (mumble (Control.chat_message sender channel_id message)) = inl (refl, refl)
on_arm-Follows r s a (mumble (Control.disconnected why)) = inr (refl, (_, refl))
on_arm-Follows r s a (webrtc (WebrtcEvent.ice_candidate c)) = inl (refl, refl)
on_arm-Follows r s a (webrtc WebrtcEvent.negotiation_needed) =
    inl (refl, browse_all-offer_message r.users a.offered)
on_arm-Follows r s a (webrtc (WebrtcEvent.connection_state_changed true state)) = inl (refl, refl)
on_arm-Follows r s a (webrtc (WebrtcEvent.connection_state_changed false state)) = inl (refl, refl)
on_arm-Follows r s a ended = inr (refl, (_, refl))

-- For every sequence of events and whatever the other tasks and the WebRTC session do: a browser that
-- followed the messages of the loop has the users that a listener to the Mumble events that the loop
-- took has.
pub process_events-browse :
    (r : Replica) (s : EventState) (arms : List (Answers × Arm))
    → browse_all r.users (process_events s arms).1 ≡ (hear_all r (heard s arms)).users
unfolding process_events heard hear_all browse_all Follows
process_events-browse r s [] = refl
process_events-browse r s ((a, arm) ∷ arms) =
    let (s', messages, next) = on_arm (as_left s a) a arm in
    let more = (process_events s' arms).1 in
    let later = process_events-browse (hear_all r (event_of arm)) s' arms in
    elim (on_arm-Follows r (as_left s a) a arm) [
      | inl (on, same) ↦
          rw (process_events, heard, on)
            (browse_all-append r.users messages more
              ∙ ap (λ users. browse_all users more) same
              ∙ later
              ∙ ap (λ (l : Replica). l.users)
                  (sym (hear_all-append r (event_of arm) (heard s' arms))))
      | inr (silent, (e, off)) ↦
          rw (process_events, heard, off) (ap (λ ms. browse_all r.users ms) silent)
    ]

-- From the Mumble server to the browser: for every sequence of control packets, if the connection is
-- synchronised and the event loop took all the events that the packets gave, then a browser that
-- followed the messages of the loop has, under every session number, the user that the control loop
-- has, whatever else the loop took in between.
pub browser-control_run :
    (sizes : Sizes) (ps : List ControlPacket) (s : EventState) (arms : List (Answers × Arm))
    → (control_run sizes initial_control ps).0.is_connected ≡ true
    → heard s arms ≡ (control_run sizes initial_control ps).1
    → (k : ℕ)
    → lookup k (browse_all [] (process_events s arms).1)
      ≡ lookup k (control_run sizes initial_control ps).0.users
browser-control_run sizes ps s arms up all k =
    let tables = control_run-SameTables sizes ps up in
    ap (λ users. lookup k users) (process_events-browse no_tables s arms)
    ∙ ap (λ es. lookup k (hear_all no_tables es).users) all
    ∙ tables.same_users k
