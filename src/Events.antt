-- ===== src/Events.antt =====
-- The event loop of a session, the `select!` of `process_events` in src/session.rs, on what the Mumble
-- client reports and what the WebRTC session reports. Beside an event comes what the world answers
-- while it is handled: the results of `add_track` and `remove_track`, the seconds of the clock, the
-- ICE configuration, and what `offer` gave; and what other tasks have made of the session before the
-- loop takes its lock. A handler gives the messages it sends, in order.
pub mod Browser
pub mod Speaking
mod Tests
use mumdota.Base.{
  ℕ, Bool, true, false, not, String, List, [], ◌∷◌, ◌++◌, Option, none, some, map, any, keep, ◌==◌,
  nat_eq, if◌then◌else◌, Result, ok, err, Map, lookup, insert, remove,
}
use mumdota.Credentials.{IceConfig}
use mumdota.Messages.{
  UserInfo, ChannelInfo, UserStateData, IceCandidateData, ServerMessage, ErrorText, text, reason,
  Reason, SenderName, known, user_number,
}
use mumdota.Control.{
  MumbleEvent, connected, user_joined, user_left, user_state_changed, channel_added,
  channel_updated, channel_removed, chat_message, disconnected,
}
use mumdota.Speakers.{Speakers, add, remove_speaker}

pub data WebrtcEvent : Type 0 where
  ice_candidate : IceCandidateData → WebrtcEvent
  negotiation_needed : WebrtcEvent
  -- Whether the new state is failed or disconnected, and the number of its text.
  connection_state_changed : Bool → ℕ → WebrtcEvent

pub record Answers : Type 0 where
  pub added : Result ErrorText ℕ
  pub removed : Result ErrorText (Unit {0})
  pub now : ℕ
  pub ice : IceConfig
  pub offered : Result ErrorText (Option String)
  pub closed : Bool
  pub started : Bool
  pub speakers : Speakers

-- The part of the session, and the variable of the loop, that the handlers use.
pub record EventState : Type 0 where
  pub closed : Bool
  pub session_id : Option ℕ
  pub known_speakers : List ℕ
  pub started : Bool
  pub speakers : Speakers
  pub user_map : Map ℕ String

abbrev pub initial_events : EventState
initial_events = record {
  closed = false;
  session_id = none;
  known_speakers = [];
  started = false;
  speakers = [];
  user_map = [];
}

-- How a handler ends: the loop goes on, or stops with what `finish_session` sends.
pub data Next : Type 0 where
  goes_on : Next
  stops : Option ServerMessage → Next

abbrev pub Reaction : Type 0
Reaction = EventState × List ServerMessage × Next

-- `known_speakers` is a set: a list without what is put in twice.
abbrev pub insert_speaker : ℕ → List ℕ → List ℕ
insert_speaker id ids = if any (λ i. i == id) ids then ids else id ∷ ids

abbrev pub without : ℕ → List ℕ → List ℕ
without id ids = keep (λ i. not (i == id)) ids

unfoldable pub name_users : Map ℕ String → List UserInfo → Map ℕ String
name_users m [] = m
name_users m (u ∷ us) = name_users (insert u.session_id u.name m) us

-- The message for an error that a call on the speakers gives.
abbrev pub voice_error : Result ErrorText (Unit {0}) → List ServerMessage
voice_error (ok done) = []
voice_error (err e) = ServerMessage.error "voice_error" e ∷ []

unfoldable pub on_connected :
    EventState → IceConfig → ℕ → List ChannelInfo → List UserInfo → Reaction
on_connected s ice session_id channels users =
    let named : EventState = record s { user_map = name_users s.user_map users } in
    if s.closed then (named, [], stops none) else (
      record named {
        session_id = some session_id;
        known_speakers = without session_id (map (λ (u : UserInfo). u.session_id) users);
      },
      ServerMessage.connected (record {
        protocol_version = 2;
        ice = ice;
        session_id = session_id;
        channels = channels;
        users = users;
      })
          ∷ [],
      goes_on,
    )

abbrev pub is_own : Option ℕ → ℕ → Bool
is_own none id = false
is_own (some own) id = own == id

unfoldable pub on_user_joined : EventState → Result ErrorText ℕ → UserInfo → Reaction
on_user_joined s added user =
    let named = insert user.session_id user.name s.user_map in
    let joined = ServerMessage.user_joined user ∷ [] in
    let heard = insert_speaker user.session_id s.known_speakers in
    if is_own s.session_id user.session_id
    then (record s { user_map = named }, joined, goes_on)
    else if s.started
    then (let (r, speakers) = add s.speakers user.session_id added in
        (
          record s { user_map = named; known_speakers = heard; speakers = speakers },
          voice_error r ++ joined,
          goes_on,
        ))
    else (record s { user_map = named; known_speakers = heard }, joined, goes_on)

unfoldable pub on_user_left : EventState → Result ErrorText (Unit {0}) → ℕ → Reaction
on_user_left s removed session_id =
    let (r, speakers) = remove_speaker s.speakers session_id removed in
    (
      record s {
        known_speakers = without session_id s.known_speakers;
        speakers = speakers;
        user_map = remove session_id s.user_map;
      },
      voice_error r ++ ServerMessage.user_left session_id ∷ [],
      goes_on,
    )

abbrev pub rename : Option String → ℕ → Map ℕ String → Map ℕ String
rename none id m = m
rename (some name) id m = insert id name m

abbrev pub sender_name : Option String → ℕ → SenderName
sender_name none sender = user_number sender
sender_name (some name) sender = known name

unfoldable pub on_mumble_event : EventState → Answers → MumbleEvent → Reaction
unfolding on_connected on_user_joined on_user_left
on_mumble_event s a (connected session_id channels users) =
    on_connected s a.ice session_id channels users
on_mumble_event s a (user_joined user) = on_user_joined s a.added user
on_mumble_event s a (user_left session_id) = on_user_left s a.removed session_id
on_mumble_event s a (user_state_changed state) = (
  record s { user_map = rename state.name state.session_id s.user_map },
  ServerMessage.user_state state ∷ [],
  goes_on,
)
on_mumble_event s a (channel_added ch) = (s, ServerMessage.channel_updated (ch ∷ []) ∷ [], goes_on)
on_mumble_event s a (channel_updated ch) =
    (s, ServerMessage.channel_updated (ch ∷ []) ∷ [], goes_on)
on_mumble_event s a (channel_removed id) = (s, [], goes_on)
on_mumble_event s a (chat_message sender channel_id message) = (
  s,
  ServerMessage.chat_received (record {
    sender_session = sender;
    sender_name = sender_name (lookup sender s.user_map) sender;
    channel_id = channel_id;
    message = message;
    timestamp = a.now;
  })
      ∷ [],
  goes_on,
)
on_mumble_event s a (disconnected why) =
    (s, [], stops (some (ServerMessage.error "mumble_disconnected" (reason why))))

abbrev pub offer_message : Result ErrorText (Option String) → List ServerMessage
offer_message (ok none) = []
offer_message (ok (some sdp)) = ServerMessage.offer sdp ∷ []
offer_message (err e) = ServerMessage.error "voice_error" e ∷ []

unfoldable pub on_webrtc_event : EventState → Answers → WebrtcEvent → Reaction
on_webrtc_event s a (ice_candidate c) = (s, ServerMessage.ice_candidate c ∷ [], goes_on)
on_webrtc_event s a negotiation_needed = (s, offer_message a.offered, goes_on)
on_webrtc_event s a (connection_state_changed is_lost state) = (
  s,
  (if is_lost
      then ServerMessage.error "webrtc_disconnected" (ErrorText.foreign state) ∷ []
      else []),
  goes_on,
)

-- What the loop takes: an event of either client, or the end of one of its channels.
pub data Arm : Type 0 where
  mumble : MumbleEvent → Arm
  webrtc : WebrtcEvent → Arm
  ended : Arm

-- The session as other tasks have left it.
abbrev pub as_left : EventState → Answers → EventState
as_left s a = record s { closed = a.closed; started = a.started; speakers = a.speakers }

unfoldable pub on_arm : EventState → Answers → Arm → Reaction
unfolding on_mumble_event on_webrtc_event
on_arm s a (mumble e) = on_mumble_event s a e
on_arm s a (webrtc e) = on_webrtc_event s a e
on_arm s a ended = (s, [], stops none)

-- The loop: its last state, all its messages in order, and how it ended.
unfoldable pub process_events : EventState → List (Answers × Arm) → Reaction
unfolding on_arm
process_events s [] = (s, [], goes_on)
process_events s ((a, arm) ∷ arms) =
    let (s', messages, next) = on_arm (as_left s a) a arm in
    let (s'', more, last) = process_events s' arms in
    elim next [ goes_on ↦ (s'', messages ++ more, last) | stops e ↦ (s', messages, stops e) ]
