-- ===== src/Sessions.antt =====
-- The session manager of src/session.rs. An `Arc` of a session is a number, the place of the session
-- in `heap`, so that the table from connections to sessions and a running event task can name the
-- same session. A permit of the semaphore is `slots` while it is free, an entry of `in_flight` while
-- a connection is being set up, and the `slot` of a session afterwards. Every function between two
-- awaits is a step of its own; the methods are their compositions. What the Mumble client is told is
-- recorded in the session, and what is sent to a WebSocket in `sent`, newest first.
pub mod Each
pub mod Slots
pub mod Released
pub mod Table
pub mod Generations
pub mod Closing
mod Tests
use mumdota.Base.{
  set_elem, remove_elem, ℕ, suc, zero, Bool, true, false, String, List, [], ◌∷◌, ◌++◌, Option, none,
  some, length, get_elem?, ◌==◌, nat_eq, string_eq, if◌then◌else◌, Result, ok, err, Map, lookup,
  insert, remove, contains_key,
}
use mumdota.Messages.{ServerMessage}
use mumdota.Control.{MumbleCommand, disconnect}

-- The options of the session that the manager empties are tests here: whether they hold something.
-- `webrtc_closed` is whether the WebRTC session was told to close; a failure of that is only logged.
pub record UserSession : Type 0 where
  pub username : String
  pub ws_tx : ℕ
  pub session_id : Option ℕ
  pub has_task : Bool
  pub has_bridge : Bool
  pub has_voice : Bool
  pub slot : Bool
  pub closed : Bool
  pub webrtc_closed : Bool
  pub commands : List MumbleCommand

-- A call of `connect_user` between its permit and its session.
pub record Connecting : Type 0 where
  pub conn_id : String
  pub username : String
  pub ws_tx : ℕ

pub record SessionManager : Type 0 where
  pub sessions : Map String ℕ
  pub heap : List UserSession
  pub slots : ℕ
  pub in_flight : List Connecting
  pub shutdown : Bool
  pub sent : List (ℕ × ServerMessage)

pub data SessionError : Type 0 where
  shutting_down already_connected server_full session_not_found setup_failed mumble_disconnected :
      SessionError

abbrev pub new_manager : ℕ → SessionManager
new_manager max_connections = record {
  sessions = [];
  heap = [];
  slots = max_connections;
  in_flight = [];
  shutdown = false;
  sent = [];
}

abbrev pub new_session : Connecting → UserSession
new_session c = record {
  username = c.username;
  ws_tx = c.ws_tx;
  session_id = none;
  has_task = false;
  has_bridge = false;
  has_voice = false;
  slot = true;
  closed = false;
  webrtc_closed = false;
  commands = [];
}

-- What `shutdown_user_session` does to a session that holds its slot.
abbrev pub shut : UserSession → UserSession
shut u = record u {
  closed = true;
  commands = disconnect ∷ u.commands;
  has_task = false;
  has_bridge = false;
  has_voice = false;
  webrtc_closed = true;
  slot = false;
}

unfoldable pub shutdown_user_session : SessionManager → ℕ → SessionManager
shutdown_user_session m ref = elim (get_elem? m.heap ref) [
  | none ↦ m
  | some u ↦
      if u.slot then record m { heap = set_elem m.heap ref (shut u); slots = suc m.slots } else m
]

-- `connect_user` up to its permit.
unfoldable pub begin_connect :
    SessionManager → String → String → ℕ → Result SessionError (Unit {0}) × SessionManager
begin_connect m conn_id username ws_tx =
    if m.shutdown
    then (err shutting_down, m)
    else if contains_key conn_id m.sessions
    then (err already_connected, m)
    else elim m.slots [
      | zero ↦ (err server_full, m)
      | suc free ↦
          (let c : Connecting = record { conn_id = conn_id; username = username; ws_tx = ws_tx } in
            (ok tt, record m { slots = free; in_flight = c ∷ m.in_flight }))
    ]

-- An error of the resolver, of Mumble or of WebRTC ends the call and drops its permit.
unfoldable pub fail_connect : SessionManager → ℕ → Result SessionError (Unit {0}) × SessionManager
fail_connect m n = elim (get_elem? m.in_flight n) [
  | none ↦ (ok tt, m)
  | some c ↦
      (err setup_failed, record m { slots = suc m.slots; in_flight = remove_elem m.in_flight n })
]

-- The rest of `connect_user` once the set-up has succeeded.
unfoldable pub finish_connect : SessionManager → ℕ → Result SessionError (Unit {0}) × SessionManager
unfolding shutdown_user_session
finish_connect m n = elim (get_elem? m.in_flight n) [
  | none ↦ (ok tt, m)
  | some c ↦
      (let ref = length m.heap in
        let made : SessionManager = record m {
          heap = m.heap ++ new_session c ∷ [];
          in_flight = remove_elem m.in_flight n;
        } in
        if contains_key c.conn_id m.sessions
        then (err already_connected, shutdown_user_session made ref)
        else (ok tt, record made { sessions = insert c.conn_id ref m.sessions }))
]

abbrev pub get_session : SessionManager → String → Result SessionError ℕ
get_session m conn_id = elim (lookup conn_id m.sessions) [
  | some ref ↦ ok ref
  | none ↦ err session_not_found
]

-- `send_chat`, `join_channel`, `set_mute` and `set_deaf`. The Boolean tells whether the loop of the
-- Mumble client still takes commands; `send_command` fails if not.
unfoldable pub command :
    SessionManager → String → MumbleCommand → Bool → Result SessionError (Unit {0}) × SessionManager
command m conn_id c is_open = elim (get_session m conn_id) [
  | err e ↦ (err e, m)
  | ok ref ↦ elim (get_elem? m.heap ref) [
    | none ↦ (err session_not_found, m)
    | some u ↦
        if is_open
        then (
          ok tt,
          record m { heap = set_elem m.heap ref (record u { commands = c ∷ u.commands }) },
        )
        else (err mumble_disconnected, m)
  ]
]

-- The first step of `disconnect_user`.
unfoldable pub take_out : SessionManager → String → SessionManager
take_out m conn_id = record m { sessions = remove conn_id m.sessions }

unfoldable pub disconnect_user : SessionManager → String → SessionManager
unfolding shutdown_user_session take_out
disconnect_user m conn_id = elim (lookup conn_id m.sessions) [
  | none ↦ take_out m conn_id
  | some ref ↦ shutdown_user_session (take_out m conn_id) ref
]

-- The event task keeps the handle of the task that sets voice up, unless the session is closed.
unfoldable pub start_task : SessionManager → ℕ → SessionManager
start_task m ref = elim (get_elem? m.heap ref) [
  | none ↦ m
  | some u ↦
      if u.closed then m else record m { heap = set_elem m.heap ref (record u { has_task = true }) }
]

-- The end of that task, which puts voice and bridge into the session; an aborted task does nothing.
unfoldable pub attach_voice : SessionManager → ℕ → SessionManager
attach_voice m ref = elim (get_elem? m.heap ref) [
  | none ↦ m
  | some u ↦
      if u.has_task
      then record m {
        heap = set_elem m.heap ref (record u { has_voice = true; has_bridge = true });
      }
      else m
]

abbrev pub send_error : SessionManager → ℕ → Option ServerMessage → List (ℕ × ServerMessage)
send_error m ref none = m.sent
send_error m ref (some message) = elim (get_elem? m.heap ref) [
  | none ↦ m.sent
  | some u ↦ (u.ws_tx, message) ∷ m.sent
]

-- The second step of `finish_session`, under the lock of the table.
unfoldable pub unlink : SessionManager → String → ℕ → Option ServerMessage → Bool × SessionManager
unlink m conn_id ref terminal_error = elim (lookup conn_id m.sessions) [
  | none ↦ (false, m)
  | some current ↦
      if current == ref
      then (
        true,
        record m { sessions = remove conn_id m.sessions; sent = send_error m ref terminal_error },
      )
      else (false, m)
]

unfoldable pub finish_session :
    SessionManager → String → ℕ → Option ServerMessage → Bool × SessionManager
unfolding shutdown_user_session unlink
finish_session m conn_id ref terminal_error =
    unlink (shutdown_user_session m ref) conn_id ref terminal_error

-- The steps of the calls and tasks, in whatever order they come.
pub data Step : Type 0 where
  begins : String → String → ℕ → Step
  fails finishes : ℕ → Step
  commands : String → MumbleCommand → Bool → Step
  takes_out : String → Step
  shuts_down starts_task attaches_voice : ℕ → Step
  unlinks : String → ℕ → Option ServerMessage → Step
  begins_shutdown : Step

unfoldable pub step : SessionManager → Step → SessionManager
unfolding begin_connect fail_connect finish_connect command take_out shutdown_user_session unlink
    start_task attach_voice
step m (begins conn_id username ws_tx) = (begin_connect m conn_id username ws_tx).1
step m (fails n) = (fail_connect m n).1
step m (finishes n) = (finish_connect m n).1
step m (commands conn_id c is_open) = (command m conn_id c is_open).1
step m (takes_out conn_id) = take_out m conn_id
step m (shuts_down ref) = shutdown_user_session m ref
step m (starts_task ref) = start_task m ref
step m (attaches_voice ref) = attach_voice m ref
step m (unlinks conn_id ref terminal_error) = (unlink m conn_id ref terminal_error).1
step m begins_shutdown = record m { shutdown = true }

unfoldable pub run_steps : SessionManager → List Step → SessionManager
run_steps m [] = m
run_steps m (a ∷ steps) = run_steps (step m a) steps
