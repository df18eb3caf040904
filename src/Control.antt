-- ===== src/Control.antt =====
-- The control connection of src/mumble/client.rs: how a packet from the Mumble server changes the
-- tables of channels and users, and which events it gives. Messages are those of the
-- `mumble_protocol` crate: an optional field is an `Option`, and its getter gives 0, the empty text
-- or `false` for a field that is absent, as protobuf getters do. The sizes of keys and nonces are
-- constants of that crate, and arguments here.
pub mod Tables
pub mod Replica
mod Tests
use mumdota.Base.{
  ℕ, Bool, true, false, String, List, [], ◌∷◌, ◌++◌, Option, none, some, ◌==◌, nat_eq,
  if◌then◌else◌, Result, ok, err, ◌>>=◌, is_some, Map, lookup, insert, remove, values, length,
}
use mumdota.Messages.{ChannelInfo, UserInfo, UserStateData, Reason, invalid_size, rejected}

pub data MumbleEvent : Type 0 where
  connected : ℕ → List ChannelInfo → List UserInfo → MumbleEvent
  user_joined : UserInfo → MumbleEvent
  user_left : ℕ → MumbleEvent
  user_state_changed : UserStateData → MumbleEvent
  channel_added : ChannelInfo → MumbleEvent
  channel_updated : ChannelInfo → MumbleEvent
  channel_removed : ℕ → MumbleEvent
  chat_message : ℕ → ℕ → String → MumbleEvent
  disconnected : Reason → MumbleEvent

pub data MumbleCommand : Type 0 where
  send_chat : ℕ → String → MumbleCommand
  join_channel : ℕ → MumbleCommand
  set_mute set_deaf : Bool → MumbleCommand
  disconnect : MumbleCommand

abbrev pub get_or {ℓ} : {A : Type ℓ} → Option A → A → A
get_or none default = default
get_or (some a) default = a

pub record ChannelState : Type 0 where
  pub channel_id : Option ℕ
  pub name : Option String
  pub parent : Option ℕ
  pub description : Option String

pub record UserState : Type 0 where
  pub session : Option ℕ
  pub name : Option String
  pub channel_id : Option ℕ
  pub mute : Option Bool
  pub deaf : Option Bool
  pub self_mute : Option Bool
  pub self_deaf : Option Bool

pub record CryptSetup : Type 0 where
  pub key : List ℕ
  pub client_nonce : List ℕ
  pub server_nonce : List ℕ

pub data ControlPacket : Type 0 where
  channel_state : ChannelState → ControlPacket
  channel_remove : ℕ → ControlPacket
  user_state : UserState → ControlPacket
  user_remove : ℕ → ControlPacket
  crypt_setup : CryptSetup → ControlPacket
  server_sync : ℕ → ControlPacket
  text_message : ℕ → List ℕ → String → ControlPacket
  reject : ℕ → String → ControlPacket
  other : ControlPacket

-- `KEY_SIZE` and `BLOCK_SIZE`.
pub record Sizes : Type 0 where
  pub key_size : ℕ
  pub block_size : ℕ

-- `ClientCryptState::new_from` of the three texts.
pub record CryptState : Type 0 where
  pub key : List ℕ
  pub client_nonce : List ℕ
  pub server_nonce : List ℕ

unfoldable pub fixed_size_bytes : ℕ → List ℕ → String → Result Reason (List ℕ)
fixed_size_bytes n bytes field_name =
    if length bytes == n then ok bytes else err (invalid_size field_name n (length bytes))

unfoldable pub crypt_state_from_message : Sizes → CryptSetup → Result Reason CryptState
unfolding fixed_size_bytes
crypt_state_from_message sizes msg = do
  key ← fixed_size_bytes sizes.key_size msg.key "key"
  client_nonce ← fixed_size_bytes sizes.block_size msg.client_nonce "client nonce"
  server_nonce ← fixed_size_bytes sizes.block_size msg.server_nonce "server nonce"
  ok (record { key = key; client_nonce = client_nonce; server_nonce = server_nonce })

unfoldable pub merge_user_state : UserInfo → UserState → UserInfo
merge_user_state existing msg = record {
  session_id = existing.session_id;
  name = get_or msg.name existing.name;
  channel_id = get_or msg.channel_id existing.channel_id;
  mute = get_or msg.mute existing.mute;
  deaf = get_or msg.deaf existing.deaf;
  self_mute = get_or msg.self_mute existing.self_mute;
  self_deaf = get_or msg.self_deaf existing.self_deaf;
}

-- The variables of the control loop. `crypt_tx` tells whether the sender of the voice keys is still
-- there, and `crypt_sent` what it has sent.
pub record ControlState : Type 0 where
  pub crypt_state : Option CryptState
  pub crypt_tx : Bool
  pub crypt_sent : Option CryptState
  pub channels : Map ℕ ChannelInfo
  pub users : Map ℕ UserInfo
  pub is_connected : Bool

abbrev pub initial_control : ControlState
initial_control = record {
  crypt_state = none;
  crypt_tx = true;
  crypt_sent = none;
  channels = [];
  users = [];
  is_connected = false;
}

-- The new state, the events sent, and whether the loop goes on.
abbrev pub Handled : Type 0
Handled = ControlState × List MumbleEvent × Bool

abbrev pub channel_info : ChannelState → ChannelInfo
channel_info msg = record {
  id = get_or msg.channel_id 0;
  name = get_or msg.name "";
  parent_id = get_or msg.parent 0;
  description = get_or msg.description "";
}

abbrev pub user_info : UserState → UserInfo
user_info msg = record {
  session_id = get_or msg.session 0;
  name = get_or msg.name "";
  channel_id = get_or msg.channel_id 0;
  mute = get_or msg.mute false;
  deaf = get_or msg.deaf false;
  self_mute = get_or msg.self_mute false;
  self_deaf = get_or msg.self_deaf false;
}

abbrev pub user_state_data : UserState → UserStateData
user_state_data msg = record {
  session_id = get_or msg.session 0;
  channel_id = msg.channel_id;
  name = msg.name;
  mute = msg.mute;
  deaf = msg.deaf;
  self_mute = msg.self_mute;
  self_deaf = msg.self_deaf;
}

unfoldable pub on_channel_state : ControlState → ChannelState → Handled
on_channel_state s msg =
    let info = channel_info msg in
    let s' : ControlState = record s { channels = insert info.id info s.channels } in
    if s.is_connected
    then (if is_some (lookup info.id s.channels)
        then (s', channel_updated info ∷ [], true)
        else (s', channel_added info ∷ [], true))
    else (s', [], true)

unfoldable pub on_user_state : ControlState → UserState → Handled
unfolding merge_user_state
on_user_state s msg =
    let session_id = get_or msg.session 0 in
    let joined : ControlState = record s { users = insert session_id (user_info msg) s.users } in
    if s.is_connected
    then elim (lookup session_id s.users) [
      | some existing ↦ (
        record s { users = insert session_id (merge_user_state existing msg) s.users },
        user_state_changed (user_state_data msg) ∷ [],
        true,
      )
      | none ↦ (joined, user_joined (user_info msg) ∷ [], true)
    ]
    else (joined, [], true)

unfoldable pub on_crypt_setup : Sizes → ControlState → CryptSetup → Handled
unfolding crypt_state_from_message
on_crypt_setup sizes s msg = elim (crypt_state_from_message sizes msg) [
  | ok c ↦ (record s { crypt_state = some c }, [], true)
  | err reason ↦ (s, disconnected reason ∷ [], false)
]

-- `crypt_state.take()` and, if there was one, `crypt_tx.take()`.
unfoldable pub hand_over_keys : ControlState → Option CryptState → ControlState
hand_over_keys s none = s
hand_over_keys s (some c) =
    if s.crypt_tx
    then record s { crypt_state = none; crypt_tx = false; crypt_sent = some c }
    else record s { crypt_state = none }

unfoldable pub on_server_sync : ControlState → ℕ → Handled
unfolding hand_over_keys
on_server_sync s session_id = (
  hand_over_keys (record s { is_connected = true }) s.crypt_state,
  connected session_id (values s.channels) (values s.users) ∷ [],
  true,
)

abbrev pub if_connected : ControlState → MumbleEvent → List MumbleEvent
if_connected s e = if s.is_connected then e ∷ [] else []

abbrev pub first_or_zero : List ℕ → ℕ
first_or_zero [] = 0
first_or_zero (c ∷ cs) = c

unfoldable pub handle_control_packet : Sizes → ControlState → ControlPacket → Handled
unfolding on_channel_state on_user_state on_crypt_setup on_server_sync
handle_control_packet sizes s (channel_state msg) = on_channel_state s msg
handle_control_packet sizes s (channel_remove id) =
    (record s { channels = remove id s.channels }, if_connected s (channel_removed id), true)
handle_control_packet sizes s (user_state msg) = on_user_state s msg
handle_control_packet sizes s (user_remove session_id) =
    (record s { users = remove session_id s.users }, if_connected s (user_left session_id), true)
handle_control_packet sizes s (crypt_setup msg) = on_crypt_setup sizes s msg
handle_control_packet sizes s (server_sync session_id) = on_server_sync s session_id
handle_control_packet sizes s (text_message actor channel_ids message) =
    (s, chat_message actor (first_or_zero channel_ids) message ∷ [], true)
handle_control_packet sizes s (reject kind why) = (s, disconnected (rejected kind why) ∷ [], true)
handle_control_packet sizes s other = (s, [], true)

-- The packets of a connection, until one stops the loop: the last state and all events, in order.
unfoldable pub control_run :
    Sizes → ControlState → List ControlPacket → ControlState × List MumbleEvent
control_run sizes s [] = (s, [])
control_run sizes s (p ∷ ps) =
    let (s', events, goes_on) = handle_control_packet sizes s p in
    let rest = control_run sizes s' ps in
    if goes_on then (rest.0, events ++ rest.1) else (s', events)
