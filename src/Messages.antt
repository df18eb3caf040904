-- ===== src/Messages.antt =====
-- The messages of src/ws/messages.rs. A text that the code formats is given by what it is made of.
use mumdota.Base.{ℕ, Bool, String, List, Option}
use mumdota.Credentials.{IceConfig}

pub record ChannelInfo : Type 0 where
  pub id : ℕ
  pub name : String
  pub parent_id : ℕ
  pub description : String

pub record UserInfo : Type 0 where
  pub session_id : ℕ
  pub name : String
  pub channel_id : ℕ
  pub mute : Bool
  pub deaf : Bool
  pub self_mute : Bool
  pub self_deaf : Bool

pub record UserStateData : Type 0 where
  pub session_id : ℕ
  pub channel_id : Option ℕ
  pub name : Option String
  pub mute : Option Bool
  pub deaf : Option Bool
  pub self_mute : Option Bool
  pub self_deaf : Option Bool

pub record IceCandidateData : Type 0 where
  pub candidate : String
  pub sdp_mid : Option String
  pub sdp_mline_index : Option ℕ

pub record ConnectedData : Type 0 where
  pub protocol_version : ℕ
  pub ice : IceConfig
  pub session_id : ℕ
  pub channels : List ChannelInfo
  pub users : List UserInfo

-- The name of a chat sender: a known one, or `User#` and the session number.
pub data SenderName : Type 0 where
  known : String → SenderName
  user_number : ℕ → SenderName

pub record ChatReceivedData : Type 0 where
  pub sender_session : ℕ
  pub sender_name : SenderName
  pub channel_id : ℕ
  pub message : String
  pub timestamp : ℕ

-- The reasons why the Mumble connection ends: the texts that the control loop formats.
pub data Reason : Type 0 where
  invalid_size : String → ℕ → ℕ → Reason
  rejected : ℕ → String → Reason
  stream_error : String → Reason
  connection_closed : Reason

-- The message of an error: a fixed text, one of `Reason`, or the text of a library's error.
pub data ErrorText : Type 0 where
  text : String → ErrorText
  reason : Reason → ErrorText
  foreign : ℕ → ErrorText

pub data ServerMessage : Type 0 where
  offer : String → ServerMessage
  ice_candidate : IceCandidateData → ServerMessage
  ice_config : IceConfig → ServerMessage
  connected : ConnectedData → ServerMessage
  user_joined : UserInfo → ServerMessage
  user_left : ℕ → ServerMessage
  user_state : UserStateData → ServerMessage
  chat_received : ChatReceivedData → ServerMessage
  channel_updated : List ChannelInfo → ServerMessage
  error : String → ErrorText → ServerMessage

pub data ClientMessage : Type 0 where
  connect : String → ClientMessage
  disconnect : ClientMessage
  client_offer : String → ClientMessage
  answer : String → ClientMessage
  start_voice : ClientMessage
  ice_restart : ClientMessage
  ice_refresh : ClientMessage
  client_candidate : IceCandidateData → ClientMessage
  chat_send : ℕ → String → ClientMessage
  channel_join : ℕ → ClientMessage
  mute : Bool → ClientMessage
  deafen : Bool → ClientMessage
