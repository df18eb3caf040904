-- ===== src/Proto.antt =====
-- The packets that src/mumble/proto.rs builds for the Mumble server. A packet is the fields that the
-- builder sets; the clock that a ping carries is an argument.
pub mod Echo
use mumdota.Base.{ℕ, Bool, true, String, List, [], ◌∷◌, Option, none, some, if◌then◌else◌}
use mumdota.Control.{UserState}

pub record Version : Type 0 where
  pub version : ℕ
  pub release : String
  pub os : String
  pub os_version : String

pub record Authenticate : Type 0 where
  pub username : String
  pub opus : Bool

pub record TextMessage : Type 0 where
  pub channel_id : List ℕ
  pub message : String

pub record Ping : Type 0 where
  pub timestamp : ℕ

-- `msgs::UserState::new()`
abbrev pub no_user_state : UserState
no_user_state = record {
  session = none;
  name = none;
  channel_id = none;
  mute = none;
  deaf = none;
  self_mute = none;
  self_deaf = none;
}

unfoldable pub build_version_message : Version
build_version_message = record {
  version = 0x00010400;
  release = "mumdota 0.1.0";
  os = "Linux";
  os_version = "Rust";
}

unfoldable pub build_authenticate_message : String → Authenticate
build_authenticate_message username = record { username = username; opus = true }

unfoldable pub build_text_message : ℕ → String → TextMessage
build_text_message channel_id message = record { channel_id = channel_id ∷ []; message = message }

unfoldable pub build_user_state_channel : ℕ → UserState
build_user_state_channel channel_id = record no_user_state { channel_id = some channel_id }

unfoldable pub build_user_state_mute : Bool → UserState
build_user_state_mute self_mute = record no_user_state { self_mute = some self_mute }

unfoldable pub build_user_state_deaf : Bool → UserState
build_user_state_deaf self_deaf =
    let msg : UserState = record no_user_state { self_deaf = some self_deaf } in
    if self_deaf then record msg { self_mute = some true } else msg

unfoldable pub build_ping : ℕ → Ping
build_ping now = record { timestamp = now }
