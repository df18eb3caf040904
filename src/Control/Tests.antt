-- ===== src/Control/Tests.antt =====
-- Runs of the control loop of src/mumble/client.rs: a user that moves, and a wrong CryptSetup.
use mumdota.Base.{
  ℕ, nat_eq, Eq, insert, ◌≡◌, refl, true, false, [], ◌∷◌, List, none, some, lookup, err, replicate,
}
use mumdota.Messages.{invalid_size}
use mumdota.Control.{
  ControlPacket, ChannelState, UserState, Sizes, channel_state, channel_remove, user_state,
  user_remove, server_sync, control_run, initial_control, crypt_state_from_message,
  handle_control_packet,
}
use mumdota.Control.Replica.{SameTables, hear_all, no_tables, control_run-SameTables}

abbrev sizes : Sizes
sizes = record { key_size = 16; block_size = 16 }

abbrev blank : UserState
blank = record {
  session = some 7;
  name = none;
  channel_id = none;
  mute = none;
  deaf = none;
  self_mute = none;
  self_deaf = none;
}

abbrev lobby : ChannelState
lobby = record { channel_id = some 1; name = some "Lobby"; parent = some 0; description = none }

-- Ann joins, the connection is synchronised, she moves to channel 1 and is muted there.
abbrev packets : List ControlPacket
packets =
    channel_state lobby
    ∷ user_state (record blank { name = some "Ann"; channel_id = some 0 })
    ∷ server_sync 9
    ∷ user_state (record blank { channel_id = some 1 })
    ∷ user_state (record blank { mute = some true })
    ∷ user_state (record blank { session = some 8; name = some "Bob" })
    ∷ user_remove 8
    ∷ channel_remove 1
    ∷ []

control_run-packets :
    lookup 7 (control_run sizes initial_control packets).0.users
    ≡ some (record {
      session_id = 7;
      name = "Ann";
      channel_id = 1;
      mute = true;
      deaf = false;
      self_mute = false;
      self_deaf = false;
    })
unfolding control_run handle_control_packet lookup insert mumdota.Base.remove
control_run-packets = refl

control_run-SameTables_example :
    SameTables
      (hear_all no_tables (control_run sizes initial_control packets).1)
      (control_run sizes initial_control packets).0
unfolding control_run handle_control_packet lookup insert mumdota.Base.remove
control_run-SameTables_example = control_run-SameTables sizes packets refl

crypt_state_from_message-short_key :
    crypt_state_from_message sizes (record {
      key = replicate 15 0;
      client_nonce = replicate 16 0;
      server_nonce = replicate 16 0;
    })
    ≡ err (invalid_size "key" 16 15)
unfolding crypt_state_from_message
crypt_state_from_message-short_key = refl
