-- ===== src/Voice.antt =====
-- The voice connection of src/mumble/voice.rs: its task, one arm of the `select!` at a time, and the
-- handle on it. UDP packets are those of the `mumble_protocol` crate, decrypted. Whether the socket
-- took a packet, and what the channel to the bridge answers, are arguments of the arm; lists are newest
-- first.
use mumdota.Base.{ℕ, Bool, true, false, not, List, [], ◌∷◌, if◌then◌else◌, Result, ok, err}
use mumdota.Uplink.{WebrtcVoiceData, TrySend, sent, full, closed}
use mumdota.Speakers.{MumbleVoiceData}

-- `VoicePacketPayload`: Opus frames with the mark of the last one, or another codec.
pub data VoicePacketPayload : Type 0 where
  opus : List ℕ → Bool → VoicePacketPayload
  other_codec : VoicePacketPayload

-- `VoicePacket` from the server: a ping, or the audio of a session.
pub data VoicePacket : Type 0 where
  pong : ℕ → VoicePacket
  audio : ℕ → ℕ → VoicePacketPayload → VoicePacket

-- What goes to the server: a ping with its timestamp, or audio for a target, with the frame it is of.
pub data VoiceDatagram : Type 0 where
  ping : ℕ → VoiceDatagram
  speech : ℕ → WebrtcVoiceData → VoiceDatagram

pub record VoiceTask : Type 0 where
  pub is_running : Bool
  pub incoming : List MumbleVoiceData
  pub outgoing : List VoiceDatagram

-- The first packet authenticates the endpoint; without it the task ends.
abbrev pub start_task : Bool → VoiceTask
start_task true = record { is_running = true; incoming = []; outgoing = ping 0 ∷ [] }
start_task false = record { is_running = false; incoming = []; outgoing = [] }

pub data Arm : Type 0 where
  ticked : ℕ → Bool → Arm
  arrived : VoicePacket → ℕ → TrySend → Arm
  invalid : Arm
  udp_ended : Arm
  spoken : WebrtcVoiceData → Bool → Arm
  channel_closed : Arm

abbrev pub when_sent : Bool → VoiceDatagram → List VoiceDatagram → List VoiceDatagram
when_sent true d outgoing = d ∷ outgoing
when_sent false d outgoing = outgoing

abbrev pub when_taken : TrySend → MumbleVoiceData → List MumbleVoiceData → List MumbleVoiceData
when_taken sent d incoming = d ∷ incoming
when_taken full d incoming = incoming
when_taken closed d incoming = incoming

unfoldable pub on_voice_packet : VoiceTask → VoicePacket → ℕ → TrySend → VoiceTask
on_voice_packet t (pong timestamp) now answer = t
on_voice_packet t (audio session_id seq_num (opus opus_data last)) now answer = record t {
  incoming =
      when_taken answer
        (record {
          session_id = session_id;
          seq_num = seq_num;
          opus_data = opus_data;
          last_frame = last;
          received_at = now;
        })
        t.incoming;
}
on_voice_packet t (audio session_id seq_num other_codec) now answer = t

unfoldable pub on_arm : VoiceTask → Arm → VoiceTask
unfolding on_voice_packet
on_arm t (ticked timestamp is_sent) = record t {
  outgoing = when_sent is_sent (ping timestamp) t.outgoing;
}
on_arm t (arrived packet now answer) = on_voice_packet t packet now answer
on_arm t invalid = t
on_arm t udp_ended = record t { is_running = false }
on_arm t (spoken frame is_sent) = record t {
  outgoing = when_sent is_sent (speech 0 frame) t.outgoing;
}
on_arm t channel_closed = record t { is_running = false }

unfoldable pub voice_step : VoiceTask → Arm → VoiceTask
unfolding on_arm
voice_step t a = if t.is_running then on_arm t a else t

unfoldable pub voice_run : VoiceTask → List Arm → VoiceTask
voice_run t [] = t
voice_run t (a ∷ arms) = voice_run (voice_step t a) arms

-- `MumbleVoice`: whether its task and its two channels are there.
pub record MumbleVoice : Type 0 where
  pub task : Bool
  pub voice_rx : Bool
  pub voice_tx : Bool

pub data VoiceError : Type 0 where
  receiver_taken sender_taken : VoiceError

unfoldable pub take_channels : MumbleVoice → Result VoiceError (Unit {0}) × MumbleVoice
take_channels v =
    if not v.voice_rx
    then (err receiver_taken, v)
    else if not v.voice_tx
    then (err sender_taken, record v { voice_rx = false })
    else (ok tt, record v { voice_rx = false; voice_tx = false })

unfoldable pub shutdown : MumbleVoice → MumbleVoice
shutdown v = record v { voice_rx = false; voice_tx = false; task = false }
