-- ===== src/Capture.antt =====
-- The audio of the browser, src/webrtc/audio.rs: the task that reads the RTP packets of a track and
-- hands them to the bridge. What the channel answers is an argument; lists are newest first.
use Prim.Native.Char.{code}
use mumdota.Base.{
  ℕ, ◌+◌, Bool, true, false, ◌&&◌, String, List, [], ◌∷◌, ◌==◌, nat_eq, leb, if◌then◌else◌,
}
use mumdota.Uplink.{IncomingAudioPacket, TrySend, sent, full, closed}

abbrev pub to_ascii_lowercase : ℕ → ℕ
to_ascii_lowercase c = if leb b'A' c && leb c b'Z' then c + 32 else c

abbrev pub eq_ignore_ascii_case : String → String → Bool
eq_ignore_ascii_case String.[] String.[] = true
eq_ignore_ascii_case String.[] (String.◌∷◌ d t) = false
eq_ignore_ascii_case (String.◌∷◌ c s) String.[] = false
eq_ignore_ascii_case (String.◌∷◌ c s) (String.◌∷◌ d t) =
    to_ascii_lowercase (code c) == to_ascii_lowercase (code d) && eq_ignore_ascii_case s t

-- A packet that the track gives, as far as it is read here.
pub record RtpRead : Type 0 where
  pub payload : List ℕ
  pub sequence_number : ℕ
  pub timestamp : ℕ

pub record Capture : Type 0 where
  pub is_running : Bool
  pub packets : List IncomingAudioPacket

-- A track is read if it is audio, in Opus.
abbrev pub on_track : Bool → String → Capture
on_track is_audio mime_type = record {
  is_running = is_audio && eq_ignore_ascii_case mime_type "audio/opus";
  packets = [];
}

pub data Read : Type 0 where
  rtp : RtpRead → ℕ → TrySend → Read
  failed : Read

abbrev pub incoming_packet : RtpRead → ℕ → IncomingAudioPacket
incoming_packet r now = record {
  opus_data = r.payload;
  seq_num = r.sequence_number;
  timestamp = r.timestamp;
  received_at = now;
}

unfoldable pub on_read : Capture → Read → Capture
on_read c (rtp r now sent) = record c { packets = incoming_packet r now ∷ c.packets }
on_read c (rtp r now full) = c
on_read c (rtp r now closed) = record c { is_running = false }
on_read c failed = record c { is_running = false }

unfoldable pub capture_step : Capture → Read → Capture
unfolding on_read
capture_step c r = if c.is_running then on_read c r else c
