-- ===== src/Uplink.antt =====
-- The uplink of src/bridge.rs: RTP audio from the browser becomes numbered Mumble voice frames.
-- Timestamps are u32, RTP sequence numbers u16, frame numbers u64. One event of the loop's `select!`
-- carries the instant at which it is handled and what the channel to Mumble answers.
pub mod Frames
pub mod Loop
mod Tests
use mumdota.Base.{
  ℕ, ◌+◌, ◌-◌, ◌/◌, ◌%◌, ◌^◌, Bool, true, false, not, ◌||◌, List, [], ◌∷◌, Option, none, some, leb,
  ltb, ◌==◌, nat_eq, if◌then◌else◌, ok, err, wrapping_sub16, wrapping_sub32, wrapping_add64, millis,
  as_millis, is_some,
}
use mumdota.Opus.{opus_packet_total_samples}

pub record UplinkClock : Type 0 where
  pub last_timestamp : Option ℕ
  pub last_sequence : Option ℕ
  pub frame : ℕ
  pub samples : ℕ

abbrev pub default_clock : UplinkClock
default_clock = record { last_timestamp = none; last_sequence = none; frame = 0; samples = 0 }

-- The guard on the sequence number: a repeated or an older packet.
unfoldable pub is_stale : Option ℕ → ℕ → Bool
is_stale none sequence = false
is_stale (some last) sequence =
    let delta = wrapping_sub16 sequence last in delta == 0 || leb 0x8000 delta

-- The guard on the timestamp, and how many 10 ms frames it advances.
unfoldable pub frames_ahead : Option ℕ → ℕ → Option ℕ
frames_ahead none timestamp = some 0
frames_ahead (some last) timestamp =
    let delta = wrapping_sub32 timestamp last in
    if delta == 0 || leb 0x8000_0000 delta || not (delta % 480 == 0)
    then none
    else some (delta / 480)

-- `UplinkClock::packet`: the frame number, or nothing and the clock as it was.
unfoldable pub packet : UplinkClock → ℕ → ℕ → ℕ → Option ℕ × UplinkClock
unfolding is_stale frames_ahead
packet c timestamp sequence samples =
    if is_stale c.last_sequence sequence
    then (none, c)
    else elim (frames_ahead c.last_timestamp timestamp) [
      | none ↦ (none, c)
      | some ahead ↦
          let frame = wrapping_add64 c.frame ahead in
          (
            some frame,
            record {
              last_timestamp = some timestamp;
              last_sequence = some sequence;
              frame = frame;
              samples = samples;
            },
          )
    ]

unfoldable pub end_frame : UplinkClock → ℕ
end_frame c = wrapping_add64 c.frame (c.samples / 480)

pub record IncomingAudioPacket : Type 0 where
  pub opus_data : List ℕ
  pub seq_num : ℕ
  pub timestamp : ℕ
  pub received_at : ℕ

pub record WebrtcVoiceData : Type 0 where
  pub seq_num : ℕ
  pub opus_data : List ℕ
  pub last_frame : Bool

-- What `try_send` answers.
pub data TrySend : Type 0 where
  sent full closed : TrySend

-- The variables of the uplink task; `voice` is what the channel took, the newest first.
pub record Uplink : Type 0 where
  pub clock : UplinkClock
  pub last_packet : Option ℕ
  pub is_running : Bool
  pub voice : List WebrtcVoiceData

abbrev pub start_uplink : Uplink
start_uplink = record { clock = default_clock; last_packet = none; is_running = true; voice = [] }

pub data UplinkEvent : Type 0 where
  received : IncomingAudioPacket → ℕ → TrySend → UplinkEvent
  ticked : ℕ → TrySend → UplinkEvent
  stream_ended : UplinkEvent

abbrev pub try_send : TrySend → WebrtcVoiceData → List WebrtcVoiceData → List WebrtcVoiceData
try_send sent data_frame voice = data_frame ∷ voice
try_send full data_frame voice = voice
try_send closed data_frame voice = voice

abbrev pub is_closed : TrySend → Bool
is_closed closed = true
is_closed _ = false

-- The end of the packet arm, on what `clock.packet` returns.
unfoldable pub deliver :
    Uplink → IncomingAudioPacket → ℕ → TrySend → Option ℕ × UplinkClock → Uplink
deliver u p now answer (none, clock) = record u { clock = clock }
deliver u p now answer (some seq_num, clock) = record u {
  clock = clock;
  last_packet = some now;
  is_running = not (is_closed answer);
  voice =
      try_send answer (record { seq_num = seq_num; opus_data = p.opus_data; last_frame = false })
        u.voice;
}

unfoldable pub forward : Uplink → IncomingAudioPacket → ℕ → ℕ → TrySend → Uplink
unfolding packet deliver
forward u p samples now answer =
    deliver u p now answer (packet u.clock p.timestamp p.seq_num samples)

unfoldable pub on_packet : Uplink → IncomingAudioPacket → ℕ → TrySend → Uplink
unfolding forward
on_packet u p now answer =
    if ltb 120 (as_millis (now - p.received_at))
    then u
    else elim (opus_packet_total_samples p.opus_data) [
      | ok samples ↦ if samples % 480 == 0 then forward u p samples now answer else u
      | err e ↦ u
    ]

unfoldable pub is_silent : Option ℕ → ℕ → Bool
is_silent none now = false
is_silent (some last) now = leb (millis 200) (now - last)

-- The timer arm: the end of a talk spurt.
unfoldable pub on_tick : Uplink → ℕ → TrySend → Uplink
unfolding is_silent end_frame
on_tick u now answer =
    if is_silent u.last_packet now
    then record u {
      last_packet = none;
      voice =
          try_send answer
            (record { seq_num = end_frame u.clock; opus_data = []; last_frame = true }) u.voice;
    }
    else u

unfoldable pub uplink_step : Uplink → UplinkEvent → Uplink
unfolding on_packet on_tick
uplink_step u (received p now answer) = if u.is_running then on_packet u p now answer else u
uplink_step u (ticked now answer) = if u.is_running then on_tick u now answer else u
uplink_step u stream_ended = record u { is_running = false }

unfoldable pub uplink_run : Uplink → List UplinkEvent → Uplink
uplink_run u [] = u
uplink_run u (e ∷ events) = uplink_run (uplink_step u e) events
