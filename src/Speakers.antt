-- ===== src/Speakers.antt =====
-- The downlink of src/webrtc/speakers.rs: one RTP track and media clock for each Mumble speaker.
-- Instants are nanoseconds. `ticks` stands for the float conversion of a duration to RTP time,
-- `(d.as_secs_f64() * 48000.0) as u32`. What the peer connection answers to `add_track` and
-- `remove_track` is an argument.
pub mod Clock
pub mod Tracks
mod Tests
use Prim.Native.Nat.{max}
use mumdota.Base.{
  ℕ, ◌+◌, ◌-◌, ◌*◌, ◌%◌, ◌^◌, Bool, true, false, not, ◌||◌, List, [], ◌∷◌, Option, none, some, leb,
  ltb, ◌==◌, nat_eq, if◌then◌else◌, Result, ok, err, wrapping_add16, wrapping_add32, as_millis,
  is_some, Map, lookup, insert, remove, contains_key,
}
use mumdota.Opus.{OpusError, opus_packet_total_samples}

pub record MediaClock : Type 0 where
  pub last_frame : Option ℕ
  pub timestamp : ℕ
  pub sequence : ℕ
  pub samples : ℕ
  pub ended : Bool
  pub received_at : Option ℕ

abbrev pub default_media_clock : MediaClock
default_media_clock = record {
  last_frame = none;
  timestamp = 0;
  sequence = 0;
  samples = 0;
  ended = false;
  received_at = none;
}

abbrev pub is_after_pause : Option ℕ → ℕ → Bool
is_after_pause none now = false
is_after_pause (some last) now = ltb 500 (as_millis (now - last))

unfoldable pub is_new_talk : MediaClock → ℕ → Bool
is_new_talk c now = not (is_some c.last_frame) || c.ended || is_after_pause c.received_at now

abbrev pub elapsed_ticks : (ℕ → ℕ) → Option ℕ → ℕ → ℕ
elapsed_ticks ticks none now = 0
elapsed_ticks ticks (some t) now = ticks (now - t)

-- The RTP time of the next packet, or nothing for a frame that is late in its talk spurt.
unfoldable pub next_timestamp : (ℕ → ℕ) → MediaClock → ℕ → ℕ → Option ℕ → Option ℕ
unfolding is_new_talk
next_timestamp ticks c frame now none = some c.timestamp
next_timestamp ticks c frame now (some last) =
    if is_new_talk c now
    then some (wrapping_add32 c.timestamp (max (elapsed_ticks ticks c.received_at now) c.samples))
    else if leb frame last
    then none
    else some (wrapping_add32 c.timestamp ((frame - last) * 480 % 2 ^ 64 % 2 ^ 32))

-- Sequence number, timestamp and marker of an RTP packet.
pub record Stamp : Type 0 where
  pub sequence : ℕ
  pub timestamp : ℕ
  pub marker : Bool

-- The end of `MediaClock::packet`, from the new RTP time on.
abbrev pub stamp_packet : MediaClock → ℕ → ℕ → Bool → ℕ → Option ℕ → Option Stamp × MediaClock
stamp_packet c frame samples ended now none = (none, c)
stamp_packet c frame samples ended now (some timestamp) =
    let sequence = wrapping_add16 c.sequence 1 in
    (
      some (record { sequence = sequence; timestamp = timestamp; marker = is_new_talk c now }),
      record {
        last_frame = some frame;
        timestamp = timestamp;
        sequence = sequence;
        samples = samples;
        ended = ended;
        received_at = some now;
      },
    )

unfoldable pub packet : (ℕ → ℕ) → MediaClock → ℕ → ℕ → Bool → ℕ → Option Stamp × MediaClock
unfolding next_timestamp
packet ticks c frame samples ended now =
    stamp_packet c frame samples ended now (next_timestamp ticks c frame now c.last_frame)

pub record MumbleVoiceData : Type 0 where
  pub session_id : ℕ
  pub seq_num : ℕ
  pub opus_data : List ℕ
  pub last_frame : Bool
  pub received_at : ℕ

pub record RtpPacket : Type 0 where
  pub stamp : Stamp
  pub payload : List ℕ

abbrev pub to_rtp : List ℕ → Option Stamp → Option RtpPacket
to_rtp payload none = none
to_rtp payload (some stamp) = some (record { stamp = stamp; payload = payload })

-- The body of `write` on the speaker that it finds: what is written to the track, if anything.
unfoldable pub hear :
    (ℕ → ℕ) → MediaClock → MumbleVoiceData → ℕ → Result OpusError (Option RtpPacket) × MediaClock
unfolding packet
hear ticks c d now = elim d.opus_data [
  | [] ↦ (ok none, record c { ended = c.ended || d.last_frame })
  | byte ∷ bytes ↦ elim (opus_packet_total_samples d.opus_data) [
    | err e ↦ (err e, c)
    | ok samples ↦
        let (stamp, c') = packet ticks c d.seq_num samples d.last_frame now in
        (ok (to_rtp d.opus_data stamp), c')
  ]
]

-- A speaker: the id that names its track, the sender that the peer connection gave, and its clock.
pub record Speaker : Type 0 where
  pub track : ℕ
  pub sender : ℕ
  pub clock : MediaClock

abbrev pub Speakers : Type 0
Speakers = Map ℕ Speaker

-- `add`, where `answer` is the sender that `add_track` gives, or its error.
unfoldable pub add {ℓ} : {E : Type ℓ} → Speakers → ℕ → Result E ℕ → Result E (Unit {0}) × Speakers
add speakers session answer =
    if contains_key session speakers then (ok tt, speakers) else elim answer [
      | err e ↦ (err e, speakers)
      | ok sender ↦ (
        ok tt,
        insert session (record { track = session; sender = sender; clock = default_media_clock })
            speakers,
      )
    ]

-- `SpeakerTracks::remove`: the speaker goes, whatever `remove_track` answers.
unfoldable pub remove_speaker {ℓ} :
    {E : Type ℓ} → Speakers → ℕ → Result E (Unit {0}) → Result E (Unit {0}) × Speakers
remove_speaker speakers session answer =
    if contains_key session speakers then (answer, remove session speakers) else (ok tt, speakers)

unfoldable pub write :
    (ℕ → ℕ) → Speakers → MumbleVoiceData → ℕ → Result OpusError (Option RtpPacket) × Speakers
unfolding hear
write ticks speakers d now =
    if ltb 120 (as_millis (now - d.received_at))
    then (ok none, speakers)
    else elim (lookup d.session_id speakers) [
      | none ↦ (ok none, speakers)
      | some s ↦
          let (result, clock) = hear ticks s.clock d now in
          (result, insert d.session_id (record s { clock = clock }) speakers)
    ]
