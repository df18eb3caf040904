-- ===== src/Uplink/Loop.antt =====
-- What the uplink task of src/bridge.rs hands to Mumble, over any sequence of loop events.
use mumdota.Base.{
  ℕ, suc, ◌+◌, ◌*◌, ◌%◌, ◌^◌, ◌≤◌, ◌<◌, ◌≡◌, refl, true, false, List, [], ◌∷◌, none, some, ◌⊎◌, inl,
  inr, arith, length, All, Bool-cases, if_cases, ok, Result-cases, ltb, as_millis, ◌-◌, ◌==◌,
  nat_eq, nat_beq_iff, ltb-false,
}
use mumdota.Opus.{opus_packet_total_samples}
use mumdota.Uplink.{
  UplinkClock, packet, IncomingAudioPacket, WebrtcVoiceData, TrySend, sent, full, closed, Uplink,
  start_uplink, UplinkEvent, received, ticked, stream_ended, forward, on_packet, on_tick, deliver,
  uplink_step, uplink_run, try_send, is_silent, is_stale, frames_ahead,
}
use mumdota.Uplink.Frames.{accepted, packet_cases, packet_accepts}

-- A packet that holds whole 10 ms frames.
abbrev pub IsWhole : List ℕ → Type 0
IsWhole opus_data =
    (samples : ℕ) × (opus_packet_total_samples opus_data ≡ ok samples) × (samples % 480 ≡ 0)

-- Newest first: the frames of audio carry falling numbers below `bound` and whole packets, and an
-- end of a talk spurt carries no audio.
pub data Numbered : ℕ → List WebrtcVoiceData → Type 0 where
  silent : {bound : ℕ} → Numbered bound []
  audio :
      {bound : ℕ} {v : WebrtcVoiceData} {vs : List WebrtcVoiceData}
      → v.last_frame ≡ false
      → v.seq_num < bound
      → IsWhole v.opus_data
      → Numbered v.seq_num vs
      → Numbered bound (v ∷ vs)
  spurt_end :
      {bound : ℕ} {v : WebrtcVoiceData} {vs : List WebrtcVoiceData}
      → v.last_frame ≡ true
      → v.opus_data ≡ []
      → Numbered bound vs
      → Numbered bound (v ∷ vs)

pub Numbered-mono :
    {low high : ℕ} {vs : List WebrtcVoiceData} → low ≤ high → Numbered low vs → Numbered high vs
Numbered-mono h silent = silent
Numbered-mono h (audio voiced below whole rest) = audio voiced (omega arith) whole rest
Numbered-mono h (spurt_end ended empty rest) = spurt_end ended empty (Numbered-mono h rest)

-- The first number that the clock has not given out.
abbrev pub next_number : UplinkClock → ℕ
next_number c = elim c.last_timestamp [ none ↦ 0 | some last ↦ suc c.frame ]

-- The clock has accepted nothing yet, or holds a u32 timestamp.
abbrev IsSound : UplinkClock → Type 0
IsSound c =
    ((c.last_timestamp ≡ none) × (c.last_sequence ≡ none) × (c.frame ≡ 0))
    ⊎ ((last : ℕ) × (c.last_timestamp ≡ some last) × (last < 2 ^ 32))

record Holds (room : ℕ) (u : Uplink) : Type 0 where
  sound : IsSound u.clock
  roomy : u.clock.frame + room < 2 ^ 64
  ordered : Numbered (next_number u.clock) u.voice

try_send-Numbered :
    (answer : TrySend) (v : WebrtcVoiceData) {vs : List WebrtcVoiceData} {low high : ℕ}
    → v.last_frame ≡ false
    → IsWhole v.opus_data
    → low ≤ v.seq_num
    → v.seq_num < high
    → Numbered low vs
    → Numbered high (try_send answer v vs)
try_send-Numbered sent v voiced whole lo hi rest = audio voiced hi whole (Numbered-mono lo rest)
try_send-Numbered full v voiced whole lo hi rest = Numbered-mono (omega arith) rest
try_send-Numbered closed v voiced whole lo hi rest = Numbered-mono (omega arith) rest

try_send-Numbered_end :
    (answer : TrySend) (v : WebrtcVoiceData) {vs : List WebrtcVoiceData} {bound : ℕ}
    → v.last_frame ≡ true
    → v.opus_data ≡ []
    → Numbered bound vs
    → Numbered bound (try_send answer v vs)
try_send-Numbered_end sent v ended empty rest = spurt_end ended empty rest
try_send-Numbered_end full v ended empty rest = rest
try_send-Numbered_end closed v ended empty rest = rest

-- What `packet` does in a sound clock.
packet_sound_cases :
    (c : UplinkClock) (timestamp sequence samples : ℕ)
    → IsSound c
    → timestamp < 2 ^ 32
    → c.frame + 4473924 < 2 ^ 64
    → (packet c timestamp sequence samples ≡ (none, c))
      ⊎ ((frame : ℕ) × (packet c timestamp sequence samples
            ≡ (some frame, accepted timestamp sequence samples frame))
          × (next_number c ≤ frame)
          × (frame ≤ c.frame + 4473924))
unfolding packet is_stale frames_ahead
packet_sound_cases c timestamp sequence samples (inl (et, es, ef)) ht room =
    inr (0, rw (et, es, ef), rw et (omega arith), omega arith)
packet_sound_cases c timestamp sequence samples (inr (last, seen, hl)) ht room =
    elim (packet_cases c last timestamp sequence samples seen hl ht room) [
      | inl refused ↦ inl refused
      | inr (ahead, taken, above, below, moved) ↦
          inr (c.frame + ahead, taken, rw seen (omega arith), omega arith)
    ]

forward-Holds :
    (room : ℕ) (u : Uplink) (p : IncomingAudioPacket) (samples now : ℕ) (answer : TrySend)
    → p.timestamp < 2 ^ 32
    → opus_packet_total_samples p.opus_data ≡ ok samples
    → samples % 480 ≡ 0
    → Holds (4473924 + room) u
    → Holds room (forward u p samples now answer)
unfolding forward
forward-Holds room u p samples now answer ht whole grid h =
    elim (packet_sound_cases u.clock p.timestamp p.seq_num samples h.sound ht (omega arith)) [
      | inl refused ↦
          rw refused (record { sound = h.sound; roomy = omega arith; ordered = h.ordered })
      | inr (frame, taken, above, below) ↦ rw taken (record {
        sound = inr (p.timestamp, refl, ht);
        roomy = omega arith;
        ordered =
            try_send-Numbered answer _ refl (samples, whole, grid) above (omega arith) h.ordered;
      })
    ]

on_packet-Holds :
    (room : ℕ) (u : Uplink) (p : IncomingAudioPacket) (now : ℕ) (answer : TrySend)
    → p.timestamp < 2 ^ 32
    → Holds (4473924 + room) u
    → Holds room (on_packet u p now answer)
unfolding on_packet
on_packet-Holds room u p now answer ht h =
    let same : Holds room u = record {
      sound = h.sound;
      roomy = omega arith;
      ordered = h.ordered;
    } in
    elim (Bool-cases (ltb 120 (as_millis (now - p.received_at)))) [
      | inl late ↦ rw late same
      | inr timely ↦ elim (Result-cases (opus_packet_total_samples p.opus_data)) [
        | inl (samples, read) ↦ elim (Bool-cases (samples % 480 == 0)) [
          | inl grid ↦
              rw (timely, read, grid)
                (forward-Holds room u p samples now answer ht read ((nat_beq_iff _ 0).0 grid) h)
          | inr ragged ↦ rw (timely, read, ragged) same
        ]
        | inr (e, refused) ↦ rw (timely, refused) same
      ]
    ]

on_tick-Holds :
    (room : ℕ) (u : Uplink) (now : ℕ) (answer : TrySend)
    → Holds (4473924 + room) u
    → Holds room (on_tick u now answer)
unfolding on_tick
on_tick-Holds room u now answer h = elim (Bool-cases (is_silent u.last_packet now)) [
  | inl over ↦ rw over (record {
    sound = h.sound;
    roomy = omega arith;
    ordered = try_send-Numbered_end answer _ refl refl h.ordered;
  })
  | inr speaking ↦
      rw speaking (record { sound = h.sound; roomy = omega arith; ordered = h.ordered })
]

-- The timestamp of a packet is a u32.
abbrev pub IsRtp : UplinkEvent → Type 0
IsRtp (received p now answer) = p.timestamp < 2 ^ 32
IsRtp _ = Unit

uplink_step-Holds :
    (room : ℕ) (u : Uplink) (e : UplinkEvent)
    → IsRtp e
    → Holds (4473924 + room) u
    → Holds room (uplink_step u e)
unfolding uplink_step
uplink_step-Holds room u (received p now answer) rtp h =
    if_cases (Holds room) u.is_running _ u (on_packet-Holds room u p now answer rtp h)
      (record { sound = h.sound; roomy = omega arith; ordered = h.ordered })
uplink_step-Holds room u (ticked now answer) rtp h =
    if_cases (Holds room) u.is_running _ u (on_tick-Holds room u now answer h)
      (record { sound = h.sound; roomy = omega arith; ordered = h.ordered })
uplink_step-Holds room u stream_ended rtp h = record {
  sound = h.sound;
  roomy = omega arith;
  ordered = h.ordered;
}

uplink_run-Holds :
    (u : Uplink) (events : List UplinkEvent)
    → All IsRtp events
    → Holds (4473924 * length events) u
    → Holds 0 (uplink_run u events)
unfolding uplink_run
uplink_run-Holds u [] rtp h = record { sound = h.sound; roomy = omega arith; ordered = h.ordered }
uplink_run-Holds u (e ∷ events) (rtp, rest) h = uplink_run-Holds (uplink_step u e) events rest (
    uplink_step-Holds (4473924 * length events) u e rtp
      (record { sound = h.sound; roomy = omega arith; ordered = h.ordered }))

-- Whatever the timing, the losses and the answers of the channel, as long as timestamps are u32
-- values and the events too few to wrap a 64-bit frame number, what reaches Mumble is in order: the
-- audio frames carry strictly rising numbers and whole packets of 10 ms frames of at most 120 ms,
-- and the frames that end a talk spurt carry no audio.
pub uplink_run-Numbered :
    (events : List UplinkEvent)
    → All IsRtp events
    → 4473924 * length events < 2 ^ 64
    → let u = uplink_run start_uplink events in Numbered (next_number u.clock) u.voice
uplink_run-Numbered events rtp room =
    (uplink_run-Holds start_uplink events rtp
      (record { sound = inl (refl, refl, refl); roomy = omega arith; ordered = silent })).ordered

-- While the task runs and the channel has room, a packet of whole 10 ms frames that is not older
-- than 120 ms and lies ahead on both RTP clocks by less than half a turn, by `ahead` frames of 10
-- ms, is sent on with its audio unchanged, `ahead` frame numbers after the last one.
pub uplink_delivers :
    (u : Uplink) (p : IncomingAudioPacket) (now timestamp sequence gap ahead samples : ℕ)
    → u.is_running ≡ true
    → u.clock.last_timestamp ≡ some timestamp
    → u.clock.last_sequence ≡ some sequence
    → timestamp < 2 ^ 32
    → sequence < 2 ^ 16
    → 1 ≤ gap
    → gap < 2 ^ 15
    → 1 ≤ ahead
    → 480 * ahead < 2 ^ 31
    → p.timestamp ≡ (timestamp + 480 * ahead) % 2 ^ 32
    → p.seq_num ≡ (sequence + gap) % 2 ^ 16
    → as_millis (now - p.received_at) ≤ 120
    → opus_packet_total_samples p.opus_data ≡ ok samples
    → samples % 480 ≡ 0
    → (uplink_step u (received p now sent)).voice
      ≡ record {
        seq_num = (u.clock.frame + ahead) % 2 ^ 64;
        opus_data = p.opus_data;
        last_frame = false;
      }
        ∷ u.voice
unfolding uplink_step on_packet forward deliver
uplink_delivers u p now timestamp sequence gap ahead samples run et es ht hs lo hi lo' hi' pt ps
      timely read grid =
    let taken : packet u.clock p.timestamp p.seq_num samples ≡ (
      some ((u.clock.frame + ahead) % 2 ^ 64),
      accepted p.timestamp p.seq_num samples ((u.clock.frame + ahead) % 2 ^ 64),
    ) =
      packet_accepts u.clock timestamp p.timestamp sequence p.seq_num gap ahead samples et es ht hs
        lo hi lo' hi' pt ps in
    rw (run, ltb-false timely, read, (nat_beq_iff _ 0).1 grid, taken)
