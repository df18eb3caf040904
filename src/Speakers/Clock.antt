-- ===== src/Speakers/Clock.antt =====
-- The RTP stamps that one media clock of src/webrtc/speakers.rs gives out, over any arrivals.
use Prim.Native.Nat.{max}
use mumdota.Base.{
  ℕ, ◌+◌, ◌-◌, ◌*◌, ◌%◌, ◌^◌, ◌<◌, ◌≡◌, Bool, true, false, ◌||◌, List, [], ◌∷◌, Option, none, some,
  ◌⊎◌,
}
use mumdota.Speakers.{MediaClock, is_new_talk, Stamp, packet}

-- What reaches a clock: an audio frame with its number, duration and end mark at some instant, or
-- an empty packet with its end mark.
pub data Arrival : Type 0 where
  voiced : ℕ → ℕ → Bool → ℕ → Arrival
  empty : Bool → Arrival

-- A packet that was sent on, with the Mumble frame that it carries and the instant it came at.
pub record Sent : Type 0 where
  pub frame : ℕ
  pub samples : ℕ
  pub arrived : ℕ
  pub stamp : Stamp

abbrev prepend_sent : ℕ → ℕ → ℕ → Option Stamp → List Sent → List Sent
prepend_sent frame samples now none rest = rest
prepend_sent frame samples now (some stamp) rest =
    record { frame = frame; samples = samples; arrived = now; stamp = stamp } ∷ rest

unfoldable pub stamped : (ℕ → ℕ) → MediaClock → List Arrival → List Sent
stamped ticks c [] = []
stamped ticks c (voiced frame samples ended now ∷ rest) =
    let (stamp, c') = packet ticks c frame samples ended now in
    prepend_sent frame samples now stamp (stamped ticks c' rest)
stamped ticks c (empty ended ∷ rest) = stamped ticks (record c { ended = c.ended || ended }) rest

-- Within a talk spurt the frame numbers rise, and the RTP clock moves by 480 samples for each. A
-- new talk spurt is marked, and the clock moves by the time since the packet before came, or by the
-- samples of that packet if they last longer.
abbrev pub Follows : (ℕ → ℕ) → Sent → Sent → Type 0
Follows ticks p n =
    ((n.stamp.marker ≡ false)
      × (p.frame < n.frame)
      × (n.stamp.timestamp ≡ (p.stamp.timestamp + 480 * (n.frame - p.frame)) % 2 ^ 32))
    ⊎ ((n.stamp.marker ≡ true)
        × (n.stamp.timestamp
            ≡ (p.stamp.timestamp + max (ticks (n.arrived - p.arrived)) p.samples) % 2 ^ 32))

abbrev pub Chained : (ℕ → ℕ) → Sent → List Sent → Type 0
Chained ticks p [] = Unit {0}
Chained ticks p (n ∷ rest) =
    (n.stamp.sequence ≡ (p.stamp.sequence + 1) % 2 ^ 16) × Follows ticks p n × Chained ticks n rest

-- The clock that remembers `p` as the last packet.
record Remembers (p : Sent) (c : MediaClock) : Type 0 where
  last : c.last_frame ≡ some p.frame
  time : c.timestamp ≡ p.stamp.timestamp
  number : c.sequence ≡ p.stamp.sequence
  length : c.samples ≡ p.samples
  came : c.received_at ≡ some p.arrived

-- A time in a running talk spurt, and at the start of a new one.
abbrev IsTimed : (ℕ → ℕ) → Sent → MediaClock → ℕ → ℕ → ℕ → Type 0
IsTimed ticks p c frame now timestamp =
    ((is_new_talk c now ≡ false)
      × (p.frame < frame)
      × (timestamp ≡ (p.stamp.timestamp + 480 * (frame - p.frame)) % 2 ^ 32))
    ⊎ ((is_new_talk c now ≡ true)
        × (timestamp ≡ (p.stamp.timestamp + max (ticks (now - p.arrived)) p.samples) % 2 ^ 32))

-- The first packet of a track.
abbrev pub first_sent : ℕ → ℕ → ℕ → Sent
first_sent frame samples now = record {
  frame = frame;
  samples = samples;
  arrived = now;
  stamp = record { sequence = 1; timestamp = 0; marker = true };
}
