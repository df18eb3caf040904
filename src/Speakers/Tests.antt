-- ===== src/Speakers/Tests.antt =====
-- Runs of the media clock of src/webrtc/speakers.rs.
use Prim.Native.Nat.{min}
use mumdota.Base.{ℕ, ◌*◌, ◌/◌, ◌≡◌, refl, true, false, List, [], ◌∷◌, keep, lookup}
use mumdota.Speakers.{default_media_clock, packet, Stamp, MumbleVoiceData, Speaker, Speakers}
use mumdota.Speakers.Clock.{Arrival, voiced, stamped, first_sent}
use mumdota.Speakers.Tracks.{Delivery, is_from, written, written_alone, written-eq-written_alone}

-- The conversion without rounding errors: 48 ticks for each million nanoseconds, within a u32.
abbrev exact_ticks : ℕ → ℕ
exact_ticks n = min (n * 48 / 1000000) 4294967295

-- A lost frame, a late one, and a new talk spurt after a second.
abbrev arrivals : List Arrival
arrivals =
    voiced 102 960 false 20_000_000
    ∷ voiced 101 960 false 30_000_000
    ∷ voiced 106 960 true 60_000_000
    ∷ voiced 0 960 false 1_060_000_000
    ∷ []

abbrev stamp : ℕ → ℕ → Stamp
stamp sequence timestamp = record { sequence = sequence; timestamp = timestamp; marker = false }

stamped-arrivals :
    stamped exact_ticks default_media_clock (voiced 100 960 false 0 ∷ arrivals)
    ≡ first_sent 100 960 0
      ∷ record { frame = 102; samples = 960; arrived = 20_000_000; stamp = stamp 2 960 }
      ∷ record { frame = 106; samples = 960; arrived = 60_000_000; stamp = stamp 3 2880 }
      ∷ record {
        frame = 0;
        samples = 960;
        arrived = 1_060_000_000;
        stamp = record { sequence = 4; timestamp = 50880; marker = true };
      }
      ∷ []
unfolding stamped packet
stamped-arrivals = refl

abbrev speaker : ℕ → Speaker
speaker n = record { track = n; sender = n; clock = default_media_clock }

abbrev two_speakers : Speakers
two_speakers = (7, speaker 7) ∷ (9, speaker 9) ∷ []

abbrev voice : ℕ → ℕ → MumbleVoiceData
voice session_id seq_num = record {
  session_id = session_id;
  seq_num = seq_num;
  opus_data = 0xf8 ∷ 1 ∷ [];
  last_frame = false;
  received_at = 0;
}

abbrev mixed : List Delivery
mixed = (voice 7 1, 0) ∷ (voice 9 50, 10) ∷ (voice 7 3, 20) ∷ (voice 9 52, 30) ∷ []

written-eq-written_alone_example :
    written exact_ticks 9 two_speakers mixed
    ≡ written_alone exact_ticks default_media_clock (keep (is_from 9) mixed)
written-eq-written_alone_example =
    written-eq-written_alone exact_ticks 9 two_speakers (speaker 9) mixed (unfold lookup in refl)
