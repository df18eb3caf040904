-- ===== src/Opus/Tests.antt =====
-- Runs of the Opus header reader on the packets of the tests in src/bridge.rs.
use mumdota.Base.{◌≡◌, refl, ◌↔◌, [], ◌∷◌, ok, err, arith}
use mumdota.Opus.Durations.{Duration, total_samples_iff_Duration}
use mumdota.Opus.{opus_packet_total_samples, empty_packet, too_long}

single_frame : opus_packet_total_samples (0xf8 ∷ []) ≡ ok 960
unfolding opus_packet_total_samples
single_frame = refl

two_frames : opus_packet_total_samples (0xf9 ∷ []) ≡ ok 1920
unfolding opus_packet_total_samples
two_frames = refl

code_three : opus_packet_total_samples (0xf3 ∷ 3 ∷ []) ≡ ok 1440
unfolding opus_packet_total_samples
code_three = refl

empty_is_refused : opus_packet_total_samples [] ≡ err empty_packet
unfolding opus_packet_total_samples
empty_is_refused = refl

long_is_refused : opus_packet_total_samples (0xf3 ∷ 0x3f ∷ []) ≡ err too_long
unfolding opus_packet_total_samples
long_is_refused = refl

-- A code 3 packet of three 10 ms CELT frames.
total_samples_iff_Duration_example :
    (opus_packet_total_samples (0xf3 ∷ 3 ∷ []) ≡ ok 1440) ↔ Duration 0xf3 (3 ∷ []) 1440
total_samples_iff_Duration_example = total_samples_iff_Duration 0xf3 (3 ∷ []) 1440 (omega arith)
