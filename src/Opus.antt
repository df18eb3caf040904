-- ===== src/Opus.antt =====
-- The Opus packet header reader of src/bridge.rs. A packet is a list of bytes, each below 256; a
-- shift to the right is a division by a power of two, a mask of low bits a remainder.
pub mod Durations
mod Tests
use mumdota.Base.{
  ℕ, ◌+◌, ◌*◌, ◌/◌, ◌%◌, ◌^◌, List, [], ◌∷◌, Option, none, some, ltb, leb, ◌==◌, nat_eq,
  if◌then◌else◌, Result, ok, err, ◌>>=◌,
}

abbrev pub opus_sample_rate : ℕ
opus_sample_rate = 48000

abbrev pub max_opus_packet_samples : ℕ
max_opus_packet_samples = opus_sample_rate / 1000 * 120

pub data OpusError : Type 0 where
  empty_packet missing_count_byte zero_frames bad_count_code too_long : OpusError

-- The arm for `toc & 0x03 == 3`, on what follows the TOC byte.
coded_frame_count : List ℕ → Result OpusError ℕ
coded_frame_count [] = err missing_count_byte
coded_frame_count (count_byte ∷ _) =
    let frame_count = count_byte % 64 in
    if frame_count == 0 then err zero_frames else ok frame_count

unfoldable pub opus_packet_frame_count : List ℕ → Result OpusError ℕ
unfolding coded_frame_count
opus_packet_frame_count [] = err empty_packet
opus_packet_frame_count (toc ∷ rest) =
    let code = toc % 4 in
    if code == 0
    then ok 1
    else if code == 1
    then ok 2
    else if code == 2
    then ok 2
    else if code == 3
    then coded_frame_count rest
    else err bad_count_code

-- The arithmetic on `toc >> 3`; `48000 << k` stays within 32 bits for each `k` up to 3.
unfoldable pub config_samples : ℕ → ℕ
config_samples config =
    if leb 16 config
    then opus_sample_rate * 2 ^ (config % 4) / 400
    else if leb 12 config
    then opus_sample_rate * 2 ^ (config % 2) / 100
    else if config % 4 == 3
    then opus_sample_rate * 60 / 1000
    else opus_sample_rate * 2 ^ (config % 4) / 100

unfoldable pub opus_packet_samples_per_frame : List ℕ → Result OpusError ℕ
unfolding config_samples
opus_packet_samples_per_frame [] = err empty_packet
opus_packet_samples_per_frame (toc ∷ _) = ok (config_samples (toc / 8))

unfoldable pub opus_packet_total_samples : List ℕ → Result OpusError ℕ
unfolding opus_packet_frame_count opus_packet_samples_per_frame
opus_packet_total_samples packet = do
  frame_count ← opus_packet_frame_count packet
  samples_per_frame ← opus_packet_samples_per_frame packet
  let total_samples = frame_count * samples_per_frame
  if ltb max_opus_packet_samples total_samples then err too_long else ok total_samples
