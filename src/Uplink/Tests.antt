-- ===== src/Uplink/Tests.antt =====
-- Runs of the uplink of src/bridge.rs, the first on the inputs of its own test.
use mumdota.Base.{ℕ, ◌+◌, ◌%◌, ◌^◌, ◌≡◌, refl, true, false, List, [], ◌∷◌, some, arith}
use mumdota.Opus
use mumdota.Uplink.{
  UplinkClock, default_clock, packet, end_frame, IncomingAudioPacket, sent, full, Uplink,
  start_uplink, UplinkEvent, received, ticked, uplink_step, uplink_run,
}
use mumdota.Uplink.Frames.{Rtp, numbered, Paced, accepted, numbered_from_start, packet_accepts}
use mumdota.Uplink.Loop.{Numbered, next_number, uplink_run-Numbered, uplink_delivers}

abbrev rtp : ℕ → ℕ → ℕ → Rtp
rtp timestamp sequence samples = record {
  timestamp = timestamp % 2 ^ 32;
  sequence = sequence;
  samples = samples;
}

abbrev origin : ℕ
origin = 4294966816

-- A lost packet, a late one and a wrap of both clocks.
abbrev microphone : List Rtp
microphone =
    rtp (origin + 960) 65535 1920
    ∷ rtp (origin + 2880) 0 960
    ∷ rtp (origin + 5760) 3 960
    ∷ rtp (origin + 4800) 2 960
    ∷ rtp (origin + 53760) 4 960
    ∷ []

numbered-microphone :
    numbered default_clock (rtp origin 65534 960 ∷ microphone)
    ≡ (4294966816, 0) ∷ (480, 2) ∷ (2400, 6) ∷ (5280, 12) ∷ (53280, 112) ∷ []
unfolding numbered packet
numbered-microphone = refl

numbered_from_start_example :
    (rest : List (ℕ × ℕ)) × (numbered default_clock (rtp origin 65534 960 ∷ microphone)
      ≡ (origin, 0) ∷ rest)
    × Paced origin 1 rest
numbered_from_start_example =
    numbered_from_start (rtp origin 65534 960) microphone (omega arith) (omega arith) (omega arith)

abbrev near_wrap : UplinkClock
near_wrap = accepted origin 65535 960 7

packet-near_wrap : packet near_wrap 480 2 960 ≡ (some 9, accepted 480 2 960 9)
packet-near_wrap =
    packet_accepts near_wrap origin 480 65535 2 3 2 960 refl refl (omega arith) (omega arith)
      (omega arith) (omega arith) (omega arith) (omega arith) refl refl

end_frame-near_wrap : end_frame near_wrap ≡ 9
unfolding end_frame
end_frame-near_wrap = refl

-- 20 ms of audio in one frame.
abbrev spoken : ℕ → ℕ → ℕ → IncomingAudioPacket
spoken timestamp sequence at = record {
  opus_data = 0xf8 ∷ 1 ∷ [];
  seq_num = sequence;
  timestamp = timestamp;
  received_at = at;
}

abbrev call : List UplinkEvent
call =
    received (spoken 0 1 0) 1000 sent
    ∷ received (spoken 960 2 20_000_000) 20_001_000 full
    ∷ received (spoken 1920 3 40_000_000) 40_001_000 sent
    ∷ ticked 100_000_000 sent
    ∷ ticked 300_000_000 sent
    ∷ ticked 350_000_000 sent
    ∷ []

voice_of_call :
    (uplink_run start_uplink call).voice
    ≡ record { seq_num = 6; opus_data = []; last_frame = true }
      ∷ record { seq_num = 4; opus_data = 0xf8 ∷ 1 ∷ []; last_frame = false }
      ∷ record { seq_num = 0; opus_data = 0xf8 ∷ 1 ∷ []; last_frame = false }
      ∷ []
unfolding uplink_run uplink_step Opus.opus_packet_total_samples
voice_of_call = refl

uplink_run-Numbered_example :
    let u = uplink_run start_uplink call in Numbered (next_number u.clock) u.voice
uplink_run-Numbered_example = uplink_run-Numbered call (omega arith) (omega arith)

abbrev talking : Uplink
talking = record { clock = near_wrap; last_packet = some 5; is_running = true; voice = [] }

uplink_delivers_example :
    (uplink_step talking (received (spoken 480 2 1000) 2000 sent)).voice
    ≡ record { seq_num = 9; opus_data = 0xf8 ∷ 1 ∷ []; last_frame = false } ∷ []
uplink_delivers_example =
    uplink_delivers talking (spoken 480 2 1000) 2000 origin 65535 3 2 960 refl refl refl
      (omega arith) (omega arith) (omega arith) (omega arith) (omega arith) (omega arith) refl refl
      (omega arith) (unfold Opus.opus_packet_total_samples in refl) refl
