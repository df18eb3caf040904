-- ===== src/Pipeline/Tests.antt =====
-- A run of the three tasks, with a packet that the bridge misses and a frame that UDP loses.
use mathlib.Core.List.{filter_map, Sublistᴰ}
use mumdota.Base.{ℕ, ◌+◌, ◌*◌, ◌^◌, ◌%◌, ◌≡◌, refl, true, List, [], ◌∷◌, arith}
use mumdota.Opus
use mumdota.Uplink.{
  sent, full, uplink_step, on_packet, on_tick, forward, deliver, packet, is_stale, frames_ahead,
  is_silent, end_frame,
}
use mumdota.Uplink.Loop.{Numbered, next_number}
use mumdota.Capture.{RtpRead, rtp, capture_step, on_read}
use mumdota.Voice.{ticked, voice_step, on_arm}
use mumdota.Pipeline.{
  start_pipeline, Step, reads, uplinks, ticks, speaks, others, run_pipeline, step, receive_packet,
  receive_frame, next_of,
}
use mumdota.Pipeline.Grows.{audio_payloads, speech_frames, captured_payloads}
use mumdota.Pipeline.Order.{handed_on, run_pipeline-in_order}

-- 20 ms of audio in one frame.
abbrev spoken : ℕ → RtpRead
spoken index = record {
  payload = 0xf8 ∷ index ∷ [];
  sequence_number = (65534 + index) % 2 ^ 16;
  timestamp = 960 * index;
}

abbrev microphone : ℕ → Step
microphone index = reads (rtp (spoken index) 0 sent)

abbrev talk : List Step
talk =
    microphone 0
    ∷ microphone 1
    ∷ reads (rtp (spoken 2) 0 full)
    ∷ uplinks 0 sent
    ∷ speaks true
    ∷ others (ticked 5 true)
    ∷ uplinks 0 sent
    ∷ microphone 3
    ∷ uplinks 0 sent
    ∷ ticks 200_000_000_000 sent
    ∷ speaks true
    ∷ speaks true
    ∷ []

run_pipeline-in_order_example :
    let p = run_pipeline (start_pipeline "audio/OPUS" true) talk in
    let frames = speech_frames p.voice_task.outgoing in
    let handed = handed_on true [] talk in
    (captured_payloads p.capture.packets ≡ handed)
    × Sublistᴰ (audio_payloads frames) handed
    × Numbered (next_number p.uplink.clock) frames
run_pipeline-in_order_example =
    run_pipeline-in_order "audio/OPUS" true talk
      (
        omega arith,
        (
          omega arith,
          (omega arith, (tt, (tt, (tt, (tt, (omega arith, (tt, (tt, (tt, (tt, tt)))))))))),
        ),
      )
      (omega arith)

audio_payloads-talk :
    audio_payloads
      (speech_frames (run_pipeline (start_pipeline "audio/OPUS" true) talk).voice_task.outgoing)
    ≡ (0xf8 ∷ 3 ∷ []) ∷ (0xf8 ∷ 1 ∷ []) ∷ (0xf8 ∷ 0 ∷ []) ∷ []
unfolding run_pipeline step receive_packet receive_frame next_of capture_step on_read uplink_step
    on_packet on_tick forward deliver packet is_stale frames_ahead voice_step on_arm filter_map
    is_silent end_frame Opus.opus_packet_total_samples
audio_payloads-talk = refl
