-- ===== src/Pipeline.antt =====
-- The way of a voice from the browser to Mumble: the reader of src/webrtc/audio.rs, the uplink of
-- src/bridge.rs and the voice task of src/mumble/voice.rs, which run side by side with a channel
-- between each two. Of a channel only this is used: what it took is received once, in the order in
-- which it took it. So the pipeline keeps what each task has received, newest first, and the next
-- thing that a task receives is the oldest one that its channel took and that it has not received.
mod Grows
mod Flows
pub mod Order
mod Tests
use mumdota.Base.{
  ℕ, ◌+◌, ◌-◌, suc, Bool, true, false, String, List, [], ◌∷◌, Option, none, some, ltb, length,
  get_elem?, if◌then◌else◌,
}
use mumdota.Uplink.{
  Uplink, start_uplink, UplinkEvent, received, ticked, stream_ended, uplink_step,
  IncomingAudioPacket, WebrtcVoiceData, TrySend,
}
use mumdota.Capture.{Capture, on_track, Read, capture_step}
use mumdota.Voice.{VoiceTask, start_task, Arm, spoken, voice_step}

pub record Pipeline : Type 0 where
  pub capture : Capture
  pub uplink : Uplink
  pub voice_task : VoiceTask
  -- What the uplink has received from the reader, and the voice task from the uplink.
  pub captured : List IncomingAudioPacket
  pub frames : List WebrtcVoiceData

abbrev pub start_pipeline : String → Bool → Pipeline
start_pipeline mime_type is_sent = record {
  capture = on_track true mime_type;
  uplink = start_uplink;
  voice_task = start_task is_sent;
  captured = [];
  frames = [];
}

-- The oldest entry of a channel that took `all` when the `seen` ones have been received.
unfoldable pub next_of {ℓ} : {A : Type ℓ} → List A → List A → Option A
next_of all seen =
    if ltb (length seen) (length all) then get_elem? all (length all - suc (length seen)) else none

-- The steps of the three tasks. `others` is an arm of the voice task that needs no frame.
pub data Step : Type 0 where
  reads : Read → Step
  uplinks : ℕ → TrySend → Step
  ticks : ℕ → TrySend → Step
  reader_gone : Step
  speaks : Bool → Step
  others : Arm → Step

abbrev pub needs_no_frame : Arm → Bool
needs_no_frame (spoken frame is_sent) = false
needs_no_frame _ = true

unfoldable pub receive_packet : Pipeline → ℕ → TrySend → Option IncomingAudioPacket → Pipeline
receive_packet p now answer none = p
receive_packet p now answer (some packet) = record p {
  uplink = uplink_step p.uplink (received packet now answer);
  captured = packet ∷ p.captured;
}

unfoldable pub receive_frame : Pipeline → Bool → Option WebrtcVoiceData → Pipeline
receive_frame p is_sent none = p
receive_frame p is_sent (some frame) = record p {
  voice_task = voice_step p.voice_task (spoken frame is_sent);
  frames = frame ∷ p.frames;
}

unfoldable pub step : Pipeline → Step → Pipeline
unfolding receive_packet receive_frame next_of
step p (reads r) = record p { capture = capture_step p.capture r }
step p (uplinks now answer) =
    if p.uplink.is_running
    then receive_packet p now answer (next_of p.capture.packets p.captured)
    else p
step p (ticks now answer) = record p { uplink = uplink_step p.uplink (ticked now answer) }
step p reader_gone = record p { uplink = uplink_step p.uplink stream_ended }
step p (speaks is_sent) =
    if p.voice_task.is_running then receive_frame p is_sent (next_of p.uplink.voice p.frames) else p
step p (others a) =
    if needs_no_frame a then record p { voice_task = voice_step p.voice_task a } else p

unfoldable pub run_pipeline : Pipeline → List Step → Pipeline
run_pipeline p [] = p
run_pipeline p (a ∷ steps) = run_pipeline (step p a) steps
