-- ===== src/Pipeline/Order.antt =====
-- What reaches the Mumble server of a voice that the browser sent, over any interleaving of the steps
-- of the three tasks of src/webrtc/audio.rs, src/bridge.rs and src/mumble/voice.rs.
use mathlib.Core.List.{Sublistᴰ}
use mathlib.Core.List.Sublistᴰ
use mumdota.Base.{
  Option, none, some, [], ◌≡◌, refl, if_cases, true, false, ap, ◌∙◌, ℕ, ◌*◌, ◌^◌, ◌<◌, sym, subst,
  Bool, String, List, ◌∷◌, arith, length, All, append-Sublistᴰ, map-Sublistᴰ,
}
use mumdota.Uplink.{IncomingAudioPacket, TrySend, sent, full, closed, WebrtcVoiceData}
use mumdota.Capture.{
  Capture, rtp, failed, capture_step, on_read, incoming_packet, eq_ignore_ascii_case,
}
use mumdota.Uplink.Loop.{
  Numbered, silent, audio, spurt_end, Numbered-mono, next_number, uplink_run-Numbered,
}
use mumdota.Pipeline.{
  Pipeline, start_pipeline, Step, reads, uplinks, ticks, reader_gone, speaks, others,
  needs_no_frame, receive_packet, receive_frame, step, run_pipeline,
}
use mumdota.Pipeline.Grows.{audio_payload, audio_payloads, speech_frames, captured_payloads}
use mumdota.Pipeline.Flows.{IsTimed, Flow, start-Flow, run_pipeline-Flow}

Numbered-Sublistᴰ :
    (bound : ℕ) {us vs : List WebrtcVoiceData}
    → Sublistᴰ us vs
    → Numbered bound vs
    → Numbered bound us
Numbered-Sublistᴰ bound Sublistᴰ.slnil silent = silent
Numbered-Sublistᴰ bound (Sublistᴰ.cons h) (audio voiced below whole rest) =
    Numbered-Sublistᴰ _ h (Numbered-mono (omega (arith, below)) rest)
Numbered-Sublistᴰ bound (Sublistᴰ.cons h) (spurt_end ended empty rest) = Numbered-Sublistᴰ _ h rest
Numbered-Sublistᴰ bound (Sublistᴰ.cons-cons {a = u} {b = v} {l₁ = us} same h)
      (audio voiced below whole rest) =
    subst (λ x. Numbered bound (x ∷ us)) (sym same)
      (audio voiced below whole (Numbered-Sublistᴰ _ h rest))
Numbered-Sublistᴰ bound (Sublistᴰ.cons-cons {a = u} {b = v} {l₁ = us} same h)
      (spurt_end ended empty rest) =
    subst (λ x. Numbered bound (x ∷ us)) (sym same)
      (spurt_end ended empty (Numbered-Sublistᴰ _ h rest))

-- The payloads of the packets that are handed on, newest first, whether the track is read: each packet
-- that the track gives and the channel has room for, until the track fails or the channel is closed.
abbrev pub handed_on : Bool → List (List ℕ) → List Step → List (List ℕ)
handed_on is_read seen [] = seen
handed_on false seen (a ∷ steps) = seen
handed_on true seen (reads (rtp r now sent) ∷ steps) = handed_on true (r.payload ∷ seen) steps
handed_on true seen (reads (rtp r now full) ∷ steps) = handed_on true seen steps
handed_on true seen (reads (rtp r now closed) ∷ steps) = seen
handed_on true seen (reads failed ∷ steps) = seen
handed_on true seen (a ∷ steps) = handed_on true seen steps

-- The reader alone.
unfoldable capture_steps : Capture → List Step → Capture
capture_steps c [] = c
capture_steps c (reads r ∷ steps) = capture_steps (capture_step c r) steps
capture_steps c (a ∷ steps) = capture_steps c steps

abbrev reader : Bool → List IncomingAudioPacket → Capture
reader is_running packets = record { is_running = is_running; packets = packets }

capture_steps-stopped :
    (packets : List IncomingAudioPacket) (steps : List Step)
    → capture_steps (reader false packets) steps ≡ reader false packets
unfolding capture_steps capture_step
capture_steps-stopped packets [] = refl
capture_steps-stopped packets (reads r ∷ steps) = capture_steps-stopped packets steps
capture_steps-stopped packets (uplinks now answer ∷ steps) = capture_steps-stopped packets steps
capture_steps-stopped packets (ticks now answer ∷ steps) = capture_steps-stopped packets steps
capture_steps-stopped packets (reader_gone ∷ steps) = capture_steps-stopped packets steps
capture_steps-stopped packets (speaks is_sent ∷ steps) = capture_steps-stopped packets steps
capture_steps-stopped packets (others a ∷ steps) = capture_steps-stopped packets steps

capture_steps-handed_on :
    (is_read : Bool) (packets : List IncomingAudioPacket) (steps : List Step)
    → captured_payloads (capture_steps (reader is_read packets) steps).packets
      ≡ handed_on is_read (captured_payloads packets) steps
unfolding capture_steps capture_step on_read
capture_steps-handed_on true packets [] = refl
capture_steps-handed_on false packets [] = refl
capture_steps-handed_on false packets (a ∷ steps) =
    ap (λ (c : Capture). captured_payloads c.packets) (capture_steps-stopped packets (a ∷ steps))
capture_steps-handed_on true packets (reads (rtp r now sent) ∷ steps) =
    capture_steps-handed_on true (incoming_packet r now ∷ packets) steps
capture_steps-handed_on true packets (reads (rtp r now full) ∷ steps) =
    capture_steps-handed_on true packets steps
capture_steps-handed_on true packets (reads (rtp r now closed) ∷ steps) =
    ap (λ (c : Capture). captured_payloads c.packets) (capture_steps-stopped packets steps)
capture_steps-handed_on true packets (reads failed ∷ steps) =
    ap (λ (c : Capture). captured_payloads c.packets) (capture_steps-stopped packets steps)
capture_steps-handed_on true packets (uplinks now answer ∷ steps) =
    capture_steps-handed_on true packets steps
capture_steps-handed_on true packets (ticks now answer ∷ steps) =
    capture_steps-handed_on true packets steps
capture_steps-handed_on true packets (reader_gone ∷ steps) =
    capture_steps-handed_on true packets steps
capture_steps-handed_on true packets (speaks is_sent ∷ steps) =
    capture_steps-handed_on true packets steps
capture_steps-handed_on true packets (others a ∷ steps) = capture_steps-handed_on true packets steps

-- A step that is no read leaves the reader as it is.
receive_packet-capture :
    (p : Pipeline) (now : ℕ) (answer : TrySend) (o : Option IncomingAudioPacket)
    → (receive_packet p now answer o).capture ≡ p.capture
unfolding receive_packet
receive_packet-capture p now answer none = refl
receive_packet-capture p now answer (some packet) = refl

receive_frame-capture :
    (p : Pipeline) (is_sent : Bool) (o : Option WebrtcVoiceData)
    → (receive_frame p is_sent o).capture ≡ p.capture
unfolding receive_frame
receive_frame-capture p is_sent none = refl
receive_frame-capture p is_sent (some frame) = refl

run_pipeline-capture :
    (p : Pipeline) (steps : List Step)
    → (run_pipeline p steps).capture ≡ capture_steps p.capture steps
unfolding run_pipeline step capture_steps
run_pipeline-capture p [] = refl
run_pipeline-capture p (reads r ∷ steps) =
    run_pipeline-capture (record p { capture = capture_step p.capture r }) steps
run_pipeline-capture p (uplinks now answer ∷ steps) =
    run_pipeline-capture (step p (uplinks now answer)) steps
    ∙ ap (λ c. capture_steps c steps)
        (if_cases (λ (q : Pipeline). q.capture ≡ p.capture) p.uplink.is_running _ p
          (receive_packet-capture p now answer _) refl)
run_pipeline-capture p (ticks now answer ∷ steps) =
    run_pipeline-capture (step p (ticks now answer)) steps
run_pipeline-capture p (reader_gone ∷ steps) = run_pipeline-capture (step p reader_gone) steps
run_pipeline-capture p (speaks is_sent ∷ steps) =
    run_pipeline-capture (step p (speaks is_sent)) steps
    ∙ ap (λ c. capture_steps c steps)
        (if_cases (λ (q : Pipeline). q.capture ≡ p.capture) p.voice_task.is_running _ p
          (receive_frame-capture p is_sent _) refl)
run_pipeline-capture p (others a ∷ steps) =
    run_pipeline-capture (step p (others a)) steps
    ∙ ap (λ c. capture_steps c steps)
        (if_cases (λ (q : Pipeline). q.capture ≡ p.capture) (needs_no_frame a) _ p refl refl)

-- Whatever the losses in the two channels and on the sockets, the timing, and the interleaving of the
-- three tasks: the reader hands on, in order and unchanged, the payload of each RTP packet that an Opus
-- track gives and the channel has room for, until the track fails or the channel is closed; the audio
-- payloads that reach the Mumble server are some of these, in their order, each unchanged and none
-- twice; and the audio frames carry strictly rising numbers and whole packets, as long as the timestamps are u32 values
-- and the steps too few to wrap a 64-bit frame number.
pub run_pipeline-in_order :
    (mime_type : String) (is_sent : Bool) (steps : List Step)
    → All IsTimed steps
    → 4473924 * length steps < 2 ^ 64
    → let p = run_pipeline (start_pipeline mime_type is_sent) steps in
      let frames = speech_frames p.voice_task.outgoing in
      let handed = handed_on (eq_ignore_ascii_case mime_type "audio/opus") [] steps in
      (captured_payloads p.capture.packets ≡ handed)
      × Sublistᴰ (audio_payloads frames) handed
      × Numbered (next_number p.uplink.clock) frames
run_pipeline-in_order mime_type is_sent steps timed room =
    let p : Pipeline = run_pipeline (start_pipeline mime_type is_sent) steps in
    let h : Flow (length steps) p =
      run_pipeline-Flow 0 (length steps) _ steps (omega arith) timed
        (start-Flow mime_type is_sent) in
    let handed : Sublistᴰ (speech_frames p.voice_task.outgoing) p.uplink.voice =
      Sublistᴰ.trans h.told (rw h.handed (append-Sublistᴰ h.unsent p.frames)) in
    let captured : Sublistᴰ (captured_payloads p.captured) (captured_payloads p.capture.packets) =
      map-Sublistᴰ (λ q. q.opus_data) (rw h.read (append-Sublistᴰ h.unread p.captured)) in
    let exact =
      ap (λ (c : Capture). captured_payloads c.packets)
        (run_pipeline-capture (start_pipeline mime_type is_sent) steps)
      ∙ capture_steps-handed_on (eq_ignore_ascii_case mime_type "audio/opus") [] steps in
    let reached : Sublistᴰ (audio_payloads (speech_frames p.voice_task.outgoing))
        (captured_payloads p.capture.packets) =
      Sublistᴰ.trans (Sublistᴰ.filter_map audio_payload handed)
        (Sublistᴰ.trans h.voiced captured) in
    (
      exact,
      subst (λ l. Sublistᴰ (audio_payloads (speech_frames p.voice_task.outgoing)) l) exact reached,
      Numbered-Sublistᴰ _ handed (
          subst (λ u. Numbered (next_number u.clock) u.voice) (sym h.traced.ran)
            (uplink_run-Numbered h.traced.events h.traced.timed (omega (arith, h.traced.few)))),
    )
