-- ===== src/Pipeline/Grows.antt =====
-- What the channels between the browser's microphone and the Mumble server hold: the next entry of
-- one, and what an event of the uplink adds to it.
use mathlib.Core.List.{filter_map, Sublistᴰ}
use mumdota.Base.{
  ℕ, suc, ◌+◌, ◌-◌, ◌≡◌, refl, ap, ◌∙◌, Bool, true, false, List, [], ◌∷◌, ◌++◌, map, Option, none,
  some, ◌⊎◌, inl, inr, arith, length, length-append, get_elem?, if◌then◌else◌, if_cases, Bool-cases,
  ltb, ltb-false, ltb-true, ◌%◌, nat_eq, as_millis, Result-cases, ◌==◌, last_cases,
  get_elem?-append, append_assoc,
}
use mumdota.Opus.{opus_packet_total_samples}
use mumdota.Uplink.{
  Uplink, received, ticked, uplink_step, IncomingAudioPacket, WebrtcVoiceData, TrySend, UplinkClock,
  sent, full, closed, try_send, on_packet, on_tick, forward, deliver, is_silent,
}
use mumdota.Voice.{
  opus, other_codec, pong, audio, on_arm, on_voice_packet, when_sent, ticked as ping_due, arrived,
  invalid, udp_ended, channel_closed, VoiceTask, Arm, spoken, voice_step, VoiceDatagram, ping,
  speech,
}
use mumdota.Pipeline.{next_of, needs_no_frame}

-- The next entry of a channel stands just before those received.
pub next_of-cases {ℓ} :
    {A : Type ℓ} (front seen : List A) {all : List A}
    → all ≡ front ++ seen
    → (next_of all seen ≡ none)
      ⊎ ((rest : List A) × (x : A) × (next_of all seen ≡ some x) × (all ≡ rest ++ x ∷ seen))
unfolding next_of
next_of-cases front seen {all} e = elim (last_cases front) [
  | inl empty ↦
      inl (rw (e, empty, ltb-false {a = length seen} {b = length seen} (omega arith)) refl)
  | inr (rest, x, cut) ↦
      let whole : all ≡ rest ++ x ∷ seen =
        e ∙ ap (λ l. l ++ seen) cut ∙ append_assoc rest (x ∷ []) seen in
      let longer : length all ≡ length rest + suc (length seen) =
        ap length whole ∙ length-append rest (x ∷ seen) in
      let place : length all - suc (length seen) ≡ length rest = omega arith in
      let shorter : ltb (length seen) (length all) ≡ true = ltb-true (omega arith) in
      inr (
        rest,
        x,
        rw (shorter, place)
            (ap (λ l. get_elem? l (length rest)) whole ∙ get_elem?-append rest x seen),
        whole,
      )
]

-- The payload of a frame of audio; the end of a talk spurt has none.
abbrev pub audio_payload : WebrtcVoiceData → Option (List ℕ)
audio_payload v = if v.last_frame then none else some v.opus_data

abbrev pub audio_payloads : List WebrtcVoiceData → List (List ℕ)
audio_payloads = filter_map audio_payload

abbrev pub speech_frame : VoiceDatagram → Option WebrtcVoiceData
speech_frame (ping timestamp) = none
speech_frame (speech target frame) = some frame

-- The voice frames among the datagrams.
abbrev pub speech_frames : List VoiceDatagram → List WebrtcVoiceData
speech_frames = filter_map speech_frame

abbrev pub captured_payloads : List IncomingAudioPacket → List (List ℕ)
captured_payloads = map (λ p. p.opus_data)

-- What an event adds to the frames that the channel took: at most one, of this payload.
pub Adds : Option (List ℕ) → Uplink → List WebrtcVoiceData → Type 0
Adds payload u after =
    (after ≡ u.voice)
    ⊎ ((v : WebrtcVoiceData) × (after ≡ v ∷ u.voice) × (audio_payload v ≡ payload))

try_send-Adds :
    (answer : TrySend) (v : WebrtcVoiceData) (u : Uplink)
    → Adds (audio_payload v) u (try_send answer v u.voice)
unfolding Adds
try_send-Adds sent v u = inr (v, refl, refl)
try_send-Adds full v u = inl refl
try_send-Adds closed v u = inl refl

deliver-Adds :
    (u : Uplink) (p : IncomingAudioPacket) (now : ℕ) (answer : TrySend) (r : Option ℕ × UplinkClock)
    → Adds (some p.opus_data) u (deliver u p now answer r).voice
unfolding deliver Adds
deliver-Adds u p now answer (none, clock) = inl refl
deliver-Adds u p now answer (some seq_num, clock) = try_send-Adds answer _ u

on_packet-Adds :
    (u : Uplink) (p : IncomingAudioPacket) (now : ℕ) (answer : TrySend)
    → Adds (some p.opus_data) u (on_packet u p now answer).voice
unfolding on_packet forward Adds
on_packet-Adds u p now answer = elim (Bool-cases (ltb 120 (as_millis (now - p.received_at)))) [
  | inl late ↦ rw late (inl refl)
  | inr timely ↦ elim (Result-cases (opus_packet_total_samples p.opus_data)) [
    | inl (samples, read) ↦ elim (Bool-cases (samples % 480 == 0)) [
      | inl grid ↦ rw (timely, read, grid) (deliver-Adds u p now answer _)
      | inr ragged ↦ rw (timely, read, ragged) (inl refl)
    ]
    | inr (e, refused) ↦ rw (timely, refused) (inl refl)
  ]
]

pub received-Adds :
    (u : Uplink) (p : IncomingAudioPacket) (now : ℕ) (answer : TrySend)
    → Adds (some p.opus_data) u (uplink_step u (received p now answer)).voice
unfolding uplink_step Adds
received-Adds u p now answer =
    if_cases (λ v. Adds (some p.opus_data) u v.voice) u.is_running _ u
      (on_packet-Adds u p now answer) (inl refl)

pub ticked-Adds :
    (u : Uplink) (now : ℕ) (answer : TrySend)
    → Adds none u (uplink_step u (ticked now answer)).voice
unfolding uplink_step on_tick Adds
ticked-Adds u now answer = elim (Bool-cases u.is_running) [
  | inl running ↦ elim (Bool-cases (is_silent u.last_packet now)) [
    | inl over ↦ rw (running, over) (try_send-Adds answer _ u)
    | inr speaking ↦ rw (running, speaking) (inl refl)
  ]
  | inr ended ↦ rw ended (inl refl)
]

-- The payload of at most one new frame is that of a packet just received, or there is none.
pub Adds-voiced_audio :
    (u : Uplink) (after : List WebrtcVoiceData) (payload : List ℕ) (captured : List (List ℕ))
    → Adds (some payload) u after
    → Sublistᴰ (audio_payloads u.voice) captured
    → Sublistᴰ (audio_payloads after) (payload ∷ captured)
unfolding Adds filter_map
Adds-voiced_audio u after payload captured (inl same) h = rw same (Sublistᴰ.cons h)
Adds-voiced_audio u after payload captured (inr (v, grown, e)) h =
    rw (grown, e) (Sublistᴰ.cons-cons refl h)

pub Adds-voiced_none :
    (u : Uplink) (after : List WebrtcVoiceData) (captured : List (List ℕ))
    → Adds none u after
    → Sublistᴰ (audio_payloads u.voice) captured
    → Sublistᴰ (audio_payloads after) captured
unfolding Adds filter_map
Adds-voiced_none u after captured (inl same) h = rw same h
Adds-voiced_none u after captured (inr (v, grown, e)) h = rw (grown, e) h

pub Adds-handed :
    (payload : Option (List ℕ)) (u : Uplink) (after : List WebrtcVoiceData)
    (frames unsent : List WebrtcVoiceData)
    → Adds payload u after
    → u.voice ≡ unsent ++ frames
    → (new : List WebrtcVoiceData) × (after ≡ new ++ frames)
unfolding Adds
Adds-handed payload u after frames unsent (inl same) h = (unsent, same ∙ h)
Adds-handed payload u after frames unsent (inr (v, grown, e)) h =
    (v ∷ unsent, grown ∙ ap (λ l. v ∷ l) h)

pub spoken-told :
    (t : VoiceTask) (frame : WebrtcVoiceData) (is_sent : Bool) (frames : List WebrtcVoiceData)
    → Sublistᴰ (speech_frames t.outgoing) frames
    → Sublistᴰ (speech_frames (voice_step t (spoken frame is_sent)).outgoing) (frame ∷ frames)
unfolding filter_map voice_step on_arm
spoken-told t frame is_sent frames h = elim (Bool-cases t.is_running) [
  | inl running ↦ rw running (when_told is_sent)
  | inr ended ↦ rw ended (Sublistᴰ.cons h)
]
  where
    when_told :
        (is_sent : Bool)
        → Sublistᴰ (speech_frames (when_sent is_sent (speech 0 frame) t.outgoing)) (frame ∷ frames)
    when_told true = Sublistᴰ.cons-cons refl h
    when_told false = Sublistᴰ.cons h

other-told :
    (t : VoiceTask) (a : Arm)
    → needs_no_frame a ≡ true
    → speech_frames (on_arm t a).outgoing ≡ speech_frames t.outgoing
unfolding filter_map on_arm on_voice_packet
other-told t (ping_due timestamp true) quiet = refl
other-told t (ping_due timestamp false) quiet = refl
other-told t (arrived (pong timestamp) now answer) quiet = refl
other-told t (arrived (audio session_id seq_num (opus opus_data last)) now answer) quiet = refl
other-told t (arrived (audio session_id seq_num other_codec) now answer) quiet = refl
other-told t invalid quiet = refl
other-told t udp_ended quiet = refl
other-told t (spoken frame is_sent) quiet = cc
other-told t channel_closed quiet = refl

pub voice_step-told :
    (t : VoiceTask) (a : Arm)
    → needs_no_frame a ≡ true
    → speech_frames (voice_step t a).outgoing ≡ speech_frames t.outgoing
unfolding voice_step
voice_step-told t a quiet =
    if_cases (λ v. speech_frames v.outgoing ≡ speech_frames t.outgoing) t.is_running _ t
      (other-told t a quiet) refl
