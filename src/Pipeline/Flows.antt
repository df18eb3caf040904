-- ===== src/Pipeline/Flows.antt =====
-- What holds between the three tasks on the way of a voice from the browser to Mumble, at every
-- step of theirs: each has received an initial part of what its channel took.
use mathlib.Core.List.{filter_map, Sublistᴰ}
use mumdota.Base.{
  ℕ, suc, ◌+◌, ◌^◌, ◌<◌, ◌≤◌, ◌≡◌, refl, sym, ap, ◌∙◌, subst, Bool, true, false, String, List, [],
  ◌∷◌, ◌++◌, ◌⊎◌, inl, inr, arith, length, length-append, if_cases, Bool-cases, All, nat_eq,
  All-append,
}
use mumdota.Uplink.{
  Uplink, start_uplink, UplinkEvent, received, ticked, stream_ended, uplink_step, uplink_run,
  IncomingAudioPacket, WebrtcVoiceData, TrySend, sent, full, closed, packet,
}
use mumdota.Uplink.Loop.{IsRtp}
use mumdota.Capture.{incoming_packet, Capture, Read, rtp, failed, on_read, capture_step}
use mumdota.Voice.{start_task, Arm, spoken, voice_step}
use mumdota.Pipeline.{
  Pipeline, start_pipeline, next_of, Step, reads, uplinks, ticks, reader_gone, speaks, others,
  needs_no_frame, receive_packet, receive_frame, step, run_pipeline,
}
use mumdota.Pipeline.Grows.{
  spoken-told, voice_step-told, next_of-cases, audio_payloads, speech_frames, captured_payloads,
  received-Adds, ticked-Adds, Adds-voiced_audio, Adds-voiced_none, Adds-handed,
}

abbrev IsU32 : IncomingAudioPacket → Type 0
IsU32 p = p.timestamp < 2 ^ 32

-- A packet that the track gives carries a u32 timestamp.
abbrev pub IsTimed : Step → Type 0
IsTimed (reads (rtp r now answer)) = r.timestamp < 2 ^ 32
IsTimed _ = Unit

-- The uplink has handled at most `count` events, each of a packet with a u32 timestamp.
pub record Traced (count : ℕ) (u : Uplink) : Type 0 where
  pub events : List UplinkEvent
  pub ran : u ≡ uplink_run start_uplink events
  pub timed : All IsRtp events
  pub few : length events ≤ count

-- What holds between the tasks after `count` steps.
pub record Flow (count : ℕ) (p : Pipeline) : Type 0 where
  pub unread : List IncomingAudioPacket
  pub read : p.capture.packets ≡ unread ++ p.captured
  pub timed : All IsU32 p.capture.packets
  pub unsent : List WebrtcVoiceData
  pub handed : p.uplink.voice ≡ unsent ++ p.frames
  pub voiced : Sublistᴰ (audio_payloads p.uplink.voice) (captured_payloads p.captured)
  pub told : Sublistᴰ (speech_frames p.voice_task.outgoing) p.frames
  pub traced : Traced count p.uplink

uplink_run-snoc :
    (u : Uplink) (events : List UplinkEvent) (e : UplinkEvent)
    → uplink_run u (events ++ e ∷ []) ≡ uplink_step (uplink_run u events) e
unfolding uplink_run
uplink_run-snoc u [] e = refl
uplink_run-snoc u (d ∷ events) e = uplink_run-snoc (uplink_step u d) events e

All-middle {ℓ κ} :
    {A : Type ℓ} (P : A → Type κ) (xs ys : List A) {x : A} → All P (xs ++ x ∷ ys) → P x
All-middle P [] ys (px, h) = px
All-middle P (y ∷ xs) ys (py, h) = All-middle P xs ys h

uplink_step-Traced :
    (count : ℕ) (u : Uplink) (e : UplinkEvent)
    → IsRtp e
    → Traced count u
    → Traced (suc count) (uplink_step u e)
uplink_step-Traced count u e timely t = record {
  events = t.events ++ e ∷ [];
  ran = ap (λ v. uplink_step v e) t.ran ∙ sym (uplink_run-snoc start_uplink t.events e);
  timed = All-append IsRtp t.events (e ∷ []) t.timed (timely, tt);
  few = omega (arith, length-append t.events (e ∷ []), t.few);
}

waits-Traced : (count : ℕ) (u : Uplink) → Traced count u → Traced (suc count) u
waits-Traced count u t = record {
  events = t.events;
  ran = t.ran;
  timed = t.timed;
  few = omega (arith, t.few);
}

pub start-Flow : (mime_type : String) (is_sent : Bool) → Flow 0 (start_pipeline mime_type is_sent)
unfolding filter_map uplink_run
start-Flow mime_type is_sent = record {
  unread = [];
  read = refl;
  timed = tt;
  unsent = [];
  handed = refl;
  voiced = Sublistᴰ.slnil;
  told = told is_sent;
  traced = record { events = []; ran = refl; timed = tt; few = omega arith };
}
  where
    told : (is_sent : Bool) → Sublistᴰ (speech_frames (start_task is_sent).outgoing) []
    told true = Sublistᴰ.slnil
    told false = Sublistᴰ.slnil

waits-Flow : (count : ℕ) (p : Pipeline) → Flow count p → Flow (suc count) p
waits-Flow count p h = record {
  unread = h.unread;
  read = h.read;
  timed = h.timed;
  unsent = h.unsent;
  handed = h.handed;
  voiced = h.voiced;
  told = h.told;
  traced = waits-Traced count p.uplink h.traced;
}

capture_step-grows :
    (c : Capture) (r : Read)
    → IsTimed (reads r)
    → ((capture_step c r).packets ≡ c.packets)
      ⊎ ((packet : IncomingAudioPacket) × ((capture_step c r).packets ≡ packet ∷ c.packets)
          × IsU32 packet)
unfolding capture_step on_read
capture_step-grows c (rtp r now sent) timely = elim (Bool-cases c.is_running) [
  | inl running ↦ inr (incoming_packet r now, rw running refl, timely)
  | inr ended ↦ inl (rw ended refl)
]
capture_step-grows c (rtp r now full) timely = inl (ground arith)
capture_step-grows c (rtp r now closed) timely = inl (ground arith)
capture_step-grows c failed timely = inl (ground arith)

reads-Flow :
    (count : ℕ) (p : Pipeline) (r : Read)
    → IsTimed (reads r)
    → Flow count p
    → Flow (suc count) (step p (reads r))
unfolding step
reads-Flow count p r timely h = elim (capture_step-grows p.capture r timely) [
  | inl same ↦ with_packets h.unread (same ∙ h.read) (rw same h.timed)
  | inr (packet, grown, u32) ↦
      with_packets (packet ∷ h.unread) (grown ∙ ap (λ l. packet ∷ l) h.read)
        (rw grown (u32, h.timed))
]
  where
    with_packets :
        (unread : List IncomingAudioPacket)
        → (capture_step p.capture r).packets ≡ unread ++ p.captured
        → All IsU32 (capture_step p.capture r).packets
        → Flow (suc count) (step p (reads r))
    with_packets unread read timed = record {
      unread = unread;
      read = read;
      timed = timed;
      unsent = h.unsent;
      handed = h.handed;
      voiced = h.voiced;
      told = h.told;
      traced = waits-Traced count p.uplink h.traced;
    }

receive_packet-Flow :
    (count : ℕ) (p : Pipeline) (now : ℕ) (answer : TrySend)
    → Flow count p
    → Flow (suc count) (receive_packet p now answer (next_of p.capture.packets p.captured))
unfolding receive_packet
receive_packet-Flow count p now answer h = elim (next_of-cases h.unread p.captured h.read) [
  | inl waits ↦ rw waits (waits-Flow count p h)
  | inr (rest, packet, found, whole) ↦ rw found (
      let handed : (new : List WebrtcVoiceData) × (_ ≡ new ++ p.frames) =
        Adds-handed _ p.uplink _ p.frames h.unsent (received-Adds p.uplink packet now answer)
          h.handed in
      record {
        unread = rest;
        read = whole;
        timed = h.timed;
        unsent = handed.0;
        handed = handed.1;
        voiced =
            Adds-voiced_audio p.uplink _ packet.opus_data _
              (received-Adds p.uplink packet now answer) h.voiced;
        told = h.told;
        traced =
            uplink_step-Traced count p.uplink (received packet now answer)
              (All-middle IsU32 rest p.captured (subst (All IsU32) whole h.timed)) h.traced;
      })
]

ticks-Flow :
    (count : ℕ) (p : Pipeline) (now : ℕ) (answer : TrySend)
    → Flow count p
    → Flow (suc count) (step p (ticks now answer))
unfolding step
ticks-Flow count p now answer h =
    let handed : (new : List WebrtcVoiceData) × (_ ≡ new ++ p.frames) =
      Adds-handed _ p.uplink _ p.frames h.unsent (ticked-Adds p.uplink now answer) h.handed in
    record {
      unread = h.unread;
      read = h.read;
      timed = h.timed;
      unsent = handed.0;
      handed = handed.1;
      voiced = Adds-voiced_none p.uplink _ _ (ticked-Adds p.uplink now answer) h.voiced;
      told = h.told;
      traced = uplink_step-Traced count p.uplink (ticked now answer) tt h.traced;
    }

reader_gone-Flow : (count : ℕ) (p : Pipeline) → Flow count p → Flow (suc count) (step p reader_gone)
unfolding step uplink_step
reader_gone-Flow count p h = record {
  unread = h.unread;
  read = h.read;
  timed = h.timed;
  unsent = h.unsent;
  handed = h.handed;
  voiced = h.voiced;
  told = h.told;
  traced = uplink_step-Traced count p.uplink stream_ended tt h.traced;
}

-- A step of the voice task, which leaves the reader and the uplink as they are.
voice_step-Flow :
    (count : ℕ) (p : Pipeline) (a : Arm) (unsent frames : List WebrtcVoiceData)
    → p.uplink.voice ≡ unsent ++ frames
    → Sublistᴰ (speech_frames (voice_step p.voice_task a).outgoing) frames
    → Flow count p
    → Flow (suc count) (record p { voice_task = voice_step p.voice_task a; frames = frames })
voice_step-Flow count p a unsent frames handed told h = record {
  unread = h.unread;
  read = h.read;
  timed = h.timed;
  unsent = unsent;
  handed = handed;
  voiced = h.voiced;
  told = told;
  traced = waits-Traced count p.uplink h.traced;
}

speaks-Flow :
    (count : ℕ) (p : Pipeline) (is_sent : Bool)
    → Flow count p
    → Flow (suc count) (receive_frame p is_sent (next_of p.uplink.voice p.frames))
unfolding receive_frame
speaks-Flow count p is_sent h = elim (next_of-cases h.unsent p.frames h.handed) [
  | inl waits ↦ rw waits (waits-Flow count p h)
  | inr (rest, frame, found, whole) ↦ rw found (
      voice_step-Flow count p (spoken frame is_sent) rest (frame ∷ p.frames) whole
        (spoken-told p.voice_task frame is_sent p.frames h.told) h)
]

others-Flow :
    (count : ℕ) (p : Pipeline) (a : Arm) → Flow count p → Flow (suc count) (step p (others a))
unfolding step
others-Flow count p a h = elim (Bool-cases (needs_no_frame a)) [
  | inl quiet ↦ rw quiet (
      voice_step-Flow count p a h.unsent p.frames h.handed
        (rw (voice_step-told p.voice_task a quiet) h.told) h)
  | inr frame ↦ rw frame (waits-Flow count p h)
]

step-Flow :
    (count : ℕ) (p : Pipeline) (a : Step) → IsTimed a → Flow count p → Flow (suc count) (step p a)
unfolding step
step-Flow count p (reads r) timely h = reads-Flow count p r timely h
step-Flow count p (uplinks now answer) timely h =
    if_cases (Flow (suc count)) p.uplink.is_running _ p (receive_packet-Flow count p now answer h)
      (waits-Flow count p h)
step-Flow count p (ticks now answer) timely h = ticks-Flow count p now answer h
step-Flow count p reader_gone timely h = reader_gone-Flow count p h
step-Flow count p (speaks is_sent) timely h =
    if_cases (Flow (suc count)) p.voice_task.is_running _ p (speaks-Flow count p is_sent h)
      (waits-Flow count p h)
step-Flow count p (others a) timely h = others-Flow count p a h

pub run_pipeline-Flow :
    (count total : ℕ) (p : Pipeline) (steps : List Step)
    → length steps + count ≡ total
    → All IsTimed steps
    → Flow count p
    → Flow total (run_pipeline p steps)
unfolding run_pipeline
run_pipeline-Flow count total p [] e timely h =
    let same : count ≡ total = omega (arith, e) in subst (λ n. Flow n p) same h
run_pipeline-Flow count total p (a ∷ steps) e (now, later) h =
    run_pipeline-Flow (suc count) total (step p a) steps (omega (arith, e)) later
      (step-Flow count p a now h)
