-- ===== src/Speakers/Tracks.antt =====
-- The speakers of src/webrtc/speakers.rs do not disturb one another.
use mumdota.Base.{
  ℕ, ◌-◌, ◌≡◌, refl, ap, ◌∙◌, Bool, true, false, List, [], ◌∷◌, Option, none, some, inl, inr, ltb,
  ◌==◌, nat_eq, if◌then◌else◌, Result, ok, err, as_millis, lookup, lookup-insert, keep,
  Option-cases, Bool-cases, nat_beq_iff,
}
use mumdota.Opus.{OpusError}
use mumdota.Speakers.{MediaClock, MumbleVoiceData, RtpPacket, Speaker, Speakers, hear, write}

abbrev pub collect : Result OpusError (Option RtpPacket) → List RtpPacket → List RtpPacket
collect (err e) rest = rest
collect (ok none) rest = rest
collect (ok (some p)) rest = p ∷ rest

-- A voice packet and the instant at which it is handled.
abbrev pub Delivery : Type 0
Delivery = MumbleVoiceData × ℕ

abbrev pub is_from : ℕ → Delivery → Bool
is_from session (d, now) = d.session_id == session

-- What the tracks of all speakers are given to send, for one of them.
unfoldable pub written : (ℕ → ℕ) → ℕ → Speakers → List Delivery → List RtpPacket
written ticks session speakers [] = []
written ticks session speakers ((d, now) ∷ rest) =
    let (result, speakers') = write ticks speakers d now in
    let later = written ticks session speakers' rest in
    if d.session_id == session then collect result later else later

-- `write` on a speaker that is there: a packet that waited longer than 120 ms is dropped.
abbrev pub hear_timely :
    (ℕ → ℕ) → MediaClock → MumbleVoiceData → ℕ → Result OpusError (Option RtpPacket) × MediaClock
hear_timely ticks c d now =
    if ltb 120 (as_millis (now - d.received_at)) then (ok none, c) else hear ticks c d now

-- One speaker alone, from its own packets and with no map of speakers.
unfoldable pub written_alone : (ℕ → ℕ) → MediaClock → List Delivery → List RtpPacket
written_alone ticks c [] = []
written_alone ticks c ((d, now) ∷ rest) =
    let (result, c') = hear_timely ticks c d now in collect result (written_alone ticks c' rest)

write_self :
    (ticks : ℕ → ℕ) (speakers : Speakers) (d : MumbleVoiceData) (now session : ℕ) (s : Speaker)
    → (d.session_id == session) ≡ true
    → lookup session speakers ≡ some s
    → let (result, c) = hear_timely ticks s.clock d now in
      (s' : Speaker) × ((write ticks speakers d now).0 ≡ result)
      × (lookup session (write ticks speakers d now).1 ≡ some s')
      × (s'.clock ≡ c)
unfolding write
write_self ticks speakers d now session s mine e =
    let same : d.session_id ≡ session = (nat_beq_iff d.session_id session).0 mine in
    let found : lookup d.session_id speakers ≡ some s = ap (λ k. lookup k speakers) same ∙ e in
    elim (Bool-cases (ltb 120 (as_millis (now - d.received_at)))) [
      | inl late ↦ rw late (s, refl, e, refl)
      | inr timely ↦
          rw (timely, found)
            (
              record s { clock = (hear ticks s.clock d now).1 },
              refl,
              rw (lookup-insert d.session_id session _ speakers, mine),
              refl,
            )
    ]

write_other :
    (ticks : ℕ → ℕ) (speakers : Speakers) (d : MumbleVoiceData) (now session : ℕ)
    → (d.session_id == session) ≡ false
    → lookup session (write ticks speakers d now).1 ≡ lookup session speakers
unfolding write
write_other ticks speakers d now session other =
    elim (Bool-cases (ltb 120 (as_millis (now - d.received_at)))) [
      | inl late ↦ rw late
      | inr timely ↦ elim (Option-cases (lookup d.session_id speakers)) [
        | inl unknown ↦ rw (timely, unknown)
        | inr (s, e) ↦ rw (timely, e, lookup-insert d.session_id session _ speakers, other)
      ]
    ]

-- However the packets of several speakers interleave, the track of a speaker that is there is
-- given exactly what it would be given if only that speaker's packets arrived: its clock, its
-- sequence numbers and its drops depend on no other speaker.
pub written-eq-written_alone :
    (ticks : ℕ → ℕ) (session : ℕ) (speakers : Speakers) (s : Speaker) (ds : List Delivery)
    → lookup session speakers ≡ some s
    → written ticks session speakers ds ≡ written_alone ticks s.clock (keep (is_from session) ds)
unfolding written written_alone keep
written-eq-written_alone ticks session speakers s [] e = refl
written-eq-written_alone ticks session speakers s ((d, now) ∷ ds) e =
    elim (Bool-cases (d.session_id == session)) [
      | inl mine ↦
          let speakers' = (write ticks speakers d now).1 in
          let (s', result, found, clock) = write_self ticks speakers d now session s mine e in
          let later = written-eq-written_alone ticks session speakers' s' ds found in
          rw mine (cc (result, later, clock))
      | inr other ↦ rw other (
          written-eq-written_alone ticks session (write ticks speakers d now).1 s ds
            (write_other ticks speakers d now session other ∙ e))
    ]
