-- ===== src/Uplink/Frames.antt =====
-- The frame numbers of `UplinkClock` in src/bridge.rs, over any sequence of packets.
use mumdota.Base.{
  ℕ, suc, ◌+◌, ◌-◌, ◌*◌, ◌/◌, ◌%◌, ◌^◌, ◌≤◌, ◌<◌, ◌≡◌, refl, List, [], ◌∷◌, Option, none, some, ◌⊎◌,
  inl, inr, arith, length, All, Option-cases, Bool-cases,
}
use mumdota.Uplink.{UplinkClock, default_clock, packet, is_stale, frames_ahead}

-- A packet's timestamp, sequence number and duration.
pub record Rtp : Type 0 where
  pub timestamp : ℕ
  pub sequence : ℕ
  pub samples : ℕ

abbrev pub prepend_number : ℕ → Option ℕ → List (ℕ × ℕ) → List (ℕ × ℕ)
prepend_number timestamp none rest = rest
prepend_number timestamp (some frame) rest = (timestamp, frame) ∷ rest

-- The packets that the clock accepts, each with its timestamp and its frame number.
unfoldable pub numbered : UplinkClock → List Rtp → List (ℕ × ℕ)
numbered c [] = []
numbered c (p ∷ ps) =
    let (number, c') = packet c p.timestamp p.sequence p.samples in
    prepend_number p.timestamp number (numbered c' ps)

-- Frame numbers from `low` on rise strictly, and each is the packet's RTP time since `origin` in
-- units of 10 ms, that is of 480 samples, modulo the wrap of the RTP clock.
abbrev pub Paced : ℕ → ℕ → List (ℕ × ℕ) → Type 0
Paced origin low [] = Unit {0}
Paced origin low ((timestamp, frame) ∷ rest) =
    (low ≤ frame) × ((origin + 480 * frame) % 2 ^ 32 ≡ timestamp) × Paced origin (suc frame) rest

-- From the first accepted packet on: the clock's frame number is in step with its timestamp.
abbrev pub InStep : ℕ → UplinkClock → Type 0
InStep origin c =
    (last : ℕ) × (c.last_timestamp ≡ some last) × ((origin + 480 * c.frame) % 2 ^ 32 ≡ last)

frames_ahead-gap :
    (last timestamp ahead : ℕ)
    → last < 2 ^ 32
    → timestamp < 2 ^ 32
    → frames_ahead (some last) timestamp ≡ some ahead
    → (1 ≤ ahead) × (ahead ≤ 4473924) × ((last + 480 * ahead) % 2 ^ 32 ≡ timestamp)
unfolding frames_ahead
frames_ahead-gap last timestamp ahead hl ht e = ground arith

-- The clock after it has accepted a packet under the number `frame`.
abbrev pub accepted : ℕ → ℕ → ℕ → ℕ → UplinkClock
accepted timestamp sequence samples frame = record {
  last_timestamp = some timestamp;
  last_sequence = some sequence;
  frame = frame;
  samples = samples;
}

-- A clock that has accepted a packet refuses the next one and stays as it was, or numbers it by
-- its RTP time since the last one.
pub packet_cases :
    (c : UplinkClock) (last timestamp sequence samples : ℕ)
    → c.last_timestamp ≡ some last
    → last < 2 ^ 32
    → timestamp < 2 ^ 32
    → c.frame + 4473924 < 2 ^ 64
    → (packet c timestamp sequence samples ≡ (none, c))
      ⊎ ((ahead : ℕ) × (packet c timestamp sequence samples
            ≡ (some (c.frame + ahead), accepted timestamp sequence samples (c.frame + ahead)))
          × (1 ≤ ahead)
          × (ahead ≤ 4473924)
          × ((last + 480 * ahead) % 2 ^ 32 ≡ timestamp))
unfolding packet
packet_cases c last timestamp sequence samples seen hl ht room =
    elim (Bool-cases (is_stale c.last_sequence sequence)) [
      | inl stale ↦ inl (rw stale)
      | inr fresh ↦ elim (Option-cases (frames_ahead c.last_timestamp timestamp)) [
        | inl refused ↦ inl (rw (fresh, refused))
        | inr (ahead, e) ↦
            let gap = frames_ahead-gap last timestamp ahead hl ht (rw seen at e) in
            let frame_eq : (c.frame + ahead) % 2 ^ 64 ≡ c.frame + ahead = omega arith in
            inr (ahead, rw (fresh, e, frame_eq), gap.0, gap.1, gap.2)
      ]
    ]

numbered-Paced :
    (origin : ℕ) (c : UplinkClock) (ps : List Rtp)
    → InStep origin c
    → All (λ p. p.timestamp < 2 ^ 32) ps
    → c.frame + 4473924 * length ps < 2 ^ 64
    → Paced origin (suc c.frame) (numbered c ps)
unfolding numbered
numbered-Paced origin c [] step bytes room = tt
numbered-Paced origin c (p ∷ ps) (last, seen, synced) (ht, hts) room =
    elim (packet_cases c last p.timestamp p.sequence p.samples seen (omega arith) ht
      (omega arith)) [
        | inl refused ↦
            rw refused (numbered-Paced origin c ps (last, seen, synced) hts (omega arith))
        | inr (ahead, taken, above, below, moved) ↦
            let synced' : (origin + 480 * (c.frame + ahead)) % 2 ^ 32 ≡ p.timestamp = omega arith in
            rw taken (
              omega arith,
              synced',
              numbered-Paced origin (accepted p.timestamp p.sequence p.samples (c.frame + ahead)) ps
                  (p.timestamp, refl, synced') hts (omega arith),
            )
      ]

-- Of the packets of a microphone stream, with u32 timestamps and not more of them than keep the
-- frame numbers within 64 bits, the first is numbered 0; the numbers of those that the clock
-- accepts rise strictly, and each number is the RTP time since the first packet in units of 10 ms.
pub numbered_from_start :
    (p : Rtp) (ps : List Rtp)
    → p.timestamp < 2 ^ 32
    → All (λ q. q.timestamp < 2 ^ 32) ps
    → 4473924 * length ps < 2 ^ 64
    → (rest : List (ℕ × ℕ)) × (numbered default_clock (p ∷ ps) ≡ (p.timestamp, 0) ∷ rest)
      × Paced p.timestamp 1 rest
unfolding numbered packet is_stale frames_ahead
numbered_from_start p ps ht hts room =
    let first = accepted p.timestamp p.sequence p.samples 0 in
    (
      numbered first ps,
      refl,
      numbered-Paced p.timestamp first ps (p.timestamp, refl, omega arith) hts (omega arith),
    )

-- A packet that is ahead on both clocks by less than half a turn, and by `ahead` whole frames of
-- 10 ms, is accepted across every wrap, and moves the frame number by exactly `ahead`.
pub packet_accepts :
    (c : UplinkClock) (last timestamp last_sequence sequence gap ahead samples : ℕ)
    → c.last_timestamp ≡ some last
    → c.last_sequence ≡ some last_sequence
    → last < 2 ^ 32
    → last_sequence < 2 ^ 16
    → 1 ≤ gap
    → gap < 2 ^ 15
    → 1 ≤ ahead
    → 480 * ahead < 2 ^ 31
    → timestamp ≡ (last + 480 * ahead) % 2 ^ 32
    → sequence ≡ (last_sequence + gap) % 2 ^ 16
    → packet c timestamp sequence samples ≡ (
      some ((c.frame + ahead) % 2 ^ 64),
      accepted timestamp sequence samples ((c.frame + ahead) % 2 ^ 64),
    )
unfolding packet is_stale frames_ahead
packet_accepts c last timestamp last_sequence sequence gap ahead samples et es hl hs lo hi lo' hi'
      pt ps =
    let fresh : (sequence + 2 ^ 16 - last_sequence) % 2 ^ 16 ≡ gap = omega arith in
    let moved : (timestamp + 2 ^ 32 - last) % 2 ^ 32 ≡ 480 * ahead = omega arith in
    let frames : 480 * ahead / 480 ≡ ahead = omega arith in
    rw (et, es, fresh, moved, frames) (ground arith)
