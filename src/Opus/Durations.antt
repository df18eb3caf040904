-- ===== src/Opus/Durations.antt =====
-- The header reader of src/bridge.rs against the tables of RFC 6716, section 3.
use mumdota.Base.{
  ℕ, ◌*◌, ◌/◌, ◌%◌, ◌≤◌, ◌<◌, ◌≡◌, refl, ◌↔◌, List, [], ◌∷◌, Bool, true, false, none, some, ◌⊎◌,
  inl, inr, arith, ◌==◌, nat_eq, get_elem?, ok, Option-cases, every_below, every_below_sound,
  and_then-ok,
}
use mumdota.Opus.{
  max_opus_packet_samples, opus_packet_frame_count, opus_packet_total_samples, config_samples,
}

-- Frame sizes by configuration number, in samples at 48 kHz: three SILK rows of 10, 20, 40 and 60
-- ms, two hybrid rows of 10 and 20 ms, and four CELT rows of 2.5, 5, 10 and 20 ms.
abbrev pub rfc_frame_sizes : List ℕ
rfc_frame_sizes =
    480 ∷ 960 ∷ 1920 ∷ 2880 ∷ 480 ∷ 960 ∷ 1920 ∷ 2880 ∷ 480 ∷ 960 ∷ 1920 ∷ 2880 ∷ 480 ∷ 960 ∷ 480
    ∷ 960 ∷ 120 ∷ 240 ∷ 480 ∷ 960 ∷ 120 ∷ 240 ∷ 480 ∷ 960 ∷ 120 ∷ 240 ∷ 480 ∷ 960 ∷ 120 ∷ 240 ∷ 480
    ∷ 960 ∷ []

-- How many frames the code in the two low bits of the TOC byte announces.
pub data Frames (toc : ℕ) : List ℕ → ℕ → Type 0 where
  one : {rest : List ℕ} → toc % 4 ≡ 0 → Frames toc rest 1
  two_equal : {rest : List ℕ} → toc % 4 ≡ 1 → Frames toc rest 2
  two_unequal : {rest : List ℕ} → toc % 4 ≡ 2 → Frames toc rest 2
  coded :
      {count_byte : ℕ} {rest : List ℕ}
      → toc % 4 ≡ 3
      → 1 ≤ count_byte % 64
      → Frames toc (count_byte ∷ rest) (count_byte % 64)

-- A packet that RFC 6716 allows, with its duration in samples at 48 kHz.
pub data Duration (toc : ℕ) (rest : List ℕ) (n : ℕ) : Type 0 where
  lasts :
      (count size : ℕ)
      → Frames toc rest count
      → get_elem? rfc_frame_sizes (toc / 8) ≡ some size
      → n ≡ count * size
      → n ≤ max_opus_packet_samples
      → Duration toc rest n

row_agrees : ℕ → Bool
unfolding config_samples
row_agrees config = elim (get_elem? rfc_frame_sizes config) [
  | none ↦ false
  | some size ↦ size == config_samples config
]

row_agrees_all : every_below row_agrees 32 ≡ true
unfolding every_below row_agrees
row_agrees_all = refl

get_elem?-config_samples :
    (config : ℕ) → config < 32 → get_elem? rfc_frame_sizes config ≡ some (config_samples config)
unfolding row_agrees
get_elem?-config_samples config h = elim (Option-cases (get_elem? rfc_frame_sizes config)) [
  | inl e ↦ ground (arith, every_below_sound row_agrees 32 row_agrees_all config h)
  | inr (size, e) ↦ ground (arith, every_below_sound row_agrees 32 row_agrees_all config h)
]

code_cases : (toc : ℕ) → (toc % 4 ≡ 0) ⊎ ((toc % 4 ≡ 1) ⊎ ((toc % 4 ≡ 2) ⊎ (toc % 4 ≡ 3)))
code_cases toc = grind arith

coded-Frames :
    (toc : ℕ) (rest : List ℕ) {k : ℕ}
    → toc % 4 ≡ 3
    → opus_packet_frame_count (toc ∷ rest) ≡ ok k
    → Frames toc rest k
unfolding opus_packet_frame_count
coded-Frames toc [] code e = ground arith
coded-Frames toc (count_byte ∷ rest) {k} code e =
    let counted : k ≡ count_byte % 64 = ground arith in rw counted (coded code (ground arith))

frame_count-Frames :
    (toc : ℕ) (rest : List ℕ) {k : ℕ}
    → opus_packet_frame_count (toc ∷ rest) ≡ ok k
    → Frames toc rest k
unfolding opus_packet_frame_count
frame_count-Frames toc rest {k} e = elim (code_cases toc) [
  | inl code ↦ let n : k ≡ 1 = ground arith in rw n (one code)
  | inr (inl code) ↦ let n : k ≡ 2 = ground arith in rw n (two_equal code)
  | inr (inr (inl code)) ↦ let n : k ≡ 2 = ground arith in rw n (two_unequal code)
  | inr (inr (inr code)) ↦ coded-Frames toc rest code e
]

total_samples-Duration :
    (toc : ℕ) (rest : List ℕ) (n : ℕ)
    → toc < 256
    → opus_packet_total_samples (toc ∷ rest) ≡ ok n
    → Duration toc rest n
unfolding opus_packet_total_samples
total_samples-Duration toc rest n h e =
    let (k, counted, rest_of) = and_then-ok (opus_packet_frame_count (toc ∷ rest)) _ e in
    lasts k (config_samples (toc / 8)) (frame_count-Frames toc rest counted)
      (get_elem?-config_samples (toc / 8) (omega arith)) (ground arith) (ground arith)

Duration-total_samples :
    (toc : ℕ) (rest : List ℕ) (n : ℕ)
    → toc < 256
    → Duration toc rest n
    → opus_packet_total_samples (toc ∷ rest) ≡ ok n
unfolding opus_packet_total_samples
Duration-total_samples toc rest n h (lasts _ size (one code) row total bound) =
    ground (arith, get_elem?-config_samples (toc / 8))
Duration-total_samples toc rest n h (lasts _ size (two_equal code) row total bound) =
    ground (arith, get_elem?-config_samples (toc / 8))
Duration-total_samples toc rest n h (lasts _ size (two_unequal code) row total bound) =
    ground (arith, get_elem?-config_samples (toc / 8))
Duration-total_samples toc rest n h (lasts _ size (coded code some_frames) row total bound) =
    ground (arith, get_elem?-config_samples (toc / 8))

-- On bytes, the reader accepts a packet with a duration of `n` samples exactly when RFC 6716 gives
-- it that duration and the duration is at most 120 ms.
pub total_samples_iff_Duration :
    (toc : ℕ) (rest : List ℕ) (n : ℕ)
    → toc < 256
    → (opus_packet_total_samples (toc ∷ rest) ≡ ok n) ↔ Duration toc rest n
total_samples_iff_Duration toc rest n h =
    (total_samples-Duration toc rest n h, Duration-total_samples toc rest n h)
