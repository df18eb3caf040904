-- ===== src/Stream/Framing.antt =====
-- The framing of src/turn/stream.rs: what is sent is read back frame by frame.
use mumdota.Base.{
  ℕ, zero, suc, ◌+◌, ◌-◌, ◌*◌, ◌/◌, ◌%◌, ◌≤◌, ◌<◌, ◌≡◌, refl, ◌⊎◌, inl, inr, ap, ◌∙◌, not, List, [],
  ◌∷◌, ◌++◌, arith, ltb, nat_eq, Result, ok, ◌>>=◌, ensure, length, replicate, append_assoc,
  length-replicate, All, ltb-false, and_then-ok, ok-injective, subst,
}
use mumdota.Stream.{
  StreamError, exceeds_mtu, read_exact, frame_lengths, read_body, read_frame, encode,
}

-- A STUN message or a ChannelData message whose length field tells the truth.
pub data IsFrame : List ℕ → Type 0 where
  stun :
      (h0 h1 h2 h3 : ℕ) (body : List ℕ)
      → h0 / 64 ≡ 0
      → (h2 * 256 + h3) % 4 ≡ 0
      → length body ≡ 16 + (h2 * 256 + h3)
      → IsFrame (h0 ∷ h1 ∷ h2 ∷ h3 ∷ body)
  channel_data :
      (h0 h1 h2 h3 : ℕ) (body : List ℕ)
      → h0 / 64 ≡ 1
      → length body ≡ h2 * 256 + h3
      → IsFrame (h0 ∷ h1 ∷ h2 ∷ h3 ∷ body)

read_exact-append :
    (n : ℕ) (bytes rest : List ℕ)
    → length bytes ≡ n
    → read_exact n (bytes ++ rest) ≡ ok (bytes, rest)
unfolding read_exact
read_exact-append zero [] rest e = refl
read_exact-append zero (b ∷ bytes) rest e = absurd (omega arith)
read_exact-append (suc n) [] rest e = absurd (omega arith)
read_exact-append (suc n) (b ∷ bytes) rest e = rw (read_exact-append n bytes rest (omega arith))

read_body-append :
    (buf_len h0 h1 h2 h3 len padded_len : ℕ) (body padding rest : List ℕ)
    → frame_lengths h0 (h2 * 256 + h3) ≡ ok (len, padded_len)
    → len ≤ buf_len
    → length body ≡ len - 4
    → length padding ≡ padded_len - len
    → read_body buf_len h0 h1 h2 h3 (body ++ (padding ++ rest))
      ≡ ok (h0 ∷ h1 ∷ h2 ∷ h3 ∷ body, rest)
unfolding read_body
read_body-append buf_len h0 h1 h2 h3 len padded_len body padding rest lengths fits size pad = rw (
  lengths,
  ltb-false fits,
  read_exact-append (len - 4) body (padding ++ rest) size,
  read_exact-append (padded_len - len) padding rest pad,
)

frame_lengths-stun :
    (h0 payload_len : ℕ)
    → h0 / 64 ≡ 0
    → payload_len % 4 ≡ 0
    → frame_lengths h0 payload_len ≡ ok (20 + payload_len, 20 + payload_len)
unfolding frame_lengths
frame_lengths-stun h0 payload_len kind aligned = rw (kind, aligned)

frame_lengths-channel_data :
    (h0 payload_len : ℕ)
    → h0 / 64 ≡ 1
    → frame_lengths h0 payload_len ≡ ok (4 + payload_len, (4 + payload_len + 3) / 4 * 4)
unfolding frame_lengths
frame_lengths-channel_data h0 payload_len kind = rw kind

-- A frame that is sent is read back as it was, whatever follows it on the stream, if the buffer
-- has room for it: the padding of ChannelData is added and taken off again.
pub read_frame-encode :
    (buf_len : ℕ) (frame rest : List ℕ)
    → IsFrame frame
    → length frame ≤ buf_len
    → read_frame buf_len (encode frame ++ rest) ≡ ok (frame, rest)
unfolding read_frame encode
read_frame-encode buf_len _ rest (stun h0 h1 h2 h3 body kind aligned size) fits = rw kind (
    read_body-append buf_len h0 h1 h2 h3 _ _ body [] rest
      (frame_lengths-stun h0 (h2 * 256 + h3) kind aligned) (omega arith) (omega arith)
      (omega arith))
read_frame-encode buf_len _ rest (channel_data h0 h1 h2 h3 body kind size) fits =
    let count = (4 - suc (suc (suc (suc (length body)))) % 4) % 4 in
    rw (kind, append_assoc body (replicate count 0) rest)
      (read_body-append buf_len h0 h1 h2 h3 _ _ body (replicate count 0) rest
        (frame_lengths-channel_data h0 (h2 * 256 + h3) kind) (omega arith) (omega arith)
        (omega (arith, length-replicate {A = ℕ} count 0)))

-- The reading of several frames in a row.
unfoldable pub read_frames : ℕ → ℕ → List ℕ → Result StreamError (List (List ℕ) × List ℕ)
read_frames zero buf_len stream = ok ([], stream)
read_frames (suc n) buf_len stream = do
  (frame, rest) ← read_frame buf_len stream
  (frames, end) ← read_frames n buf_len rest
  ok (frame ∷ frames, end)

abbrev pub encode_all : List (List ℕ) → List ℕ
encode_all [] = []
encode_all (f ∷ fs) = encode f ++ encode_all fs

-- However well-formed frames that fit the buffer are coalesced on the stream, they come back one by
-- one, in order and unchanged, and what follows them is left.
pub read_frames-encode_all :
    (buf_len : ℕ) (frames : List (List ℕ)) (rest : List ℕ)
    → All (λ f. IsFrame f × (length f ≤ buf_len)) frames
    → read_frames (length frames) buf_len (encode_all frames ++ rest) ≡ ok (frames, rest)
unfolding read_frames
read_frames-encode_all buf_len [] rest fine = refl
read_frames-encode_all buf_len (f ∷ fs) rest ((frame, fits), fine) = rw (
  append_assoc (encode f) (encode_all fs) rest,
  read_frame-encode buf_len f (encode_all fs ++ rest) frame fits,
  read_frames-encode_all buf_len fs rest fine,
)

read_exact_split :
    (n : ℕ) (stream : List ℕ) {bytes rest : List ℕ}
    → read_exact n stream ≡ ok (bytes, rest)
    → (stream ≡ bytes ++ rest) × (length bytes ≡ n)
unfolding read_exact
read_exact_split zero stream {bytes} {rest} e =
    let none_read : [] ≡ bytes = ground arith in
    let all_left : stream ≡ rest = ground arith in
    subst (λ t. (stream ≡ t ++ rest) × (length t ≡ 0)) none_read (all_left, refl)
read_exact_split (suc n) [] e = cc
read_exact_split (suc n) (b ∷ stream) {bytes} {rest} e =
    let (parts, read, joined) = and_then-ok (read_exact n stream) _ e in
    let (split, size) = read_exact_split n stream {bytes = parts.0} {rest = parts.1} read in
    let first : b ∷ parts.0 ≡ bytes = ground arith in
    let last : parts.1 ≡ rest = ground arith in
    rw (← first, ← last) (ap (λ t. b ∷ t) split, ap suc size)

-- What the two lengths say about a header.
frame_lengths_cases :
    (h0 payload_len len padded_len : ℕ)
    → frame_lengths h0 payload_len ≡ ok (len, padded_len)
    → ((h0 / 64 ≡ 0) × (payload_len % 4 ≡ 0) × (len ≡ 20 + payload_len) × (padded_len ≡ len))
      ⊎ ((h0 / 64 ≡ 1)
          × (len ≡ 4 + payload_len)
          × (len ≤ padded_len)
          × (padded_len ≤ len + 3)
          × (padded_len % 4 ≡ 0))
unfolding frame_lengths
frame_lengths_cases h0 payload_len len padded_len e = ground arith

IsFrame-of_lengths :
    (h0 h1 h2 h3 len padded_len : ℕ) (body : List ℕ)
    → frame_lengths h0 (h2 * 256 + h3) ≡ ok (len, padded_len)
    → length body ≡ len - 4
    → IsFrame (h0 ∷ h1 ∷ h2 ∷ h3 ∷ body)
IsFrame-of_lengths h0 h1 h2 h3 len padded_len body e size =
    elim (frame_lengths_cases h0 (h2 * 256 + h3) len padded_len e) [
      | inl (kind, aligned, l, p) ↦ stun h0 h1 h2 h3 body kind aligned (omega arith)
      | inr (kind, l, below, above, p) ↦ channel_data h0 h1 h2 h3 body kind (omega arith)
    ]

-- A well-formed frame at the front of a stream, followed by less than four bytes of padding that
-- end on a multiple of four bytes, and by `rest`.
abbrev pub Fronts : ℕ → List ℕ → List ℕ → List ℕ → Type 0
Fronts buf_len stream frame rest =
    (padding : List ℕ) × (stream ≡ frame ++ (padding ++ rest))
    × IsFrame frame
    × (length frame ≤ buf_len)
    × (length padding < 4)
    × ((length frame + length padding) % 4 ≡ 0)

Fronts-of_parts :
    (buf_len h0 h1 h2 h3 len padded_len : ℕ) (stream body padded padding rest : List ℕ)
    → frame_lengths h0 (h2 * 256 + h3) ≡ ok (len, padded_len)
    → ensure (not (ltb buf_len len)) exceeds_mtu ≡ ok tt
    → stream ≡ body ++ padded
    → length body ≡ len - 4
    → padded ≡ padding ++ rest
    → length padding ≡ padded_len - len
    → Fronts buf_len (h0 ∷ h1 ∷ h2 ∷ h3 ∷ stream) (h0 ∷ h1 ∷ h2 ∷ h3 ∷ body) rest
Fronts-of_parts buf_len h0 h1 h2 h3 len padded_len stream body padded padding rest lengths fits
      split size split' pad =
    let fits' : len ≤ buf_len = ground arith in
    let cases = frame_lengths_cases h0 (h2 * 256 + h3) len padded_len lengths in
    (
      padding,
      ap (λ t. h0 ∷ h1 ∷ h2 ∷ h3 ∷ t) (split ∙ ap (λ t. body ++ t) split'),
      IsFrame-of_lengths h0 h1 h2 h3 len padded_len body lengths size,
      omega arith,
      omega arith,
      omega arith,
    )

-- A frame that is read is a well-formed frame, fits the buffer, and stood at the front of the
-- stream, followed by less than four bytes of padding that end on a multiple of four bytes; the
-- stream goes on behind the padding.
pub read_frame_sound :
    (buf_len : ℕ) (stream frame rest : List ℕ)
    → read_frame buf_len stream ≡ ok (frame, rest)
    → Fronts buf_len stream frame rest
unfolding read_frame read_body
read_frame_sound buf_len [] frame rest e = cc
read_frame_sound buf_len (h0 ∷ []) frame rest e = cc
read_frame_sound buf_len (h0 ∷ h1 ∷ []) frame rest e = cc
read_frame_sound buf_len (h0 ∷ h1 ∷ h2 ∷ []) frame rest e = cc
read_frame_sound buf_len (h0 ∷ h1 ∷ h2 ∷ h3 ∷ stream) frame rest e =
    let (lens, lengths, e1) = and_then-ok (frame_lengths h0 (h2 * 256 + h3)) _ e in
    let (_, fits, e2) = and_then-ok (ensure (not (ltb buf_len lens.0)) exceeds_mtu) _ e1 in
    let (bodies, read, e3) = and_then-ok (read_exact (lens.0 - 4) stream) _ e2 in
    let (pads, padded, e4) = and_then-ok (read_exact (lens.1 - lens.0) bodies.1) _ e3 in
    let (split, size) = read_exact_split _ stream {bytes = bodies.0} {rest = bodies.1} read in
    let (split', pad) = read_exact_split _ bodies.1 {bytes = pads.0} {rest = pads.1} padded in
    subst (λ p. Fronts buf_len (h0 ∷ h1 ∷ h2 ∷ h3 ∷ stream) p.0 p.1) (ok-injective e4)
      (Fronts-of_parts buf_len h0 h1 h2 h3 lens.0 lens.1 stream bodies.0 bodies.1 pads.0 pads.1
        lengths fits split size split' pad)
