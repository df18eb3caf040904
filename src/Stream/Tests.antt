-- ===== src/Stream/Tests.antt =====
-- Runs of the stream framing of src/turn/stream.rs, on the bytes of its own test.
use mumdota.Base.{ℕ, ◌≡◌, refl, false, List, [], ◌∷◌, ◌++◌, arith, ok, err, replicate}
use mumdota.Stream.{
  StreamConn, read_frame, encode, recv, reads, flushed, send_to, cannot_change_peer, end_of_stream,
}
use mumdota.Stream.Framing.{
  IsFrame, stun, channel_data, Fronts, read_frame-encode, read_frames, encode_all,
  read_frames-encode_all, read_frame_sound,
}

abbrev one_byte : List ℕ
one_byte = 0x40 ∷ 0 ∷ 0 ∷ 1 ∷ 7 ∷ []

abbrev binding : List ℕ
binding = 0 ∷ 1 ∷ replicate 18 0

one_byte-IsFrame : IsFrame one_byte
one_byte-IsFrame = channel_data 0x40 0 0 1 (7 ∷ []) refl refl

binding-IsFrame : IsFrame binding
binding-IsFrame = stun 0 1 0 0 (replicate 16 0) refl refl refl

encode-one_byte : encode one_byte ≡ 0x40 ∷ 0 ∷ 0 ∷ 1 ∷ 7 ∷ 0 ∷ 0 ∷ 0 ∷ []
unfolding encode
encode-one_byte = refl

abbrev conn : List ℕ → StreamConn
conn incoming = record { incoming = incoming; outgoing = []; closed = false; remote = 1 }

recv_fragment : (recv (conn (0x40 ∷ 0 ∷ 0 ∷ [])) 1500 (reads 0)).0 ≡ err end_of_stream
unfolding recv
recv_fragment = refl

send_to_stranger : (send_to (conn []) one_byte 2 flushed).0 ≡ err cannot_change_peer
unfolding send_to
send_to_stranger = refl

read_frame-one_byte : read_frame 1500 (encode one_byte ++ binding) ≡ ok (one_byte, binding)
read_frame-one_byte = read_frame-encode 1500 one_byte binding one_byte-IsFrame (omega arith)

read_frames-encode_all_example :
    read_frames 2 1500 (encode_all (one_byte ∷ binding ∷ []) ++ [])
    ≡ ok (one_byte ∷ binding ∷ [], [])
read_frames-encode_all_example =
    read_frames-encode_all 1500 (one_byte ∷ binding ∷ []) []
      ((one_byte-IsFrame, omega arith), ((binding-IsFrame, omega arith), tt))

read_frame_sound_example : Fronts 1500 (encode one_byte ++ binding) one_byte binding
unfolding read_frame encode
read_frame_sound_example = read_frame_sound 1500 (encode one_byte ++ binding) one_byte binding refl
