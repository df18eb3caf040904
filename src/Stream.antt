-- ===== src/Stream.antt =====
-- TURN over a byte stream, src/turn/stream.rs. A stream is the list of the bytes that the other
-- side sends before it closes; a buffer is known by its length.
pub mod Framing
mod Tests
use mumdota.Base.{
  ℕ, ◌+◌, ◌-◌, ◌*◌, ◌/◌, ◌%◌, Bool, true, false, not, List, [], ◌∷◌, ◌++◌, zero, suc, ltb, ◌==◌,
  nat_eq, if◌then◌else◌, Result, ok, err, ◌>>=◌, ◌>>◌, ensure, length, replicate,
}

pub data StreamError : Type 0 where
  end_of_stream unaligned_length invalid_type exceeds_mtu idle already_closed timed_out write_failed
        cannot_change_peer :
      StreamError

-- `read_exact`: that many bytes, and the stream after them.
unfoldable pub read_exact : ℕ → List ℕ → Result StreamError (List ℕ × List ℕ)
read_exact zero stream = ok ([], stream)
read_exact (suc n) [] = err end_of_stream
read_exact (suc n) (b ∷ stream) = do (bytes, rest) ← read_exact n stream; ok (b ∷ bytes, rest)

-- `len` and `padded_len`, from the first byte and the payload length of the header.
unfoldable pub frame_lengths : ℕ → ℕ → Result StreamError (ℕ × ℕ)
frame_lengths first payload_len =
    let kind = first / 64 in
    if kind == 0
    then (if payload_len % 4 == 0
        then ok (20 + payload_len, 20 + payload_len)
        else err unaligned_length)
    else if kind == 1
    then ok (4 + payload_len, (4 + payload_len + 3) / 4 * 4)
    else err invalid_type

-- `read_frame` on the four header bytes.
unfoldable pub read_body : ℕ → ℕ → ℕ → ℕ → ℕ → List ℕ → Result StreamError (List ℕ × List ℕ)
unfolding frame_lengths read_exact
read_body buf_len h0 h1 h2 h3 stream = do
  (len, padded_len) ← frame_lengths h0 (h2 * 256 + h3)
  ensure (not (ltb buf_len len)) exceeds_mtu
  (body, padded) ← read_exact (len - 4) stream
  (padding, rest) ← read_exact (padded_len - len) padded
  ok (h0 ∷ h1 ∷ h2 ∷ h3 ∷ body, rest)

-- The frame that the buffer holds afterwards, and the stream after it.
unfoldable pub read_frame : ℕ → List ℕ → Result StreamError (List ℕ × List ℕ)
unfolding read_body
read_frame buf_len (h0 ∷ h1 ∷ h2 ∷ h3 ∷ stream) = read_body buf_len h0 h1 h2 h3 stream
read_frame buf_len _ = err end_of_stream

abbrev pub is_channel_data : List ℕ → Bool
is_channel_data [] = false
is_channel_data (b ∷ _) = b / 64 == 1

-- The bytes that `send` writes for a buffer.
unfoldable pub encode : List ℕ → List ℕ
encode buf = if is_channel_data buf then buf ++ replicate ((4 - length buf % 4) % 4) 0 else buf

pub record StreamConn : Type 0 where
  pub incoming : List ℕ
  pub outgoing : List ℕ
  pub closed : Bool
  pub remote : ℕ

-- Which arm of `recv`'s `select!` comes first: the reader, its timeout, or the closed flag; with how
-- many bytes a read that failed or was dropped had taken from the stream.
pub data RecvArm : Type 0 where
  reads times_out sees_closed : ℕ → RecvArm

-- `skip` of the bytes that are gone.
abbrev pub left_after : ℕ → List ℕ → List ℕ
left_after zero bytes = bytes
left_after (suc n) [] = []
left_after (suc n) (b ∷ bytes) = left_after n bytes

abbrev pub close_on_error :
    StreamConn → ℕ → Result StreamError (List ℕ × List ℕ) → Result StreamError (List ℕ) × StreamConn
close_on_error c gone (ok (frame, rest)) = (ok frame, record c { incoming = rest })
close_on_error c gone (err e) =
    (err e, record c { incoming = left_after gone c.incoming; closed = true })

unfoldable pub recv : StreamConn → ℕ → RecvArm → Result StreamError (List ℕ) × StreamConn
unfolding read_frame
recv c buf_len (reads gone) = close_on_error c gone (read_frame buf_len c.incoming)
recv c buf_len (times_out gone) = close_on_error c gone (err idle)
recv c buf_len (sees_closed gone) = close_on_error c gone (err already_closed)

-- How the write ends: all bytes are flushed, or an error or the timeout comes first, after some.
pub data WriteEnd : Type 0 where
  flushed : WriteEnd
  broken_after : ℕ → StreamError → WriteEnd

-- `take` of the bytes that went out before the write broke.
abbrev pub sent_before : ℕ → List ℕ → List ℕ
sent_before zero bytes = []
sent_before (suc n) [] = []
sent_before (suc n) (b ∷ bytes) = b ∷ sent_before n bytes

unfoldable pub send : StreamConn → List ℕ → WriteEnd → Result StreamError ℕ × StreamConn
unfolding encode
send c buf flushed = (ok (length buf), record c { outgoing = c.outgoing ++ encode buf })
send c buf (broken_after n e) =
    (err e, record c { outgoing = c.outgoing ++ sent_before n (encode buf); closed = true })

-- `Conn::connect` checks the peer, and `send_to` calls it first.
unfoldable pub connect : StreamConn → ℕ → Result StreamError (Unit {0})
connect c addr = ensure (addr == c.remote) cannot_change_peer

unfoldable pub send_to : StreamConn → List ℕ → ℕ → WriteEnd → Result StreamError ℕ × StreamConn
unfolding connect send
send_to c buf target end = elim (connect c target) [ ok _ ↦ send c buf end | err e ↦ (err e, c) ]
