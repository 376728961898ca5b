-- ===== src/Net/SplitConnection.antt =====
-- amqprs/src/net/split_connection.rs: the buffers between frames and the socket. Of the writer, what
-- is handed to `write_all`, after which its buffer is empty; of the reader, the loop on the pieces
-- that `read_buf` appends, where an empty piece is the end of the stream.
pub mod Writer
pub mod Reader
mod Tests
use amqprs.Prelude.{
  ℕ, zero, suc, ◌+◌, ◌-◌, ◌%◌, ◌^◌, List, [], ◌∷◌, ◌++◌, Option, none, some, Outcome, done, ltb,
  leb, ◌==◌, if◌then◌else◌, length, take, drop, set,
}
use amqprs.Prelude
use amqprs.Prelude.Bytes.{to_be_bytes}
use amqprs.Serde.Wire.{Wire}
use amqprs.Frame.Methods.{publish}
use amqprs.Frame.Frames.{
  Frame, method, heart_beat, content_header, content_body, publish_combo, ContentBody,
  frame_header_wire, frame_header_size, frame_content_body, frame_end, get_frame_type, ser_frame,
}
use amqprs.Frame.Decode.{Try, ok, err, panic, stuck, ◌>>=◌, Error, Decoded, decode}

-- `*self.buffer.get_mut(i).unwrap() = v` for the bytes of a slice, from `index` on.
unfoldable pub write_at : ℕ → List ℕ → List ℕ → Outcome (List ℕ)
write_at index [] buffer = done buffer
write_at index (v ∷ vs) buffer =
    let rest = write_at (suc index) vs (set buffer index v) in
    if ltb index (length buffer) then rest else Prelude.panic

abbrev pub lift {ℓ} : {A : Type ℓ} → Outcome A → Try A
lift (done a) = ok a
lift Prelude.panic = panic

-- The header is written with the size 0, which is written over behind the payload.
unfoldable pub serialize_frame_into_buffer : List ℕ → ℕ → Frame → Outcome (List ℕ)
unfolding write_at
serialize_frame_into_buffer buffer channel frame =
    let start_index = length buffer in
    let with_header =
      buffer
      ++ Wire.ser frame_header_wire
          (record { frame_type = get_frame_type frame; channel = channel; payload_size = 0 }) in
    let with_payload = with_header ++ ser_frame frame in
    let payload_size = length with_payload - length with_header in
    Prelude.◌>>=◌ (write_at (3 + start_index) (to_be_bytes 4 (payload_size % 2 ^ 32)) with_payload)
      (λ patched. done (patched ++ (frame_end ∷ [])))

-- The payload of the next body frame. usize arithmetic with the overflow check of a build with debug
-- assertions.
unfoldable pub chunk_size : ℕ → ℕ → Try ℕ
chunk_size frame_max remaining =
    if leb (frame_header_size + 1) frame_max
    then ok (
        if ltb (frame_max - (frame_header_size + 1)) remaining
        then frame_max - (frame_header_size + 1)
        else remaining)
    else panic

-- One round of the loop: the frame of a part of the body.
unfoldable pub write_chunk : List ℕ → ℕ → List ℕ → Outcome (List ℕ)
unfolding write_at
write_chunk buffer channel payload =
    let start_index = length buffer in
    let with_header =
      buffer
      ++ Wire.ser frame_header_wire
          (record { frame_type = frame_content_body; channel = channel; payload_size = 0 }) in
    let with_payload = with_header ++ payload in
    Prelude.◌>>=◌
      (write_at (3 + start_index) (to_be_bytes 4 (length payload % 2 ^ 32)) with_payload)
      (λ patched. done (patched ++ (frame_end ∷ [])))

-- The loop while the cursor has bytes left. A round takes a byte at least where a frame has room for
-- one, and then a fuel above the length of the body is enough.
unfoldable pub write_body : ℕ → List ℕ → ℕ → ℕ → List ℕ → Try (List ℕ)
unfolding chunk_size write_chunk
write_body zero buffer channel frame_max body = stuck
write_body (suc fuel) buffer channel frame_max [] = ok buffer
write_body (suc fuel) buffer channel frame_max (b ∷ bs) = do
  size ← chunk_size frame_max (length (b ∷ bs))
  buffer' ← lift (write_chunk buffer channel (take size (b ∷ bs)))
  write_body fuel buffer' channel frame_max (drop size (b ∷ bs))

unfoldable pub serialize_content_body_into_buffer : List ℕ → ℕ → ContentBody → ℕ → Try (List ℕ)
unfolding write_body
serialize_content_body_into_buffer buffer channel body frame_max =
    write_body (1 + length body.inner) buffer channel frame_max body.inner

unfoldable pub write_frame : List ℕ → ℕ → Frame → ℕ → Try (List ℕ)
unfolding serialize_frame_into_buffer serialize_content_body_into_buffer
write_frame buffer channel (publish_combo p h b) frame_max = do
  buffer₁ ← lift (serialize_frame_into_buffer buffer channel (method (publish p)))
  buffer₂ ← lift (serialize_frame_into_buffer buffer₁ channel (content_header h))
  serialize_content_body_into_buffer buffer₂ channel b frame_max
write_frame buffer channel (method m) frame_max =
    lift (serialize_frame_into_buffer buffer channel (method m))
write_frame buffer channel heart_beat frame_max =
    lift (serialize_frame_into_buffer buffer channel heart_beat)
write_frame buffer channel (content_header h) frame_max =
    lift (serialize_frame_into_buffer buffer channel (content_header h))
write_frame buffer channel (content_body b) frame_max =
    lift (serialize_frame_into_buffer buffer channel (content_body b))

-- What `read_frame` returns, with what it leaves in the buffer and in the stream. `waiting`: the
-- stream has nothing more yet.
pub data ReadFrame : Type 0 where
  frame_read : ℕ → Frame → List ℕ → List (List ℕ) → ReadFrame
  framing : Error → ReadFrame
  peer_shutdown interrupted read_panics read_stuck waiting : ReadFrame

-- `decode` of the reader on its buffer; without a whole frame the reading goes on.
abbrev pub take_frame : Decoded → List ℕ → List (List ℕ) → ReadFrame → ReadFrame
take_frame (ok none) buffer pieces continue = continue
take_frame (ok (some (len, channel, frame))) buffer pieces continue =
    frame_read channel frame (drop len buffer) pieces
take_frame (err e) buffer pieces continue = framing e
take_frame panic buffer pieces continue = read_panics
take_frame stuck buffer pieces continue = read_stuck

unfoldable pub decode_buffer : List ℕ → List (List ℕ) → ReadFrame → ReadFrame
decode_buffer buffer pieces continue = take_frame (decode buffer) buffer pieces continue

unfoldable pub read_loop : List ℕ → List (List ℕ) → ReadFrame
unfolding decode_buffer
read_loop buffer [] = waiting
read_loop buffer (piece ∷ pieces) =
    let rest = read_loop (buffer ++ piece) pieces in
    if length piece == 0
    then (if length buffer == 0 then peer_shutdown else interrupted)
    else decode_buffer (buffer ++ piece) pieces rest

unfoldable pub read_frame : List ℕ → List (List ℕ) → ReadFrame
unfolding decode_buffer read_loop
read_frame buffer pieces = decode_buffer buffer pieces (read_loop buffer pieces)
