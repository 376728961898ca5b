-- ===== src/Frame/Decode.antt =====
-- `Frame::decode` of amqprs/src/frame/mod.rs.
use amqprs.Prelude.{
  ℕ, ◌+◌, ◌-◌, not, ◌&&◌, List, Option, none, some, length, take, drop, get_elem?, ltb, leb, ◌==◌,
  if◌then◌else◌,
}
use amqprs.Serde.De
use amqprs.Serde.De.{Read, value_read, error_read, panic_read, stuck_read, from_bytes}
use amqprs.Serde.Wire.{Wire}
use amqprs.Frame.DecodeMethod.{decode_method_frame}
use amqprs.Frame.ContentHeader.Wires.{common_wire, visit_seq}
use amqprs.Frame.Frames.{
  Frame, method, heart_beat, content_header, content_body, FrameHeader, frame_header_wire,
  method_header_wire, frame_header_size, frame_method, frame_content_header, frame_content_body,
  frame_heartbeat, frame_end,
}

-- amqprs/src/frame/error.rs; the text of a serde error is that of its kind.
pub data Error : Type 0 where
  corrupted : Error
  serde_error : De.Error → Error

-- A result, or a panic; `stuck` is no outcome of the source.
pub data Try {ℓ} (A : Type ℓ) : Type ℓ where
  ok : A → Try A
  err : Error → Try A
  panic : Try A
  stuck : Try A

infixl 5 ◌>>=◌
abbrev pub ◌>>=◌ {ℓ κ} : {A : Type ℓ} {B : Type κ} → Try A → (A → Try B) → Try B
ok a >>= f = f a
err e >>= f = err e
panic >>= f = panic
stuck >>= f = stuck

-- `?` on what `from_bytes` returns.
abbrev pub question {ℓ} : {A : Type ℓ} → Read A → Try A
question (value_read a) = ok a
question (error_read e) = err (serde_error e)
question panic_read = panic
question stuck_read = stuck

-- `buf.get(start..end)`.
unfoldable pub slice : ℕ → ℕ → List ℕ → Option (List ℕ)
slice start end buf =
    if leb start end && leb end (length buf)
    then some (take (end - start) (drop start buf))
    else none

-- `None => unreachable!(..)`.
abbrev pub reachable {ℓ} : {A : Type ℓ} → Option A → Try A
reachable none = panic
reachable (some a) = ok a

abbrev pub Decoded : Type 0
Decoded = Try (Option (ℕ × ℕ × Frame))

-- The payload, by the type of the frame.
unfoldable pub decode_payload : List ℕ → FrameHeader → ℕ → Decoded
decode_payload buf h total_size =
    if h.frame_type == frame_method
    then (do
      s ← reachable (slice frame_header_size (frame_header_size + 4) buf)
      header ← question (from_bytes (Wire.de method_header_wire) s)
      method_raw ← reachable (slice (frame_header_size + 4) (total_size - 1) buf)
      m ← question (decode_method_frame header method_raw)
      ok (some (total_size, h.channel, method m)))
    else if h.frame_type == frame_heartbeat
    then ok (some (total_size, h.channel, heart_beat))
    else if h.frame_type == frame_content_header
    then (do
      s ← reachable (slice frame_header_size (frame_header_size + 12) buf)
      common ← question (from_bytes (Wire.de common_wire) s)
      s' ← reachable (slice (frame_header_size + 12) (total_size - 1) buf)
      properties ← question (from_bytes visit_seq s')
      ok (
          some (
            total_size,
            h.channel,
            content_header (record { common = common; basic_properties = properties }),
          )))
    else if h.frame_type == frame_content_body
    then (do
      body ← reachable (slice frame_header_size (total_size - 1) buf)
      ok (some (total_size, h.channel, content_body (record { inner = body }))))
    else err corrupted

unfoldable pub decode : List ℕ → Decoded
unfolding decode_payload slice
decode buf = if ltb (length buf) frame_header_size then ok none else (do
  s ← reachable (slice 0 frame_header_size buf)
  h ← question (from_bytes (Wire.de frame_header_wire) s)
  let total_size = h.payload_size + frame_header_size + 1
  if ltb (length buf) total_size then ok none else (do
    v ← reachable (get_elem? buf (total_size - 1))
    if not (v == frame_end) then err corrupted else decode_payload buf h total_size))
