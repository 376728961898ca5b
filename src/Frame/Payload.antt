-- ===== src/Frame/Payload.antt =====
-- The payload of a frame in `Frame::decode` of amqprs/src/frame/mod.rs: its slices, and what is read
-- from them.
use amqprs.Prelude.{
  ℕ, ◌+◌, ◌-◌, ◌≤◌, ◌≡◌, refl, sym, true, List, [], ◌∷◌, ◌++◌, some, length, get_elem?, leb, arith,
  length-append, take-append, drop-append, append_assoc,
}
use amqprs.Prelude.Bytes.{to_be_bytes, length-to_be_bytes}
use amqprs.Serde.Ser.{serialize_u8, serialize_u16, serialize_u32, serialize_u64, serialize_bytes}
use amqprs.Serde.Wire.{Wire, from_bytes-ser}
use amqprs.Frame.MethodHeader.{MethodHeader}
use amqprs.Frame.Methods.{method_header, ser_arguments, ArgumentsFit}
use amqprs.Frame.DecodeMethod.{decode-ser_arguments}
use amqprs.Frame.HeaderFits.{method_header-Fits}
use amqprs.Frame.ContentHeader.{ContentHeader}
use amqprs.Frame.ContentHeader.Flags.{IsFlagged}
use amqprs.Frame.ContentHeader.RoundTrip.{ContentsFit, number_set, from_bytes-ser_properties}
use amqprs.Frame.ContentHeader.Wires.{common_wire, ser_properties}
use amqprs.Frame.Frames.{
  Frame, method, heart_beat, content_header, content_body, publish_combo, FrameHeader,
  frame_header_wire, method_header_wire, get_frame_type, ser_frame, ser_content_header,
}
use amqprs.Frame.Decode.{ok, slice, decode_payload}

-- The content fits the wire; the combination is not a frame of its own there.
abbrev pub FrameFits : Frame → Type 0
FrameFits (method m) = ArgumentsFit m
FrameFits heart_beat = Unit
FrameFits (content_header h) =
    Wire.Fits common_wire h.common
    × IsFlagged h.basic_properties
    × ContentsFit h.basic_properties
    × (number_set h.basic_properties ≤ 13)
FrameFits (content_body b) = Unit
FrameFits (publish_combo p h b) = ⊥

pub slice-mid :
    (a b c : List ℕ) (i j : ℕ)
    → i ≡ length a
    → j ≡ length a + length b
    → slice i j (a ++ (b ++ c)) ≡ some b
unfolding slice
slice-mid a b c i j ei ej =
    let lo : leb i j ≡ true = ground arith in
    let hi : leb j (length (a ++ (b ++ c))) ≡ true =
      ground (arith, length-append {0} {A = ℕ} a (b ++ c), length-append {0} {A = ℕ} b c) in
    let width : j - i ≡ length b = omega arith in
    rw (lo, hi, width, ei, drop-append a (b ++ c), take-append b c) refl

pub get_elem?-append : (a c : List ℕ) (x i : ℕ) → i ≡ length a → get_elem? (a ++ (x ∷ c)) i ≡ some x
get_elem?-append [] c x i e = rw e refl
get_elem?-append (b ∷ a) c x i e = rw e (get_elem?-append a c x (length a) refl)

pub length-frame_header : (h : FrameHeader) → length (Wire.ser frame_header_wire h) ≡ 7
unfolding frame_header_wire serialize_u8 serialize_u16 serialize_u32
length-frame_header h = omega (
  arith,
  length-append {0} {A = ℕ} (to_be_bytes 2 h.channel) (to_be_bytes 4 h.payload_size),
  length-to_be_bytes 2 h.channel,
  length-to_be_bytes 4 h.payload_size,
)

length-method_header : (h : MethodHeader) → length (Wire.ser method_header_wire h) ≡ 4
unfolding method_header_wire serialize_u16
length-method_header h = omega (
  arith,
  length-append {0} {A = ℕ} (to_be_bytes 2 h.class_id) (to_be_bytes 2 h.method_id),
  length-to_be_bytes 2 h.class_id,
  length-to_be_bytes 2 h.method_id,
)

length-common : (h : ContentHeader) → length (Wire.ser common_wire h.common) ≡ 12
unfolding common_wire serialize_u16 serialize_u64
length-common h = omega (
  arith,
  length-append {0} {A = ℕ} (to_be_bytes 2 h.common.weight) (to_be_bytes 8 h.common.body_size),
  length-append {0} {A = ℕ} (to_be_bytes 2 h.common.class)
      (to_be_bytes 2 h.common.weight ++ to_be_bytes 8 h.common.body_size),
  length-to_be_bytes 2 h.common.class,
  length-to_be_bytes 2 h.common.weight,
  length-to_be_bytes 8 h.common.body_size,
)

-- Two parts of a payload behind a frame header.
module _ (header one two rest : List ℕ) (n : ℕ) where
  parts :
      length header ≡ 7
      → length one ≡ n
      → (slice 7 (7 + n) (header ++ ((one ++ two) ++ rest)) ≡ some one)
        × (slice (7 + n) (length (one ++ two) + 7) (header ++ ((one ++ two) ++ rest)) ≡ some two)
  parts e f = (
    rw (append_assoc one two rest)
        (slice-mid header one (two ++ rest) 7 (7 + n) (sym e) (omega arith)),
    rw (append_assoc one two rest, sym (append_assoc header one (two ++ rest)))
        (slice-mid (header ++ one) two rest (7 + n) (length (one ++ two) + 7)
          (omega (arith, length-append {0} {A = ℕ} header one))
          (omega (arith, length-append {0} {A = ℕ} header one, length-append {0} {A = ℕ} one two))),
  )

-- The payload of a frame is read back, by the type of the frame.
pub payload_lem :
    (header rest : List ℕ) (h : FrameHeader) (f : Frame)
    → length header ≡ 7
    → h.frame_type ≡ get_frame_type f
    → FrameFits f
    → decode_payload (header ++ (ser_frame f ++ rest)) h (length (ser_frame f) + 7 + 1)
      ≡ ok (some (length (ser_frame f) + 7 + 1, h.channel, f))
unfolding decode_payload get_frame_type ser_frame ser_content_header serialize_bytes
payload_lem header rest h (method m) e t w =
    let head : List ℕ = Wire.ser method_header_wire (method_header m) in
    let (one, two) =
      parts header head (ser_arguments m) rest 4 e (length-method_header (method_header m)) in
    let last : length (head ++ ser_arguments m) + 7 + 1 - 1 ≡ length (head ++ ser_arguments m) + 7 =
      omega arith in
    rw
      (
        t,
        one,
        from_bytes-ser method_header_wire (method_header m)
            (unfold method_header_wire in method_header-Fits m),
        last,
        two,
        decode-ser_arguments m w,
      )
      refl
payload_lem header rest h heart_beat e t w = rw t refl
payload_lem header rest h (content_header c) e t w =
    let head : List ℕ = Wire.ser common_wire c.common in
    let props : List ℕ = ser_properties c.basic_properties in
    let (one, two) = parts header head props rest 12 e (length-common c) in
    let last : length (head ++ props) + 7 + 1 - 1 ≡ length (head ++ props) + 7 = omega arith in
    let (common_fits, flagged, fit, few) = w in
    rw
      (
        t,
        one,
        from_bytes-ser common_wire c.common common_fits,
        last,
        two,
        (from_bytes-ser_properties c.basic_properties flagged fit).0 few,
      )
      refl
payload_lem header rest h (content_body b) e t w =
    let body = slice-mid header b.inner rest 7 (length b.inner + 7) (sym e) (omega arith) in
    let last : length b.inner + 7 + 1 - 1 ≡ length b.inner + 7 = omega arith in
    rw (t, last, body) refl
payload_lem header rest h (publish_combo p c b) e t w = absurd w
