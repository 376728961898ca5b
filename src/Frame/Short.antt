-- ===== src/Frame/Short.antt =====
-- Frames in `Frame::decode` of amqprs/src/frame/mod.rs that are whole but too short for their type.
use amqprs.Prelude.{
  ℕ, ◌+◌, ◌-◌, ◌^◌, ◌<◌, ◌≡◌, refl, ◌∙◌, false, Bool-cases, inl, inr, List, [], ◌∷◌, ◌++◌, length,
  length-take, length-drop, take, drop, leb, arith,
}
use amqprs.Prelude.Bytes.{from_be_bytes}
use amqprs.Serde.De.{value_read, from_bytes, parse_num}
use amqprs.Serde.Wire.{Wire}
use amqprs.Frame.MethodHeader.{MethodHeader}
use amqprs.Frame.Frames.{
  FrameHeader, frame_header_wire, method_header_wire, frame_method, frame_end,
}
use amqprs.Frame.Decode.{panic, slice, decode, decode_payload}
use amqprs.Frame.Stream.{decode_whole}

-- Any four bytes are a method header.
read_four :
    (s : List ℕ)
    → length s ≡ 4
    → (h : MethodHeader) × (from_bytes (Wire.de method_header_wire) s ≡ value_read h)
unfolding from_bytes method_header_wire parse_num
read_four [] e = absurd (omega arith)
read_four (a ∷ []) e = absurd (omega arith)
read_four (a ∷ b ∷ []) e = absurd (omega arith)
read_four (a ∷ b ∷ c ∷ []) e = absurd (omega arith)
read_four (a ∷ b ∷ c ∷ d ∷ []) e =
    (record { class_id = from_be_bytes (a ∷ b ∷ []); method_id = from_be_bytes (c ∷ d ∷ []) }, refl)
read_four (a ∷ b ∷ c ∷ d ∷ x ∷ s) e = absurd (omega arith)

short_payload :
    (buf : List ℕ) (h : FrameHeader) (n : ℕ)
    → h.frame_type ≡ frame_method
    → n < 4
    → decode_payload buf h (n + 7 + 1) ≡ panic
unfolding decode_payload slice
short_payload buf h n t lt = elim (Bool-cases (leb 11 (length buf))) [
  | inl enough ↦
      let four : length (take 4 (drop 7 buf)) ≡ 4 =
        length-take 4 (drop 7 buf) (ground (arith, length-drop {0} {A = ℕ} 7 buf)) in
      let (header, e) = read_four (take 4 (drop 7 buf)) four in
      let backwards : leb 11 (n + 7 + 1 - 1) ≡ false = ground arith in
      rw (t, enough, e, backwards) refl
  | inr short ↦ rw (t, short) refl
]

-- A whole frame of the type of methods on a channel of 16 bits whose payload is shorter than the
-- four bytes of a method header makes decode panic, whatever bytes follow it.
pub decode-short_method :
    (channel : ℕ) (pay rest : List ℕ)
    → channel < 2 ^ 16
    → length pay < 4
    → let h : FrameHeader = record {
      frame_type = frame_method;
      channel = channel;
      payload_size = length pay;
    } in
      decode (Wire.ser frame_header_wire h ++ (pay ++ (frame_end ∷ rest))) ≡ panic
decode-short_method channel pay rest hc lt =
    let h : FrameHeader = record {
      frame_type = frame_method;
      channel = channel;
      payload_size = length pay;
    } in
    let buf : List ℕ = Wire.ser frame_header_wire h ++ (pay ++ (frame_end ∷ rest)) in
    decode_whole frame_method channel pay rest (omega arith) hc (omega arith)
    ∙ short_payload buf h (length pay) refl lt
