-- ===== src/Frame/Stream.antt =====
-- `Frame::decode` of amqprs/src/frame/mod.rs on a stream: a whole frame is decoded whatever follows
-- it, and a part of one is not.
use amqprs.Prelude.{
  ℕ, zero, suc, ◌+◌, ◌-◌, ◌^◌, ◌≤◌, ◌<◌, ◌≡◌, refl, sym, ◌∙◌, ap, inl, inr, true, false, List, [],
  ◌∷◌, ◌++◌, none, some, length, take, get_elem?, ltb, leb, arith, length-append, take-append,
  append_assoc, Bool-cases,
}
use amqprs.Serde.De.{value_read, from_bytes}
use amqprs.Serde.Wire.{Wire, from_bytes-ser}
use amqprs.Frame.Frames.{
  Frame, method, heart_beat, content_header, content_body, publish_combo, FrameHeader,
  frame_header_wire, get_frame_type, ser_frame, frame_end,
}
use amqprs.Frame.Decode.{ok, slice, decode, decode_payload}
use amqprs.Frame.Payload.{FrameFits, slice-mid, get_elem?-append, length-frame_header, payload_lem}

-- A frame on a channel as it stands on the wire.
unfoldable pub encode : ℕ → Frame → List ℕ
encode channel f =
    Wire.ser frame_header_wire (record {
      frame_type = get_frame_type f;
      channel = channel;
      payload_size = length (ser_frame f);
    })
    ++ (ser_frame f ++ (frame_end ∷ []))

get_frame_type-byte : (f : Frame) → get_frame_type f < 2 ^ 8
unfolding get_frame_type
get_frame_type-byte (method m) = omega arith
get_frame_type-byte heart_beat = omega arith
get_frame_type-byte (content_header h) = omega arith
get_frame_type-byte (content_body b) = omega arith
get_frame_type-byte (publish_combo p h b) = omega arith

abbrev header_of : ℕ → Frame → FrameHeader
header_of channel f = record {
  frame_type = get_frame_type f;
  channel = channel;
  payload_size = length (ser_frame f);
}

read_header :
    (channel : ℕ) (f : Frame)
    → channel < 2 ^ 16
    → length (ser_frame f) < 2 ^ 32
    → from_bytes (Wire.de frame_header_wire) (Wire.ser frame_header_wire (header_of channel f))
      ≡ value_read (header_of channel f)
unfolding frame_header_wire
read_header channel f hc hp =
    from_bytes-ser frame_header_wire (header_of channel f) (get_frame_type-byte f, (hc, hp))

pub length-encode :
    (channel : ℕ) (f : Frame) → length (encode channel f) ≡ length (ser_frame f) + 7 + 1
unfolding encode
length-encode channel f =
    let head : List ℕ = Wire.ser frame_header_wire (header_of channel f) in
    omega (
      arith,
      length-frame_header (header_of channel f),
      length-append {0} {A = ℕ} head (ser_frame f ++ (frame_end ∷ [])),
      length-append {0} {A = ℕ} (ser_frame f) (frame_end ∷ []),
    )

-- A whole frame is read by its type, whatever its payload.
pub decode_whole :
    (type channel : ℕ) (pay rest : List ℕ)
    → type < 2 ^ 8
    → channel < 2 ^ 16
    → length pay < 2 ^ 32
    → let h : FrameHeader = record {
      frame_type = type;
      channel = channel;
      payload_size = length pay;
    } in
      let buf : List ℕ = Wire.ser frame_header_wire h ++ (pay ++ (frame_end ∷ rest)) in
      decode buf ≡ decode_payload buf h (length pay + 7 + 1)
unfolding decode
decode_whole type channel pay rest ht hc hp =
    let h : FrameHeader = record {
      frame_type = type;
      channel = channel;
      payload_size = length pay;
    } in
    let head : List ℕ = Wire.ser frame_header_wire h in
    let tail : List ℕ = frame_end ∷ rest in
    let size : length (head ++ (pay ++ tail)) ≡ 7 + (length pay + (1 + length rest)) = omega (
      arith,
      length-append {0} {A = ℕ} head (pay ++ tail),
      length-append {0} {A = ℕ} pay tail,
      length-frame_header h,
    ) in
    let long : ltb (length (head ++ (pay ++ tail))) 7 ≡ false = ground arith in
    let whole : ltb (length (head ++ (pay ++ tail))) (length pay + 7 + 1) ≡ false = ground arith in
    let front : slice 0 7 (head ++ (pay ++ tail)) ≡ some head =
      slice-mid [] head (pay ++ tail) 0 7 refl (sym (length-frame_header h) ∙ omega arith) in
    let read : from_bytes (Wire.de frame_header_wire) head ≡ value_read h =
      from_bytes-ser frame_header_wire h (unfold frame_header_wire in (ht, (hc, hp))) in
    let last : get_elem? (head ++ (pay ++ tail)) (length pay + 7 + 1 - 1) ≡ some 206 =
      rw (sym (append_assoc head pay tail)) (
        get_elem?-append (head ++ pay) rest 206 (length pay + 7 + 1 - 1)
          (omega (arith, length-append {0} {A = ℕ} head pay, length-frame_header h))) in
    rw (long, front, read, whole, last) refl

-- A frame on a channel of 16 bits with a payload below 2 ^ 32 bytes is decoded from its bytes with
-- its length and its channel, whatever bytes follow it, where it is a heartbeat, a body, a method
-- whose arguments fit their fields, or a content header whose contents fit theirs, whose flags
-- agree with the properties it has, and which has at most thirteen of the fourteen properties; a
-- publication is not one frame and is not meant here.
pub decode-encode :
    (channel : ℕ) (f : Frame) (rest : List ℕ)
    → channel < 2 ^ 16
    → FrameFits f
    → length (ser_frame f) < 2 ^ 32
    → decode (encode channel f ++ rest) ≡ ok (some (length (encode channel f), channel, f))
decode-encode channel f rest hc w hp =
    let h : FrameHeader = header_of channel f in
    let head : List ℕ = Wire.ser frame_header_wire h in
    let shape : encode channel f ++ rest ≡ head ++ (ser_frame f ++ (frame_end ∷ rest)) =
      (unfold encode in
        append_assoc head (ser_frame f ++ (frame_end ∷ [])) rest
        ∙ ap (λ (x : List ℕ). head ++ x) (append_assoc (ser_frame f) (frame_end ∷ []) rest)) in
    rw (shape, length-encode channel f)
      (decode_whole (get_frame_type f) channel (ser_frame f) rest (get_frame_type-byte f) hc hp
        ∙ payload_lem head (frame_end ∷ rest) h f (length-frame_header h) refl w)

encode_parts :
    (channel : ℕ) (f : Frame)
    → encode channel f
      ≡ Wire.ser frame_header_wire (header_of channel f) ++ (ser_frame f ++ (frame_end ∷ []))
unfolding encode
encode_parts channel f = refl

take-prefix : (n : ℕ) (xs ys : List ℕ) → n ≤ length xs → take n (xs ++ ys) ≡ take n xs
take-prefix zero xs ys h = refl
take-prefix (suc n) [] ys h = absurd (omega arith)
take-prefix (suc n) (x ∷ xs) ys h = ap (λ (l : List ℕ). x ∷ l) (take-prefix n xs ys (omega arith))

-- A proper part of a frame on the wire, from its start, is not decoded and gives no error: decode
-- asks for more bytes.
pub decode-incomplete :
    (channel : ℕ) (f : Frame) (buf missing : List ℕ)
    → channel < 2 ^ 16
    → length (ser_frame f) < 2 ^ 32
    → buf ++ missing ≡ encode channel f
    → 0 < length missing
    → decode buf ≡ ok none
unfolding decode slice
decode-incomplete channel f buf missing hc hp e more = elim (Bool-cases (ltb (length buf) 7)) [
  | inl short ↦ rw short refl
  | inr enough ↦
      let head : List ℕ = Wire.ser frame_header_wire (header_of channel f) in
      let width : length head ≡ 7 = length-frame_header (header_of channel f) in
      let front : take 7 buf ≡ head =
        sym (take-prefix 7 buf missing (ground arith))
        ∙ ap (λ (x : List ℕ). take 7 x) (e ∙ encode_parts channel f)
        ∙ ap (λ (n : ℕ). take n (head ++ (ser_frame f ++ (frame_end ∷ [])))) (sym width)
        ∙ take-append head (ser_frame f ++ (frame_end ∷ [])) in
      let size : length buf + length missing ≡ length (ser_frame f) + 7 + 1 =
        sym (length-append buf missing)
        ∙ ap (λ (x : List ℕ). length x) e
        ∙ length-encode channel f in
      let fits : leb 7 (length buf) ≡ true = ground arith in
      let short : ltb (length buf) (length (ser_frame f) + 7 + 1) ≡ true = ground arith in
      rw (enough, fits, front, read_header channel f hc hp, short) refl
]
