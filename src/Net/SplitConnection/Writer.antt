-- ===== src/Net/SplitConnection/Writer.antt =====
-- The writer of amqprs/src/net/split_connection.rs appends the frames of the wire format, and cuts a
-- body into frames of at most `frame_max` bytes.
use amqprs.Prelude.{
  ℕ, zero, suc, ◌+◌, ◌-◌, ◌%◌, ◌^◌, ◌≤◌, ◌<◌, ◌≡◌, refl, sym, ◌∙◌, ap, inl, inr, true, false,
  Bool-cases, List, [], ◌∷◌, ◌++◌, length, length-take, take, drop, set, ltb, leb, arith,
  length-append, append_assoc, append-nil, All, done,
}
use amqprs.Prelude.Bytes.{to_be_bytes, length-to_be_bytes}
use amqprs.Serde.Ser.{serialize_u8, serialize_u16, serialize_u32, serialize_bytes}
use amqprs.Serde.Wire.{Wire}
use amqprs.Frame.Method.Basic.{Publish}
use amqprs.Frame.Methods.{publish}
use amqprs.Frame.ContentHeader.{ContentHeader}
use amqprs.Frame.Frames.{
  Frame, method, content_header, content_body, publish_combo, ContentBody, frame_header_wire,
  frame_content_body, frame_end, get_frame_type, ser_frame,
}
use amqprs.Frame.Decode.{ok, panic, stuck}
use amqprs.Frame.Stream.{encode}
use amqprs.Net.SplitConnection.{
  write_at, serialize_frame_into_buffer, chunk_size, write_chunk, write_body,
  serialize_content_body_into_buffer, write_frame,
}

set-append :
    (pre post : List ℕ) (x v i : ℕ)
    → i ≡ length pre
    → set (pre ++ (x ∷ post)) i v ≡ pre ++ (v ∷ post)
set-append [] post x v i e = rw e refl
set-append (p ∷ pre) post x v i e =
    rw e (ap (λ (l : List ℕ). p ∷ l) (set-append pre post x v (length pre) refl))

write_at_lem :
    (pre old new post : List ℕ) (i : ℕ)
    → i ≡ length pre
    → length old ≡ length new
    → write_at i new (pre ++ (old ++ post)) ≡ done (pre ++ (new ++ post))
unfolding write_at
write_at_lem pre [] [] post i e h = refl
write_at_lem pre [] (v ∷ new) post i e h = absurd (omega arith)
write_at_lem pre (o ∷ old) [] post i e h = absurd (omega arith)
write_at_lem pre (o ∷ old) (v ∷ new) post i e h =
    let inside : ltb i (length (pre ++ (o ∷ (old ++ post)))) ≡ true =
      ground (arith, length-append {0} {A = ℕ} pre (o ∷ (old ++ post))) in
    let next =
      write_at_lem (pre ++ (v ∷ [])) old new post (suc i)
        (omega (arith, length-append {0} {A = ℕ} pre (v ∷ []))) (omega arith) in
    rw
      (
        inside,
        set-append pre (old ++ post) o v i e,
        sym (append_assoc pre (v ∷ []) (old ++ post)),
        sym (append_assoc pre (v ∷ []) (new ++ post)),
      )
      next

header : ℕ → ℕ → ℕ → List ℕ
header type channel size =
    Wire.ser frame_header_wire
      (record { frame_type = type; channel = channel; payload_size = size })

header_parts :
    (type channel size : ℕ)
    → header type channel size ≡ (type ∷ to_be_bytes 2 channel) ++ to_be_bytes 4 size
unfolding header frame_header_wire serialize_u8 serialize_u16 serialize_u32
header_parts type channel size = refl

-- The size is written over in the header behind what the buffer has already.
patched :
    (buffer payload : List ℕ) (type channel size : ℕ)
    → write_at
        (3 + length buffer)
        (to_be_bytes 4 size)
        ((buffer ++ header type channel 0) ++ payload)
      ≡ done (buffer ++ (header type channel size ++ payload))
patched buffer payload type channel size =
    let fixed : List ℕ = type ∷ to_be_bytes 2 channel in
    let shape : (n : ℕ)
        → buffer ++ (header type channel n ++ payload)
          ≡ (buffer ++ fixed) ++ (to_be_bytes 4 n ++ payload) =
      λ n.
        ap (λ (l : List ℕ). buffer ++ (l ++ payload)) (header_parts type channel n)
        ∙ ap (λ (l : List ℕ). buffer ++ l) (append_assoc fixed (to_be_bytes 4 n) payload)
        ∙ sym (append_assoc buffer fixed (to_be_bytes 4 n ++ payload)) in
    rw (append_assoc buffer (header type channel 0) payload, shape 0, shape size)
      (write_at_lem (buffer ++ fixed) (to_be_bytes 4 0) (to_be_bytes 4 size) payload
        (3 + length buffer)
        (omega (arith, length-append {0} {A = ℕ} buffer fixed, length-to_be_bytes 2 channel))
        (length-to_be_bytes 4 0 ∙ sym (length-to_be_bytes 4 size)))

closed :
    (buffer head payload : List ℕ)
    → (buffer ++ (head ++ payload)) ++ (frame_end ∷ [])
      ≡ buffer ++ (head ++ (payload ++ (frame_end ∷ [])))
closed buffer head payload =
    append_assoc buffer (head ++ payload) (frame_end ∷ [])
    ∙ ap (λ (l : List ℕ). buffer ++ l) (append_assoc head payload (frame_end ∷ []))

-- A frame whose payload is below 2 ^ 32 bytes is appended to the buffer in the format of the wire,
-- though the size in its header is written over behind the payload.
pub serialize_frame_into_buffer_lem :
    (buffer : List ℕ) (channel : ℕ) (f : Frame)
    → length (ser_frame f) < 2 ^ 32
    → serialize_frame_into_buffer buffer channel f ≡ done (buffer ++ encode channel f)
unfolding serialize_frame_into_buffer encode header
serialize_frame_into_buffer_lem buffer channel f h =
    let start : List ℕ = buffer ++ header (get_frame_type f) channel 0 in
    let size : (length (start ++ ser_frame f) - length start) % 2 ^ 32 ≡ length (ser_frame f) =
      omega (arith, length-append {0} {A = ℕ} start (ser_frame f)) in
    rw
      (
        size,
        patched buffer (ser_frame f) (get_frame_type f) channel (length (ser_frame f)),
        closed buffer (header (get_frame_type f) channel (length (ser_frame f))) (ser_frame f),
      )
      refl

write_chunk_lem :
    (buffer : List ℕ) (channel : ℕ) (payload : List ℕ)
    → length payload < 2 ^ 32
    → write_chunk buffer channel payload
      ≡ done (buffer ++ encode channel (content_body (record { inner = payload })))
unfolding write_chunk encode header ser_frame get_frame_type serialize_bytes
write_chunk_lem buffer channel payload h =
    let size : length payload % 2 ^ 32 ≡ length payload = omega arith in
    rw
      (
        size,
        patched buffer payload frame_content_body channel (length payload),
        closed buffer (header frame_content_body channel (length payload)) payload,
      )
      refl

abbrev pub flatten : List (List ℕ) → List ℕ
flatten [] = []
flatten (chunk ∷ chunks) = chunk ++ flatten chunks

-- A part of a body that fills a frame of at most `frame_max` bytes, and is not empty.
abbrev pub IsChunk : ℕ → List ℕ → Type 0
IsChunk frame_max chunk = (0 < length chunk) × (length chunk + 8 ≤ frame_max)

-- The body frames of some parts, in order.
unfoldable pub encode_chunks : ℕ → List (List ℕ) → List ℕ
encode_chunks channel [] = []
encode_chunks channel (chunk ∷ chunks) =
    encode channel (content_body (record { inner = chunk })) ++ encode_chunks channel chunks

take-drop : (n : ℕ) (xs : List ℕ) → take n xs ++ drop n xs ≡ xs
take-drop zero xs = refl
take-drop (suc n) [] = refl
take-drop (suc n) (x ∷ xs) = ap (λ (l : List ℕ). x ∷ l) (take-drop n xs)

-- The size of the next part: as much as fits, and a byte at least.
chunk_size_lem :
    (frame_max remaining : ℕ)
    → 9 ≤ frame_max
    → 0 < remaining
    → (n : ℕ) × (chunk_size frame_max remaining ≡ ok n)
      × (0 < n)
      × (n ≤ remaining)
      × (n + 8 ≤ frame_max)
unfolding chunk_size
chunk_size_lem frame_max remaining h pos =
    let room : leb 8 frame_max ≡ true = ground arith in
    elim (Bool-cases (ltb (frame_max - 8) remaining)) [
      | inl long ↦ (frame_max - 8, rw (room, long) refl, omega arith, ground arith, omega arith)
      | inr short ↦ (remaining, rw (room, short) refl, pos, omega arith, ground arith)
    ]

-- What a body is cut into.
abbrev pub Cuts : ℕ → List ℕ → List (List ℕ) → Type 0
Cuts frame_max body chunks = (flatten chunks ≡ body) × All (IsChunk frame_max) chunks

write_body_lem :
    (fuel : ℕ) (buffer : List ℕ) (channel frame_max : ℕ) (body : List ℕ)
    → length body < fuel
    → 9 ≤ frame_max
    → frame_max < 2 ^ 32
    → (chunks : List (List ℕ)) × (write_body fuel buffer channel frame_max body
        ≡ ok (buffer ++ encode_chunks channel chunks))
      × Cuts frame_max body chunks
unfolding write_body encode_chunks
write_body_lem zero buffer channel frame_max body lt h hi = absurd (omega arith)
write_body_lem (suc fuel) buffer channel frame_max [] lt h hi =
    ([], ap (λ (l : List ℕ). ok l) (sym (append-nil buffer)), (refl, tt))
write_body_lem (suc fuel) buffer channel frame_max (b ∷ bs) lt h hi =
    let body : List ℕ = b ∷ bs in
    let (n, e, pos, le, fits) = chunk_size_lem frame_max (length body) h (omega arith) in
    let chunk : List ℕ = take n body in
    let frame : List ℕ = encode channel (content_body (record { inner = chunk })) in
    let size : length chunk ≡ n = length-take n body le in
    let less : length (drop n body) < fuel = omega (
      arith,
      ap (λ (l : List ℕ). length l) (take-drop n body),
      length-append chunk (drop n body),
    ) in
    let (chunks, r, cuts) =
      write_body_lem fuel (buffer ++ frame) channel frame_max (drop n body) less h hi in
    (
      chunk ∷ chunks,
      rw
          (
            e,
            write_chunk_lem buffer channel chunk (omega arith),
            sym (append_assoc buffer frame (encode_chunks channel chunks)),
          )
          r,
      (
        ap (λ (l : List ℕ). chunk ++ l) cuts.0 ∙ take-drop n body,
        ((omega arith, omega arith), cuts.1),
      ),
    )

-- With frame_max at least 9 and below 2 ^ 32, and with the payloads of the method and of the
-- header below 2 ^ 32 bytes, writing a publish combination into an empty buffer returns, and hands
-- over the method frame, the header frame and body frames whose payloads are nonempty, put
-- together are the body, and leave each frame at most frame_max bytes long.
pub write_frame-publish :
    (channel frame_max : ℕ) (p : Publish) (h : ContentHeader) (b : ContentBody)
    → 9 ≤ frame_max
    → frame_max < 2 ^ 32
    → length (ser_frame (method (publish p))) < 2 ^ 32
    → length (ser_frame (content_header h)) < 2 ^ 32
    → (chunks : List (List ℕ)) × (write_frame [] channel (publish_combo p h b) frame_max
        ≡ ok (
            (encode channel (method (publish p)) ++ encode channel (content_header h))
            ++ encode_chunks channel chunks))
      × Cuts frame_max b.inner chunks
unfolding write_frame serialize_content_body_into_buffer
write_frame-publish channel frame_max p h b lo hi hp hh =
    let first : List ℕ = encode channel (method (publish p)) in
    let (chunks, e, cuts) =
      write_body_lem (1 + length b.inner) (first ++ encode channel (content_header h)) channel
        frame_max b.inner (omega arith) lo hi in
    (
      chunks,
      rw
          (
            serialize_frame_into_buffer_lem [] channel (method (publish p)) hp,
            serialize_frame_into_buffer_lem first channel (content_header h) hh,
          )
          e,
      cuts,
    )

write_body_step :
    (fuel : ℕ) (buffer : List ℕ) (channel frame_max b n : ℕ) (bs : List ℕ)
    → chunk_size frame_max (length (b ∷ bs)) ≡ ok n
    → length (take n (b ∷ bs)) < 2 ^ 32
    → write_body (suc fuel) buffer channel frame_max (b ∷ bs)
      ≡ write_body fuel
          (buffer ++ encode channel (content_body (record { inner = take n (b ∷ bs) })))
          channel
          frame_max
          (drop n (b ∷ bs))
unfolding write_body
write_body_step fuel buffer channel frame_max b n bs e h =
    rw (e, write_chunk_lem buffer channel (take n (b ∷ bs)) h) refl

no_room : (n : ℕ) → chunk_size 8 (suc n) ≡ ok 0
unfolding chunk_size
no_room n = ground arith

empty_frames :
    (fuel : ℕ) (buffer : List ℕ) (channel b : ℕ) (bs : List ℕ)
    → write_body fuel buffer channel 8 (b ∷ bs) ≡ stuck
unfolding write_body
empty_frames zero buffer channel b bs = refl
empty_frames (suc fuel) buffer channel b bs =
    write_body_step fuel buffer channel 8 b 0 bs (no_room (length bs)) (omega arith)
    ∙ empty_frames fuel (buffer ++ encode channel (content_body (record { inner = [] }))) channel b
        bs

-- With frame_max below 8 the loop over a nonempty body panics in its first round, and with
-- frame_max 8 it does not end, whatever the fuel.
pub write_body-small_frame :
    (fuel : ℕ) (buffer : List ℕ) (channel b : ℕ) (bs : List ℕ)
    → ((frame_max : ℕ)
        → frame_max < 8
        → write_body (suc fuel) buffer channel frame_max (b ∷ bs) ≡ panic)
      × (write_body fuel buffer channel 8 (b ∷ bs) ≡ stuck)
unfolding write_body chunk_size
write_body-small_frame fuel buffer channel b bs = (
  (λ frame_max h. let no_room : leb 8 frame_max ≡ false = ground arith in rw no_room refl),
  empty_frames fuel buffer channel b bs,
)
