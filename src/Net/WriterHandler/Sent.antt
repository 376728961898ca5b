-- ===== src/Net/WriterHandler/Sent.antt =====
-- The frames that a message for the server becomes on the wire, as write_frame of
-- amqprs/src/net/split_connection.rs puts them there for the writer of writer_handler.rs.
use amqprs.Prelude.{
  ℕ, ◌^◌, ◌<◌, ◌≤◌, ◌≡◌, refl, sym, ap, ◌∙◌, List, [], ◌∷◌, ◌++◌, append-nil, append_assoc, length,
  arith, All,
}
use amqprs.Frame.Frames.{
  Frame, method, heart_beat, content_header, content_body, publish_combo, ser_frame,
}
use amqprs.Frame.Payload.{FrameFits}
use amqprs.Frame.Decode.{ok}
use amqprs.Frame.Stream.{encode}
use amqprs.Net.SplitConnection.{write_frame}
use amqprs.Net.SplitConnection.Writer.{
  serialize_frame_into_buffer_lem, encode_chunks, IsChunk, Cuts, write_frame-publish,
}
use amqprs.Serde.Ser.{serialize_bytes}
use amqprs.Frame.Methods

-- A frame on a channel that the wire has room for.
abbrev pub Fits : ℕ × Frame → Type 0
Fits c = (c.0 < 2 ^ 16) × FrameFits c.1 × (length (ser_frame c.1) < 2 ^ 32)

abbrev pub encode_all : List (ℕ × Frame) → List ℕ
encode_all [] = []
encode_all (c ∷ cs) = encode c.0 c.1 ++ encode_all cs

-- A message for the server that the wire has room for. Of a publication, its method and its header
-- fit, and a frame has room for a byte of the body at least.
abbrev pub Sendable : ℕ → ℕ → Frame → Type 0
Sendable frame_max channel (publish_combo p h b) =
    (9 ≤ frame_max)
    × (frame_max < 2 ^ 32)
    × Fits (channel, method (Methods.publish p))
    × Fits (channel, content_header h)
Sendable frame_max channel (method m) = Fits (channel, method m)
Sendable frame_max channel heart_beat = Fits (channel, heart_beat)
Sendable frame_max channel (content_header h) = Fits (channel, content_header h)
Sendable frame_max channel (content_body b) = Fits (channel, content_body b)

-- The frames of the parts of a body.
abbrev pub body_frames : ℕ → List (List ℕ) → List (ℕ × Frame)
body_frames channel [] = []
body_frames channel (chunk ∷ chunks) =
    (channel, content_body (record { inner = chunk })) ∷ body_frames channel chunks

-- The frames on the wire of a message for the server: itself, or, of a publication, its method, its
-- header, and the parts that its body is cut into.
abbrev pub IsSentAs : ℕ → ℕ → Frame → List (ℕ × Frame) → Type 0
IsSentAs frame_max channel (publish_combo p h b) cs =
    (chunks : List (List ℕ)) × Cuts frame_max b.inner chunks
    × (cs
        ≡ (channel, method (Methods.publish p))
          ∷ (channel, content_header h)
          ∷ body_frames channel chunks)
IsSentAs frame_max channel (method m) cs = cs ≡ (channel, method m) ∷ []
IsSentAs frame_max channel heart_beat cs = cs ≡ (channel, heart_beat) ∷ []
IsSentAs frame_max channel (content_header h) cs = cs ≡ (channel, content_header h) ∷ []
IsSentAs frame_max channel (content_body b) cs = cs ≡ (channel, content_body b) ∷ []

pub encode_all-append :
    (cs ds : List (ℕ × Frame)) → encode_all (cs ++ ds) ≡ encode_all cs ++ encode_all ds
encode_all-append [] ds = refl
encode_all-append (c ∷ cs) ds =
    ap (λ (l : List ℕ). encode c.0 c.1 ++ l) (encode_all-append cs ds)
    ∙ sym (append_assoc (encode c.0 c.1) (encode_all cs) (encode_all ds))

encode_all-body_frames :
    (channel : ℕ) (chunks : List (List ℕ))
    → encode_all (body_frames channel chunks) ≡ encode_chunks channel chunks
unfolding encode_chunks
encode_all-body_frames channel [] = refl
encode_all-body_frames channel (chunk ∷ chunks) =
    ap (λ (l : List ℕ). encode channel (content_body (record { inner = chunk })) ++ l)
      (encode_all-body_frames channel chunks)

body_frames-Fits :
    (channel frame_max : ℕ) (chunks : List (List ℕ))
    → channel < 2 ^ 16
    → frame_max < 2 ^ 32
    → All (IsChunk frame_max) chunks
    → All Fits (body_frames channel chunks)
unfolding ser_frame serialize_bytes
body_frames-Fits channel frame_max [] hc hi a = tt
body_frames-Fits channel frame_max (chunk ∷ chunks) hc hi a =
    ((hc, tt, omega (arith, a.0.1)), body_frames-Fits channel frame_max chunks hc hi a.1)

-- What the writer puts on the wire for one message.
pub record Written (channel frame_max : ℕ) (f : Frame) : Type 0 where
  pub frames : List (ℕ × Frame)
  pub bytes : write_frame [] channel f frame_max ≡ ok (encode_all frames)
  pub sent_as : IsSentAs frame_max channel f frames
  pub fit : All Fits frames

one_frame :
    (channel frame_max : ℕ) (f : Frame)
    → Fits (channel, f)
    → write_frame [] channel f frame_max ≡ ok (encode channel f)
    → IsSentAs frame_max channel f ((channel, f) ∷ [])
    → Written channel frame_max f
one_frame channel frame_max f fits e s = record {
  frames = (channel, f) ∷ [];
  bytes = e ∙ ap (λ (l : List ℕ). ok l) (sym (append-nil (encode channel f)));
  sent_as = s;
  fit = (fits, tt);
}

pub write_frame-Written :
    (channel : ℕ) (f : Frame) (frame_max : ℕ)
    → Sendable frame_max channel f
    → Written channel frame_max f
unfolding write_frame
write_frame-Written channel (method m) frame_max s =
    one_frame channel frame_max (method m) s
      (rw (serialize_frame_into_buffer_lem [] channel (method m) s.2) refl) refl
write_frame-Written channel heart_beat frame_max s =
    one_frame channel frame_max heart_beat s
      (rw (serialize_frame_into_buffer_lem [] channel heart_beat s.2) refl) refl
write_frame-Written channel (content_header c) frame_max s =
    one_frame channel frame_max (content_header c) s
      (rw (serialize_frame_into_buffer_lem [] channel (content_header c) s.2) refl) refl
write_frame-Written channel (content_body b) frame_max s =
    one_frame channel frame_max (content_body b) s
      (rw (serialize_frame_into_buffer_lem [] channel (content_body b) s.2) refl) refl
write_frame-Written channel (publish_combo p h b) frame_max s =
    let (lo, hi, fp, fh) = s in
    let (chunks, e, cuts) = write_frame-publish channel frame_max p h b lo hi fp.2 fh.2 in
    let first = encode channel (method (Methods.publish p)) in
    let second = encode channel (content_header h) in
    record {
      frames =
          (channel, method (Methods.publish p))
          ∷ (channel, content_header h)
          ∷ body_frames channel chunks;
      bytes =
          e
          ∙ ap (λ (l : List ℕ). ok l)
              (append_assoc first second (encode_chunks channel chunks)
                ∙ ap (λ (l : List ℕ). first ++ (second ++ l))
                    (sym (encode_all-body_frames channel chunks)));
      sent_as = (chunks, cuts, refl);
      fit = (fp, (fh, body_frames-Fits channel frame_max chunks fp.0 hi cuts.1));
    }
