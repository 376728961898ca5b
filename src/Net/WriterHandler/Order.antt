-- ===== src/Net/WriterHandler/Order.antt =====
-- The frames that the writer of amqprs/src/net/writer_handler.rs puts on the wire, and what the reader
-- of amqprs/src/net/split_connection.rs takes off it.
use amqprs.Prelude.{
  ℕ, ◌/◌, ◌≡◌, refl, sym, ap, ◌∙◌, Bool, true, false, Bool-cases, inl, inr, List, [], ◌∷◌, ◌++◌,
  append-nil, append_assoc, length, leb, arith, All, All-append,
}
use amqprs.Frame.Frames.{Frame, heart_beat, ser_frame}
use amqprs.Frame.Decode.{ok}
use amqprs.Net.SplitConnection.{frame_read, read_frame}
use amqprs.Net.SplitConnection.Reader.{flatten, IsPiece, read_frame-Reads}
use amqprs.Net.ReaderHandler.Frames.{default_conn_channel}
use amqprs.Net.WriterHandler.{
  Event, outgoing, outgoing_end, timer, shutdown, WriterHandler, wrote, step, run,
  run_until_shutdown, deadline,
}
use amqprs.Net.WriterHandler.Sent.{
  Fits, encode_all, Sendable, IsSentAs, encode_all-append, write_frame-Written,
}

-- An event that the socket takes, and that does not end the loop.
abbrev pub Goes : ℕ → Event → Type 0
Goes frame_max (outgoing now channel_id frame io) =
    Sendable frame_max channel_id frame × (io ≡ true)
Goes frame_max (timer now io) = io ≡ true
Goes frame_max outgoing_end = ⊥
Goes frame_max shutdown = ⊥

-- The frames are those of the events in their order, with heartbeats between them where the timer
-- ended.
pub data Sends (frame_max : ℕ) : List Event → List (ℕ × Frame) → Type 0 where
  nothing : Sends frame_max [] []
  sends :
      {es : List Event} {ds : List (ℕ × Frame)} (now channel_id : ℕ) (frame : Frame) (io : Bool)
      (cs : List (ℕ × Frame))
      → IsSentAs frame_max channel_id frame cs
      → Sends frame_max es ds
      → Sends frame_max (outgoing now channel_id frame io ∷ es) (cs ++ ds)
  beats :
      {es : List Event} {cs : List (ℕ × Frame)} (now : ℕ) (io : Bool)
      → Sends frame_max es cs
      → Sends frame_max (timer now io ∷ es) ((default_conn_channel, heart_beat) ∷ cs)
  early :
      {es : List Event} {cs : List (ℕ × Frame)} (now : ℕ) (io : Bool)
      → Sends frame_max es cs
      → Sends frame_max (timer now io ∷ es) cs

beat_size : length (ser_frame heart_beat) ≡ 0
unfolding ser_frame
beat_size = refl

-- What a run over events that go on has done.
pub record Writes (interval frame_max : ℕ) (es : List Event) (w : WriterHandler) : Type 0 where
  pub last : WriterHandler
  pub frames : List (ℕ × Frame)
  pub result : run interval frame_max es w ≡ ok (record { last = last; exited = false })
  pub bytes : last.written ≡ w.written ++ encode_all frames
  pub in_order : Sends frame_max es frames
  pub fit : All Fits frames

written :
    (interval frame_max now : ℕ) (e : Event) (es : List Event) (w : WriterHandler)
    (cs : List (ℕ × Frame))
    → All Fits cs
    → step interval frame_max e w ≡ ok (wrote true (encode_all cs) (deadline now interval) w)
    → ((ds : List (ℕ × Frame)) → Sends frame_max es ds → Sends frame_max (e ∷ es) (cs ++ ds))
    → Writes interval frame_max es
        (record w { expiration = deadline now interval; written = w.written ++ encode_all cs })
    → Writes interval frame_max (e ∷ es) w
unfolding run
written interval frame_max now e es w cs fits p cons rest = record {
  last = rest.last;
  frames = cs ++ rest.frames;
  result = rw (p, rest.result) refl;
  bytes =
      rest.bytes
      ∙ append_assoc w.written (encode_all cs) (encode_all rest.frames)
      ∙ ap (λ (l : List ℕ). w.written ++ l) (sym (encode_all-append cs rest.frames));
  in_order = cons rest.frames rest.in_order;
  fit = All-append Fits cs rest.frames fits rest.fit;
}

-- Where the socket takes all bytes and every message fits, the writer goes on, and the bytes on the
-- wire are those of the frames in their order, with heartbeats between them.
run-Writes :
    (interval frame_max : ℕ) (es : List Event) (w : WriterHandler)
    → All (Goes frame_max) es
    → Writes interval frame_max es w
unfolding run step
run-Writes interval frame_max [] w a = record {
  last = w;
  frames = [];
  result = refl;
  bytes = sym (append-nil w.written);
  in_order = nothing;
  fit = tt;
}
run-Writes interval frame_max (outgoing now channel_id frame io ∷ es) w a =
    let (sendable, taken) = a.0 in
    let one = write_frame-Written channel_id frame frame_max sendable in
    written interval frame_max now (outgoing now channel_id frame io) es w one.frames one.fit
      (rw (taken, one.bytes) refl) (λ ds s. sends now channel_id frame io one.frames one.sent_as s)
      (run-Writes interval frame_max es _ a.1)
run-Writes interval frame_max (timer now io ∷ es) w a = elim (Bool-cases (leb w.expiration now)) [
  | inl due ↦
      let fits : Fits (default_conn_channel, heart_beat) =
        (omega arith, tt, omega (arith, beat_size)) in
      let one = write_frame-Written default_conn_channel heart_beat frame_max fits in
      written interval frame_max now (timer now io) es w ((default_conn_channel, heart_beat) ∷ [])
        (fits, tt)
        (rw (due, a.0, one.bytes)
          (ap (λ (l : List (ℕ × Frame)). ok (wrote true (encode_all l) (deadline now interval) w))
            one.sent_as))
        (λ ds s. beats now io s) (run-Writes interval frame_max es _ a.1)
  | inr soon ↦
      let rest = run-Writes interval frame_max es w a.1 in
      record {
        last = rest.last;
        frames = rest.frames;
        result = rw (soon, rest.result) refl;
        bytes = rest.bytes;
        in_order = early now io rest.in_order;
        fit = rest.fit;
      }
]
run-Writes interval frame_max (outgoing_end ∷ es) w a = elim a.0 [ ]
run-Writes interval frame_max (shutdown ∷ es) w a = elim a.0 [ ]

-- Reading again and again gives these frames.
abbrev pub ReadsAll : List ℕ → List (List ℕ) → List (ℕ × Frame) → Type 0
ReadsAll buffer pieces [] = Unit {0}
ReadsAll buffer pieces (c ∷ cs) =
    (rest : List ℕ) × (others : List (List ℕ)) × (read_frame buffer pieces
      ≡ frame_read c.0 c.1 rest others)
    × ReadsAll rest others cs

reads_all :
    (cs : List (ℕ × Frame)) (buffer : List ℕ) (pieces : List (List ℕ))
    → All Fits cs
    → All IsPiece pieces
    → buffer ++ flatten pieces ≡ encode_all cs
    → ReadsAll buffer pieces cs
reads_all [] buffer pieces fits a e = tt
reads_all (c ∷ cs) buffer pieces fits a e =
    let (hc, w, hp) = fits.0 in
    let (rest, others, r, e', a') =
      read_frame-Reads c.0 c.1 (encode_all cs) hc w hp buffer pieces a e in
    (rest, others, r, reads_all cs rest others fits.1 a' e')

-- From the writer of one side to the reader of the other: where the socket takes all bytes and
-- every message can be sent, the writer goes on, and the peer that gets its bytes in any nonempty
-- pieces reads the frames of the messages in their order, with heartbeats between them at ends of
-- the timer only. A method, heartbeat, header or body is sent as itself; a publication as its
-- method, its header and the parts of its body, which are nonempty and fit frame_max. A message
-- can be sent if it is on a channel of 16 bits, its payloads are below 2 ^ 32 bytes, the arguments
-- of a method fit, and a header has contents that fit, flags that agree with them and at most
-- thirteen of the fourteen properties, and for a publication also if frame_max is at least 9 and
-- below 2 ^ 32.
pub run_until_shutdown-read :
    (now heartbeat frame_max : ℕ) (es : List Event)
    → All (Goes frame_max) es
    → (last : WriterHandler) × (frames : List (ℕ × Frame)) × (run_until_shutdown now heartbeat
          frame_max es
        ≡ ok (record { last = last; exited = false }))
      × Sends frame_max es frames
      × ((pieces : List (List ℕ))
          → All IsPiece pieces
          → flatten pieces ≡ last.written
          → ReadsAll [] pieces frames)
unfolding run_until_shutdown
run_until_shutdown-read now heartbeat frame_max es a =
    let w : WriterHandler = record {
      is_open = true;
      expiration = deadline now (heartbeat / 2);
      written = [];
    } in
    let o = run-Writes (heartbeat / 2) frame_max es w a in
    (
      o.last,
      o.frames,
      o.result,
      o.in_order,
      λ pieces nonempty e. reads_all o.frames [] pieces o.fit nonempty (e ∙ o.bytes),
    )
