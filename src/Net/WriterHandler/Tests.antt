-- ===== src/Net/WriterHandler/Tests.antt =====
-- The theorem on amqprs/src/net/writer_handler.rs at a message, a publication and a heartbeat.
use amqprs.Prelude.{ℕ, ◌≡◌, refl, true, false, List, [], ◌∷◌, length, arith, All}
use amqprs.Prelude.Bytes.{to_be_bytes}
use amqprs.Serde.Utf8.{from_utf8}
use amqprs.Serde.Ser.{
  serialize_bytes, serialize_u8, serialize_u16, serialize_u64, ser_short_str, serialize_str,
}
use amqprs.Serde.Wire.{Wire}
use amqprs.Frame.Method.Basic.{Publish, publish_wire}
use amqprs.Frame.Methods
use amqprs.Frame.Methods.{method_header, ser_arguments}
use amqprs.Frame.ContentHeader.{ContentHeader, basic_default}
use amqprs.Frame.ContentHeader.Flags.{basic_default-IsFlagged}
use amqprs.Frame.ContentHeader.RoundTrip.{ContentsFit}
use amqprs.Frame.ContentHeader.Wires.{common_wire, ser_properties, properties, ser_option}
use amqprs.Frame.Frames.{
  Frame, method, content_header, content_body, publish_combo, ser_frame, method_header_wire,
}
use amqprs.Frame.Decode.{ok}
use amqprs.Net.SplitConnection.Reader.{flatten, IsPiece}
use amqprs.Net.WriterHandler.{Event, outgoing, timer, WriterHandler, run_until_shutdown}
use amqprs.Net.WriterHandler.Sent.{Sendable}
use amqprs.Net.WriterHandler.Order.{Sends, ReadsAll, run_until_shutdown-read}

abbrev body : Frame
body = content_body (record { inner = 5 ∷ 6 ∷ [] })

body-length : length (ser_frame body) ≡ 2
unfolding ser_frame serialize_bytes
body-length = refl

abbrev publication : Publish
publication = record {
  ticket = 0;
  exchange = record { len = 0; text = [] };
  routing_key = record { len = 1; text = 107 ∷ [] };
  bits = 0;
}

publication-length : length (ser_frame (method (Methods.publish publication))) ≡ 10
unfolding ser_frame ser_arguments method_header method_header_wire publish_wire ser_short_str
    serialize_str serialize_u8 serialize_u16 to_be_bytes
publication-length = refl

publication-Fits : Wire.Fits publish_wire publication
unfolding publish_wire from_utf8
publication-Fits = (
  omega arith,
  (
    record { counted = refl; fits = omega arith; utf8 = refl },
    (record { counted = refl; fits = omega arith; utf8 = refl }, omega arith),
  ),
)

-- The header of a body of three bytes.
abbrev header : ContentHeader
header = record {
  common = record { class = 60; weight = 0; body_size = 3 };
  basic_properties = basic_default;
}

header-length : length (ser_frame (content_header header)) ≡ 14
unfolding ser_frame common_wire ser_properties properties ser_option serialize_u8 serialize_u16
    serialize_u64 to_be_bytes
header-length = refl

common-Fits : Wire.Fits common_wire header.common
unfolding common_wire
common-Fits = (omega arith, (omega arith, omega arith))

default-ContentsFit : ContentsFit basic_default
default-ContentsFit = record {
  content_type = tt;
  content_encoding = tt;
  headers = tt;
  delivery_mode = tt;
  priority = tt;
  correlation_id = tt;
  reply_to = tt;
  expiration = tt;
  message_id = tt;
  timestamp = tt;
  message_type = tt;
  user_id = tt;
  app_id = tt;
  cluster_id = tt;
}

-- A body, a publication whose body takes two frames of 10 bytes, and a heartbeat.
abbrev events : List Event
events =
    outgoing 0 1 body true
    ∷ outgoing 5 1 (publish_combo publication header (record { inner = 1 ∷ 2 ∷ 3 ∷ [] })) true
    ∷ timer 60000 true
    ∷ []

publication-Sendable :
    Sendable 10 1 (publish_combo publication header (record { inner = 1 ∷ 2 ∷ 3 ∷ [] }))
unfolding properties
publication-Sendable = (
  omega arith,
  omega arith,
  (omega arith, publication-Fits, omega (arith, publication-length)),
  (
    omega arith,
    (common-Fits, basic_default-IsFlagged, default-ContentsFit, omega arith),
    omega (arith, header-length),
  ),
)

run_until_shutdown-read_example :
    (last : WriterHandler) × (frames : List (ℕ × Frame)) × (run_until_shutdown 0 60 10 events
      ≡ ok (record { last = last; exited = false }))
    × Sends 10 events frames
    × ((pieces : List (List ℕ))
        → All IsPiece pieces
        → flatten pieces ≡ last.written
        → ReadsAll [] pieces frames)
run_until_shutdown-read_example = run_until_shutdown-read 0 60 10 events (
  ((omega arith, tt, omega (arith, body-length)), refl),
  ((publication-Sendable, refl), (refl, tt)),
)
