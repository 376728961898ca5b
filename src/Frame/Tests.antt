-- ===== src/Frame/Tests.antt =====
-- The theorems on amqprs/src/frame at small frames.
use amqprs.Prelude.{
  ℕ, ◌≤◌, ◌<◌, ◌≡◌, refl, true, List, [], ◌∷◌, ◌++◌, none, some, panic, length, arith,
}
use amqprs.Prelude.Bytes.{to_be_bytes, from_be_bytes}
use amqprs.Prelude.Bits.{has}
use amqprs.Serde.Utf8.{from_utf8}
use amqprs.Serde.Ser.{serialize_u8, serialize_u16, serialize_u32}
use amqprs.Serde.De.{value_read, error_read, message, from_bytes, parse_u8, parse_u32}
use amqprs.Frame.Method.Connection.{tune_ok_wire}
use amqprs.Frame.Methods.{Method, tune_ok, method_header, ser_arguments, ArgumentsFit}
use amqprs.Frame.ContentHeader.{BasicProperties, basic_default}
use amqprs.Frame.ContentHeader.Setters.{Setter, build, set_content_type, set_persistence}
use amqprs.Frame.ContentHeader.Flags.{IsFlagged, Returns, basic_default-IsFlagged, build-IsFlagged}
use amqprs.Frame.ContentHeader.RoundTrip.{ContentsFit, number_set, from_bytes-ser_properties}
use amqprs.Frame.ContentHeader.Wires.{visit_seq, ser_properties}
use amqprs.Frame.Frames.{
  method, heart_beat, frame_header_wire, method_header_wire, ser_frame, get_frame_type,
}
use amqprs.Frame.Decode.{ok, panic, decode, decode_payload}
use amqprs.Frame.Stream.{encode, decode-encode, decode-incomplete}

abbrev tuned : Method
tuned = tune_ok (record { channel_max = 2047; frame_max = 131072; heartbeat = 60 })

tuned-Fits : ArgumentsFit tuned
unfolding tune_ok_wire
tuned-Fits = (omega arith, (omega arith, omega arith))

tuned-length : length (ser_frame (method tuned)) ≡ 12
unfolding ser_frame ser_arguments method_header method_header_wire tune_ok_wire serialize_u16
    serialize_u32 to_be_bytes
tuned-length = refl

decode-encode_example :
    decode (encode 0 (method tuned) ++ (1 ∷ 0 ∷ []))
    ≡ ok (some (length (encode 0 (method tuned)), 0, method tuned))
decode-encode_example =
    decode-encode 0 (method tuned) (1 ∷ 0 ∷ []) (omega arith) tuned-Fits
      (omega (arith, tuned-length))

-- A heartbeat without its last byte.
abbrev beat : List ℕ
beat = 8 ∷ 0 ∷ 0 ∷ 0 ∷ 0 ∷ 0 ∷ 0 ∷ []

beat_whole : beat ++ (206 ∷ []) ≡ encode 0 heart_beat
unfolding encode ser_frame get_frame_type frame_header_wire serialize_u8 serialize_u16 serialize_u32
    to_be_bytes
beat_whole = refl

beat-length : length (ser_frame heart_beat) ≡ 0
unfolding ser_frame
beat-length = refl

decode-incomplete_example : decode beat ≡ ok none
decode-incomplete_example =
    decode-incomplete 0 heart_beat beat (206 ∷ []) (omega arith) (omega (arith, beat-length))
      beat_whole (omega arith)

-- A method frame whose payload is shorter than a method header, in front of another frame: the slice
-- of the arguments is out of bounds, and `unreachable!` is reached.
short_method_panics :
    decode (1 ∷ 0 ∷ 0 ∷ 0 ∷ 0 ∷ 0 ∷ 0 ∷ 206 ∷ 8 ∷ 0 ∷ 0 ∷ 0 ∷ 0 ∷ 0 ∷ 0 ∷ 206 ∷ []) ≡ panic
unfolding decode decode_payload from_bytes frame_header_wire parse_u8 parse_u32 from_be_bytes
    method_header_wire
short_method_panics = refl

-- "text/plain".
abbrev calls : List Setter
calls =
    set_content_type (116 ∷ 101 ∷ 120 ∷ 116 ∷ 47 ∷ 112 ∷ 108 ∷ 97 ∷ 105 ∷ 110 ∷ [])
    ∷ set_persistence true
    ∷ []

build-IsFlagged_example : Returns IsFlagged (build calls basic_default)
build-IsFlagged_example = build-IsFlagged calls basic_default basic_default-IsFlagged

abbrev sample : BasicProperties
sample = record basic_default {
  property_flags = (136, 0);
  content_type = some (record { len = 2; text = 111 ∷ 107 ∷ [] });
  priority = some 5;
}

sample-IsFlagged : IsFlagged sample
unfolding has
sample-IsFlagged = record {
  first_byte = omega arith;
  second_byte = omega arith;
  first_agrees = (refl, (refl, (refl, (refl, (refl, (refl, (refl, (refl, tt))))))));
  second_agrees = (refl, (refl, (refl, (refl, (refl, (refl, tt))))));
}

sample-Fits : ContentsFit sample
unfolding from_utf8
sample-Fits = record {
  content_type = record { counted = refl; fits = omega arith; utf8 = refl };
  content_encoding = tt;
  headers = tt;
  delivery_mode = tt;
  priority = omega arith;
  correlation_id = tt;
  reply_to = tt;
  expiration = tt;
  message_id = tt;
  timestamp = tt;
  message_type = tt;
  user_id = tt;
  app_id = tt;
  cluster_id = tt;
}

from_bytes-ser_properties_example :
    ((number_set sample ≤ 13) → from_bytes visit_seq (ser_properties sample) ≡ value_read sample)
    × ((13 < number_set sample) → from_bytes visit_seq (ser_properties sample) ≡ error_read message)
from_bytes-ser_properties_example = from_bytes-ser_properties sample sample-IsFlagged sample-Fits
