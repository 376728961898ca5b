-- ===== src/Net/SplitConnection/Tests.antt =====
-- The theorems on amqprs/src/net/split_connection.rs at small frames and pieces.
use amqprs.Prelude.{ℕ, ◌≡◌, refl, List, [], ◌∷◌, ◌++◌, length, arith, ◌==◌, if◌then◌else◌}
use amqprs.Prelude.Bytes.{to_be_bytes}
use amqprs.Serde.Types.{ShortStr}
use amqprs.Serde.Ser.{
  serialize_u8, serialize_u16, serialize_u32, serialize_u64, ser_short_str, serialize_str,
  serialize_bytes,
}
use amqprs.Frame.Method.Basic.{Publish, publish_wire}
use amqprs.Frame.Methods.{publish, method_header, ser_arguments}
use amqprs.Frame.ContentHeader.{ContentHeader, basic_default}
use amqprs.Frame.ContentHeader.Wires.{common_wire, ser_properties, properties, ser_option}
use amqprs.Frame.Frames.{
  Frame, method, content_header, content_body, publish_combo, frame_header_wire, method_header_wire,
  get_frame_type, ser_frame,
}
use amqprs.Frame.Decode.{ok}
use amqprs.Frame.Stream.{encode}
use amqprs.Net.SplitConnection.{peer_shutdown, interrupted, read_frame, write_frame}
use amqprs.Net.SplitConnection.Reader.{Reads, read_frame-Reads, read_frame-closed}
use amqprs.Net.SplitConnection.Reader
use amqprs.Net.SplitConnection.Writer.{encode_chunks, Cuts, write_frame-publish}

abbrev body : Frame
body = content_body (record { inner = 5 ∷ 6 ∷ [] })

body-length : length (ser_frame body) ≡ 2
unfolding ser_frame serialize_bytes
body-length = refl

-- The frame in two pieces, and the first byte of the next one.
abbrev first_piece : List ℕ
first_piece = 3 ∷ 0 ∷ 1 ∷ 0 ∷ []

abbrev second_piece : List ℕ
second_piece = 0 ∷ 0 ∷ 2 ∷ 5 ∷ 6 ∷ 206 ∷ 8 ∷ []

pieces_whole : Reader.flatten (first_piece ∷ second_piece ∷ []) ≡ encode 1 body ++ (8 ∷ [])
unfolding encode ser_frame get_frame_type frame_header_wire serialize_u8 serialize_u16 serialize_u32
    serialize_bytes to_be_bytes
pieces_whole = refl

read_frame-Reads_example : Reads (read_frame [] (first_piece ∷ second_piece ∷ [])) 1 body (8 ∷ [])
read_frame-Reads_example =
    read_frame-Reads 1 body (8 ∷ []) (omega arith) tt (omega (arith, body-length)) []
      (first_piece ∷ second_piece ∷ []) (omega arith, (omega arith, tt)) pieces_whole

first_part : first_piece ++ (0 ∷ 0 ∷ 2 ∷ 5 ∷ 6 ∷ 206 ∷ []) ≡ encode 1 body
unfolding encode ser_frame get_frame_type frame_header_wire serialize_u8 serialize_u16 serialize_u32
    serialize_bytes to_be_bytes
first_part = refl

read_frame-closed_example :
    read_frame first_piece ([] ∷ [])
    ≡ (if length first_piece == 0 then peer_shutdown else interrupted)
read_frame-closed_example =
    read_frame-closed 1 body [] (omega arith) tt (omega (arith, body-length)) first_piece
      (0 ∷ 0 ∷ 2 ∷ 5 ∷ 6 ∷ 206 ∷ []) [] first_part (omega arith)

abbrev name : ShortStr
name = record { len = 1; text = 107 ∷ [] }

abbrev message : Publish
message = record { ticket = 0; exchange = name; routing_key = name; bits = 0 }

abbrev head : ContentHeader
head = record {
  common = record { class = 60; weight = 0; body_size = 3 };
  basic_properties = basic_default;
}

message-length : length (ser_frame (method (publish message))) ≡ 11
unfolding ser_frame ser_arguments method_header method_header_wire publish_wire ser_short_str
    serialize_str serialize_u8 serialize_u16 to_be_bytes
message-length = refl

head-length : length (ser_frame (content_header head)) ≡ 14
unfolding ser_frame common_wire ser_properties properties ser_option serialize_u8 serialize_u16
    serialize_u64 to_be_bytes
head-length = refl

write_frame-publish_example :
    (chunks : List (List ℕ)) × (write_frame [] 1
        (publish_combo message head (record { inner = 1 ∷ 2 ∷ 3 ∷ [] }))
        10
      ≡ ok (
          (encode 1 (method (publish message)) ++ encode 1 (content_header head))
          ++ encode_chunks 1 chunks))
    × Cuts 10 (1 ∷ 2 ∷ 3 ∷ []) chunks
write_frame-publish_example =
    write_frame-publish 1 10 message head (record { inner = 1 ∷ 2 ∷ 3 ∷ [] }) (omega arith)
      (omega arith) (omega (arith, message-length)) (omega (arith, head-length))
