-- ===== src/Frame/Frames.antt =====
-- The enum `Frame` of amqprs/src/frame/mod.rs with its method variants put together, the frame header,
-- the constants that frames are made of, and what is written for the payload of a frame.
use amqprs.Prelude.{ℕ, refl, List, [], ◌++◌}
use amqprs.Serde.Ser.{serialize_bytes}
use amqprs.Serde.Wire
use amqprs.Serde.Wire.{Wire, ◌then◌, struct}
use amqprs.Frame.MethodHeader.{MethodHeader}
use amqprs.Frame.Method.Basic.{Publish, publish_wire}
use amqprs.Frame.Methods.{Method, method_header, ser_arguments}
use amqprs.Frame.ContentHeader.{ContentHeader}
use amqprs.Frame.ContentHeader.Wires.{common_wire, ser_properties}

abbrev pub frame_header_size : ℕ
frame_header_size = 7

abbrev pub frame_method : ℕ
frame_method = 1

abbrev pub frame_content_header : ℕ
frame_content_header = 2

abbrev pub frame_content_body : ℕ
frame_content_body = 3

abbrev pub frame_heartbeat : ℕ
frame_heartbeat = 8

abbrev pub frame_end : ℕ
frame_end = 206

pub record ContentBody : Type 0 where
  pub inner : List ℕ

-- A method variant keeps its header beside its arguments: it is the header of the method.
pub data Frame : Type 0 where
  method : Method → Frame
  heart_beat : Frame
  content_header : ContentHeader → Frame
  content_body : ContentBody → Frame
  publish_combo : Publish → ContentHeader → ContentBody → Frame

unfoldable pub get_frame_type : Frame → ℕ
get_frame_type heart_beat = frame_heartbeat
get_frame_type (content_header h) = frame_content_header
get_frame_type (content_body b) = frame_content_body
get_frame_type (method m) = frame_method
get_frame_type (publish_combo p h b) = frame_method

pub record FrameHeader : Type 0 where
  pub frame_type : ℕ
  pub channel : ℕ
  pub payload_size : ℕ

unfoldable pub frame_header_wire : Wire FrameHeader
frame_header_wire =
    struct (Wire.octect then Wire.short_uint then Wire.long_uint)
      (λ a. (a.frame_type, (a.channel, a.payload_size)))
      (λ b. record { frame_type = b.0; channel = b.1.0; payload_size = b.1.1 }) (λ a. refl)

unfoldable pub method_header_wire : Wire MethodHeader
method_header_wire =
    struct (Wire.short_uint then Wire.short_uint) (λ a. (a.class_id, a.method_id))
      (λ b. record { class_id = b.0; method_id = b.1 }) (λ a. refl)

unfoldable pub ser_content_header : ContentHeader → List ℕ
ser_content_header h = Wire.ser common_wire h.common ++ ser_properties h.basic_properties

-- The derived `Serialize` of an untagged enum: the fields of the variant in a row.
unfoldable pub ser_frame : Frame → List ℕ
unfolding ser_content_header
ser_frame (method m) = Wire.ser method_header_wire (method_header m) ++ ser_arguments m
ser_frame heart_beat = []
ser_frame (content_header h) = ser_content_header h
ser_frame (content_body b) = serialize_bytes b.inner
ser_frame (publish_combo p h b) =
    Wire.ser publish_wire p ++ (ser_content_header h ++ serialize_bytes b.inner)
