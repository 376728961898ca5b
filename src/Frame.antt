-- ===== src/Frame.antt =====
-- amqprs/src/frame: the frames of the protocol.
pub mod MethodHeader
pub mod ContentHeader
pub mod Flags
pub mod Method
pub mod Methods
pub mod DecodeMethod
pub mod Frames
pub mod Decode
pub mod Payload
pub mod Stream
pub mod Short
pub mod HeaderFits
mod Tests
