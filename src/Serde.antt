-- ===== src/Serde.antt =====
-- amqp_serde/src: the wire format of the AMQP types.
pub mod Utf8
pub mod Types
pub mod Ser
pub mod De
pub mod Parses
pub mod WellFormed
pub mod RoundTrip
pub mod Lengths
pub mod Total
pub mod Wire
mod Tests
pub mod Primitives
pub mod Entries
pub mod Takes
