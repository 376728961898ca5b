-- ===== src/Net.antt =====
-- amqprs/src/net: channel ids, channel resources and the handlers of the connection.
pub mod ChannelIdRepo
pub mod ChannelManager
pub mod SplitConnection
pub mod ReaderHandler
pub mod WriterHandler
