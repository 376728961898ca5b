-- ===== src/Frame/Method.antt =====
-- amqprs/src/frame/method: the methods of the protocol's classes.
pub mod Connection
pub mod Channel
pub mod Exchange
pub mod Queue
pub mod Basic
pub mod Confirm
pub mod Tx
pub mod Setters
