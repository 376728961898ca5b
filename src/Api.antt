-- ===== src/Api.antt =====
-- amqprs/src/api: the tasks and the calls above the frames.
pub mod Dispatcher
pub mod Call
pub mod Channel
pub mod Security
pub mod Connection
