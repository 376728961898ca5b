-- ===== src/Net/ReaderHandler.antt =====
-- amqprs/src/net/reader_handler.rs and the commands of amqprs/src/net/mod.rs: the task that reads the
-- frames of a connection. Channels of tokio, callbacks and the clock are values of the interface
-- `Parties`; what the task does to them is a list of outputs.
pub mod Frames
pub mod Loop
pub mod Reachable
pub mod Heartbeat
pub mod Arrivals
pub mod Channels
mod Tests
use amqprs.Prelude.{ℕ, Bool, true, List, Option, none}
use amqprs.Frame.MethodHeader.{MethodHeader}
use amqprs.Frame.Method.Connection.{Close}
use amqprs.Frame.Frames.{Frame}
use amqprs.Net.ChannelManager.{ChannelResource, ChannelManager}
use amqprs.Net.ChannelManager

-- What the task meets outside of itself. The first number is the time of the call: a sender fails
-- from the time at which its receiving half is dropped, and a callback keeps a state of its own.
pub record Parties : Type 1 where
  pub Responder : Type 0
  pub Dispatcher : Type 0
  pub Acker : Type 0
  pub Callback : Type 0
  pub responder_open : ℕ → Responder → Bool
  pub dispatcher_open : ℕ → Dispatcher → Bool
  pub acker_open : ℕ → Acker → Bool
  pub outgoing_open : ℕ → Bool
  pub close_result : ℕ → Callback → Close → Bool

abbrev pub Manager : Parties → Type 0
Manager P = ChannelManager P.Responder P.Dispatcher

-- The flag of the connection with what the task changes. The stream is the events of the loop, and
-- the sender of the shutdown notification is the end of its run.
pub record ReaderHandler (P : Parties) : Type 0 where
  pub is_open : Bool
  pub callback : Option P.Callback
  pub channel_manager : Manager P

unfoldable pub new : (P : Parties) → ℕ → ReaderHandler P
new P channel_max = record {
  is_open = true;
  callback = none;
  channel_manager = ChannelManager.new channel_max;
}

pub data ConnManagementCommand (P : Parties) : Type 0 where
  register_channel_resource :
      Option ℕ → P.Acker → ChannelResource P.Responder P.Dispatcher → ConnManagementCommand P
  deregister_channel_resource : ℕ → ConnManagementCommand P
  register_responder : ℕ → MethodHeader → P.Responder → P.Acker → ConnManagementCommand P
  register_connection_callback : P.Callback → ConnManagementCommand P

-- A call of the task to the outside.
pub data Output (P : Parties) : Type 0 where
  to_responder : P.Responder → Frame → Output P
  to_dispatcher : P.Dispatcher → Frame → Output P
  to_server : ℕ → Frame → Output P
  to_acker : P.Acker → Output P
  to_acker_id : P.Acker → Option ℕ → Output P
  call_close : P.Callback → Close → Output P
  call_blocked : P.Callback → List ℕ → Output P
  call_unblocked : P.Callback → Output P
