-- ===== src/Api/Dispatcher.antt =====
-- amqprs/src/api/channel/dispatcher.rs and the messages and commands of amqprs/src/api/channel/mod.rs:
-- the state of the task that takes the frames of one channel. Channels of tokio, callbacks and the
-- clock are values of the interface `Peers`; what the task does to them is a list of outputs.
pub mod Consumers
pub mod Subscriber
pub mod Resources
pub mod Contents
pub mod Frames
pub mod Loop
pub mod Commands
pub mod Traffic
pub mod Delivery
pub mod Contiguous
pub mod Answers
pub mod Violations
pub mod Reachable
pub mod Whole
pub mod Responses
pub mod Published
mod Tests
use amqprs.Prelude.{ℕ, Bool, List, [], Option, none, some}
use amqprs.Frame.MethodHeader.{MethodHeader}
use amqprs.Frame.Method.Channel.{CloseChannel}
use amqprs.Frame.Method.Basic.{Return, Deliver, Cancel, Ack, Nack}
use amqprs.Frame.ContentHeader.{BasicProperties}
use amqprs.Frame.Frames.{Frame}

-- What the task meets outside of itself. The first number is the time of the call: a sender fails
-- from the time at which its receiving half is dropped, and a callback keeps a state of its own.
pub record Peers : Type 1 where
  pub ConsumerTx : Type 0
  pub GetTx : Type 0
  pub Responder : Type 0
  pub Acker : Type 0
  pub Callback : Type 0
  pub get_open : ℕ → GetTx → Bool
  pub responder_open : ℕ → Responder → Bool
  pub acker_open : ℕ → Acker → Bool
  pub outgoing_open : ℕ → Bool
  pub close_result : ℕ → Callback → CloseChannel → Bool
  pub flow_result : ℕ → Callback → Bool → Option Bool
  pub cancel_result : ℕ → Callback → Cancel → Bool

-- `remaining` is private in the source: the bytes that are still to come.
pub record ConsumerMessage : Type 0 where
  pub deliver : Option Deliver
  pub basic_properties : Option BasicProperties
  pub content : Option (List ℕ)
  pub remaining : ℕ

pub record ReturnMessage : Type 0 where
  pub ret : Option Return
  pub basic_properties : Option BasicProperties
  pub content : Option (List ℕ)
  pub remaining : ℕ

pub record GetOkMessage : Type 0 where
  pub content : Option (List ℕ)
  pub remaining : ℕ

pub data State : Type 0 where
  initial : State
  deliver : State
  get_ok : State
  get_empty : State
  return : State

pub record ConsumerResource (P : Peers) : Type 0 where
  pub fifo : List ConsumerMessage
  pub tx : Option P.ConsumerTx
  pub expiration : Option ℕ

-- The struct, the buffers that are local to its task, and the flag of the channel. The receiving
-- halves are the events of the loop.
pub record ChannelDispatcher (P : Peers) : Type 0 where
  pub consumer_resources : List (List ℕ × ConsumerResource P)
  pub get_content_responder : Option P.GetTx
  pub responders : List (MethodHeader × P.Responder)
  pub callback : Option P.Callback
  pub state : State
  pub message_buffer : ConsumerMessage
  pub return_buffer : ReturnMessage
  pub getok_content_buffer : GetOkMessage
  pub is_open : Bool

pub data DispatcherManagementCommand (P : Peers) : Type 0 where
  register_content_consumer : List ℕ → P.ConsumerTx → DispatcherManagementCommand P
  deregister_content_consumer : List ℕ → DispatcherManagementCommand P
  register_get_content_responder : P.GetTx → DispatcherManagementCommand P
  register_oneshot_responder : MethodHeader → P.Responder → P.Acker → DispatcherManagementCommand P
  register_channel_callback : P.Callback → DispatcherManagementCommand P

-- A call of the task to the outside. A message for a consumer is handed to `send`, whose failure is
-- only logged.
pub data Output (P : Peers) : Type 0 where
  to_consumer : P.ConsumerTx → ConsumerMessage → Output P
  to_getter : P.GetTx → Frame → Output P
  to_responder : P.Responder → Frame → Output P
  to_acker : P.Acker → Output P
  to_server : Frame → Output P
  call_close : P.Callback → CloseChannel → Output P
  call_flow : P.Callback → Bool → Output P
  call_cancel : P.Callback → Cancel → Output P
  call_publish_return : P.Callback → Return → BasicProperties → List ℕ → Output P
  call_publish_ack : P.Callback → Ack → Output P
  call_publish_nack : P.Callback → Nack → Output P

-- A channel is open when its dispatcher is spawned.
unfoldable pub new : (P : Peers) → ChannelDispatcher P
new P = record {
  consumer_resources = [];
  get_content_responder = none;
  responders = [];
  callback = none;
  state = initial;
  message_buffer = record {
    deliver = none;
    basic_properties = none;
    content = none;
    remaining = 0;
  };
  return_buffer = record { ret = none; basic_properties = none; content = none; remaining = 0 };
  getok_content_buffer = record { content = none; remaining = 0 };
  is_open = Bool.true;
}
