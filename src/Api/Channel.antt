-- ===== src/Api/Channel.antt =====
-- amqprs/src/api/channel/mod.rs: the requests of a channel, its flow, and how it is closed. The id of
-- the channel is the first argument, and its flag is that of the caller. Both of tx.rs and confim.rs,
-- whose calls have no arguments but one flag, are here too.
pub mod Answers
pub mod Exchange
pub mod Queue
pub mod Basic
pub mod Consume
pub mod Flags
pub mod Requests
pub mod Stages
pub mod Closing
pub mod Getting
pub mod Publishing
pub mod Consuming
mod Tests
use amqprs.Prelude.{ℕ, Bool, true, false, List, [], Option, none, some, unwrap, if◌then◌else◌}
use amqprs.Serde.Types.{ShortStr, short_str}
use amqprs.Frame.MethodHeader.{MethodHeader}
use amqprs.Frame.Methods
use amqprs.Frame.Methods.{Method}
use amqprs.Frame.Method.Channel.{CloseChannel}
use amqprs.Net.ReaderHandler.{Parties, deregister_channel_resource}
use amqprs.Api.Dispatcher.{Peers, register_oneshot_responder, register_channel_callback}
use amqprs.Api.Call.{
  Answer, Call, Caller, Attempt, returned, Error, channel_close_error, channel_use_error, World,
  ◌>>=◌, ◌>>◌, return, lift_outcome, send_command, send_management, send_method, await_ack,
  synchronous_request,
}
use amqprs.Api.Channel.Answers.{
  for_close_channel, for_flow, for_select, for_tx_select, for_tx_commit, for_tx_rollback,
}

-- `CloseChannel::default()`.
abbrev pub default_close : CloseChannel
default_close = record {
  reply_code = 200;
  reply_text = record { len = 0; text = [] };
  class_id = 0;
  method_id = 0;
}

module _ {P : Peers} {Q : Parties} where
  -- `try_into().unwrap()` of a name.
  abbrev pub short : List ℕ → Call P Q ShortStr
  short s = lift_outcome (unwrap (short_str s))

  unfoldable pub register_responder : MethodHeader → Call P Q P.Responder
  register_responder header w c =
      let responder = w.oneshot c.log in
      let acker = w.acker c.log in
      (send_command (register_oneshot_responder header responder acker)
          >> (λ w' c'. await_ack (w'.acknowledges c'.log acker) c')
          >> return responder)
        w c

  unfoldable pub request_with : {A : Type 0} → Error → ℕ → Method → Answer A → Call P Q A
  unfolding register_responder
  request_with e channel_id m answer = do
    responder ← register_responder answer.header
    synchronous_request channel_id m (λ w log. w.responds log responder) answer.expected e

  abbrev pub request : {A : Type 0} → ℕ → Method → Answer A → Call P Q A
  request channel_id m answer = request_with channel_use_error channel_id m answer

  abbrev pub requested : {A : Type 0} → ℕ → Method → Answer A → Call P Q (Option A)
  requested channel_id m answer = do a ← request channel_id m answer; return (some a)

  abbrev pub sent_only : {A : Type 0} → ℕ → Method → Call P Q (Option A)
  sent_only channel_id m = do send_method channel_id m; return none

  -- `if no_wait { send } else { request }`.
  abbrev pub send_or_request : {A : Type 0} → Bool → ℕ → Method → Answer A → Call P Q (Option A)
  send_or_request no_wait channel_id m answer =
      if no_wait then sent_only channel_id m else requested channel_id m answer

  abbrev pub ignore : {A : Type 0} → Call P Q A → Call P Q (Unit {0})
  ignore call = do a ← call; return tt

  unfoldable pub register_callback : P.Callback → Call P Q (Unit {0})
  register_callback cb = send_command (register_channel_callback cb)

  unfoldable pub flow : ℕ → Bool → Call P Q Bool
  unfolding request_with
  flow channel_id active = do
    flow_ok ← request channel_id (Methods.flow (record { active = active })) for_flow
    return flow_ok.active

  unfoldable pub confirm_select : ℕ → Bool → Call P Q (Unit {0})
  unfolding request_with
  confirm_select channel_id no_wait = ignore (
      send_or_request no_wait channel_id (Methods.select (record { no_wait = no_wait })) for_select)

  unfoldable pub tx_select : ℕ → Call P Q (Unit {0})
  unfolding request_with
  tx_select channel_id = ignore (request channel_id (Methods.tx_select (record {})) for_tx_select)

  unfoldable pub tx_commit : ℕ → Call P Q (Unit {0})
  unfolding request_with
  tx_commit channel_id = ignore (request channel_id (Methods.tx_commit (record {})) for_tx_commit)

  unfoldable pub tx_rollback : ℕ → Call P Q (Unit {0})
  unfolding request_with
  tx_rollback channel_id =
      ignore (request channel_id (Methods.tx_rollback (record {})) for_tx_rollback)

  unfoldable pub close_handshake : ℕ → Call P Q (Unit {0})
  unfolding request_with
  close_handshake channel_id = do
    closed ←
        request_with channel_close_error channel_id (Methods.close_channel default_close)
          for_close_channel
    send_management (deregister_channel_resource channel_id)

  -- `compare_exchange(true, false, ..)`, and what is done where it succeeds.
  abbrev pub if_open : Call P Q (Unit {0}) → Call P Q (Unit {0})
  if_open call w c = if c.is_open then call w (record c { is_open = false }) else returned tt c

  -- The first flag is that of the connection.
  unfoldable pub close : Bool → ℕ → Call P Q (Unit {0})
  unfolding close_handshake
  close is_connection_open channel_id w c =
      if is_connection_open then if_open (close_handshake channel_id) w c else returned tt c

  -- `drop` of the guard: the handshake runs as a task of its own, whose error is only logged.
  unfoldable pub drop_guard : ℕ → Call P Q (Unit {0})
  unfolding close_handshake
  drop_guard channel_id = if_open (close_handshake channel_id)
