-- ===== src/Api/Connection/Calls.antt =====
-- The calls of a connection in amqprs/src/api/connection.rs once it is open: channels are opened, the
-- connection is closed, by the call and by the guard that is dropped, and the server is told that it
-- is blocked.
mod Tests
use amqprs.Prelude.{
  ℕ, Bool, true, false, List, [], Option, none, some, not, ◌==◌, unwrap, assert, if◌then◌else◌,
}
use amqprs.Serde.Types.{short_str}
use amqprs.Frame.MethodHeader.{MethodHeader}
use amqprs.Frame.Method.Connection.{Close}
use amqprs.Frame.Method.Channel.{OpenChannel}
use amqprs.Frame.Methods
use amqprs.Net.ChannelManager.{ChannelResource, new_resource}
use amqprs.Net.ReaderHandler.{
  Parties, register_channel_resource, register_responder, register_connection_callback,
}
use amqprs.Net.ReaderHandler.Frames.{default_conn_channel}
use amqprs.Api.Dispatcher.{Peers}
use amqprs.Api.Call.{
  Call, Caller, Attempt, returned, failed, waits, panics, Error, connection_close_error,
  channel_open_error, World, Receipt, arrives, dropped, pending, managed, acknowledged, dispatching,
  record_effect, ◌>>=◌, ◌>>◌, return, lift_outcome, send_management, send_method, await_ack,
  synchronous_request,
}
use amqprs.Api.Channel.{if_open}
use amqprs.Api.Channel.Answers.{for_open_channel, for_close}

-- `Close::default()` and `OpenChannel::new()`.
abbrev pub default_close_connection : Close
default_close_connection = record {
  reply_code = 200;
  reply_text = record { len = 0; text = [] };
  class_id = 0;
  method_id = 0;
}

abbrev pub new_open_channel : OpenChannel
new_open_channel = record { out_of_band = record { len = 0; text = [] } }

-- Whether the id is that of the connection.
abbrev pub is_default : Option ℕ → Bool
is_default none = false
is_default (some id) = id == default_conn_channel

module _ {P : Peers} {Q : Parties} where
  -- An acknowledgement without an id, or none at all, is `None`.
  abbrev pub id_granted : Receipt (Option ℕ) → Caller P Q → Attempt P Q (Option ℕ)
  id_granted (arrives id) c = returned id c
  id_granted dropped c = returned none c
  id_granted pending c = waits c

  unfoldable pub register_resource :
      Option ℕ → ChannelResource Q.Responder Q.Dispatcher → Call P Q (Option ℕ)
  register_resource channel_id resource w c =
      let acker = w.conn_acker c.log in
      let command = register_channel_resource channel_id acker resource in
      let c' = record_effect (managed command) c in
      if w.takes_management c.log then id_granted (w.grants_id c'.log acker) c' else returned none c

  unfoldable pub register_conn_responder : ℕ → MethodHeader → Call P Q Q.Responder
  register_conn_responder channel_id header w c =
      let responder = w.conn_oneshot c.log in
      let acker = w.conn_acker c.log in
      (send_management (register_responder channel_id header responder acker)
          >> (λ w' c'. await_ack (w'.conn_acknowledges c'.log acker) c')
          >> return responder)
        w c

  abbrev pub or_open_error : Option ℕ → Call P Q ℕ
  or_open_error none w c = failed channel_open_error c
  or_open_error (some id) w c = returned id c

  -- The channel is known by its id; its dispatcher is spawned at the end.
  unfoldable pub open_channel : Option ℕ → Call P Q ℕ
  unfolding register_resource register_conn_responder new_resource
  open_channel asked = do
    lift_outcome (assert (not (is_default asked)))
    dispatcher ← (λ w c. returned (w.dispatcher c.log) c)
    granted ← register_resource asked (new_resource (some dispatcher))
    channel_id ← or_open_error granted
    responder ← register_conn_responder channel_id for_open_channel.header
    opened ←
        synchronous_request channel_id (Methods.open_channel new_open_channel)
          (λ w log. w.conn_responds log responder) for_open_channel.expected channel_open_error
    (λ w c. returned tt (record_effect (dispatching channel_id) c))
    return channel_id

  -- `map_err` of the registration.
  abbrev pub as_close_error : {A : Type 0} → Attempt P Q A → Attempt P Q A
  as_close_error (returned a c) = returned a c
  as_close_error (failed e c) = failed connection_close_error c
  as_close_error (waits c) = waits c
  as_close_error (panics c) = panics c

  unfoldable pub close_connection_handshake : Call P Q (Unit {0})
  unfolding register_conn_responder
  close_connection_handshake = do
    responder ←
        (λ w c. as_close_error (register_conn_responder default_conn_channel for_close.header w c))
    closed ←
        synchronous_request default_conn_channel (Methods.close default_close_connection)
          (λ w log. w.conn_responds log responder) for_close.expected connection_close_error
    return tt

  unfoldable pub close_connection : Call P Q (Unit {0})
  unfolding close_connection_handshake
  close_connection = if_open close_connection_handshake

  -- The close of the guard is sent by a task of its own, which waits for nothing.
  unfoldable pub drop_connection_guard : Call P Q (Unit {0})
  drop_connection_guard =
      if_open (send_method default_conn_channel (Methods.close default_close_connection))

  unfoldable pub blocked : List ℕ → Call P Q (Unit {0})
  blocked reason = do
    text ← lift_outcome (unwrap (short_str reason))
    send_method default_conn_channel (Methods.blocked (record { reason = text }))

  unfoldable pub unblocked : Call P Q (Unit {0})
  unblocked = send_method default_conn_channel (Methods.unblocked (record {}))

  unfoldable pub register_conn_callback : Q.Callback → Call P Q (Unit {0})
  register_conn_callback cb = send_management (register_connection_callback cb)
