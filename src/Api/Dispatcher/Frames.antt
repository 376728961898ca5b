-- ===== src/Api/Dispatcher/Frames.antt =====
-- The frames that the dispatcher of a channel takes, in amqprs/src/api/channel/dispatcher.rs: the
-- starts of contents, the responses to requests, and the requests of the server.
use amqprs.Prelude.{
  ℕ, Bool, false, List, [], ◌∷◌, ◌++◌, Option, none, some, Outcome, done, panic, ◌>>=◌, ◌>>◌,
  assert, unwrap, if◌then◌else◌, bytes_eq,
}
use amqprs.Prelude.Map.{lookup, remove}
use amqprs.Serde.Types.{short_str}
use amqprs.Frame.MethodHeader.{header_eq}
use amqprs.Frame.Method.Channel.{Flow, CloseChannel}
use amqprs.Frame.Method.Basic.{Return, Deliver, Cancel, GetOk, GetEmpty, Ack, Nack}
use amqprs.Frame.Frames.{Frame, method, heart_beat, content_header, content_body, publish_combo}
use amqprs.Frame.Methods.{Method, method_header}
use amqprs.Frame.Methods
use amqprs.Api.Dispatcher.{
  Peers, deliver, get_ok, get_empty, return, ChannelDispatcher, Output, to_responder, to_server,
  call_close, call_flow, call_cancel, call_publish_ack, call_publish_nack,
}
use amqprs.Api.Dispatcher.Contents.{
  send_getter, header_deliver, header_get_ok, header_return, body_deliver, body_get_ok, body_return,
  handle_content_header, handle_content_body,
}
use amqprs.Api.Dispatcher.Consumers.{remove_consumer_resource}

-- Whether the loop goes on.
pub data Next : Type 0 where
  proceed : Next
  exit : Next

-- The state behind a frame, what was done, and whether the loop goes on.
abbrev pub Handled : Peers → Type 0
Handled P = Outcome (ChannelDispatcher P × List (Output P) × Next)

-- The arms of the match on a method.
pub data Role : Type 0 where
  closed : Role
  closing : CloseChannel → Role
  starts_get_empty : GetEmpty → Role
  starts_get_ok : GetOk → Role
  starts_return : Return → Role
  starts_deliver : Deliver → Role
  response : Role
  asks_flow : Flow → Role
  asks_cancel : Cancel → Role
  confirms : Ack → Role
  rejects : Nack → Role
  unexpected : Role

unfoldable pub role : Method → Role
role (Methods.close_channel_ok _) = closed
role (Methods.close_channel m) = closing m
role (Methods.get_empty m) = starts_get_empty m
role (Methods.get_ok m) = starts_get_ok m
role (Methods.return m) = starts_return m
role (Methods.deliver m) = starts_deliver m
role (Methods.flow_ok _) = response
role (Methods.declare_ok _) = response
role (Methods.delete_ok _) = response
role (Methods.bind_ok _) = response
role (Methods.unbind_ok _) = response
role (Methods.declare_queue_ok _) = response
role (Methods.delete_queue_ok _) = response
role (Methods.bind_queue_ok _) = response
role (Methods.purge_queue_ok _) = response
role (Methods.unbind_queue_ok _) = response
role (Methods.qos_ok _) = response
role (Methods.consume_ok _) = response
role (Methods.cancel_ok _) = response
role (Methods.recover_ok _) = response
role (Methods.select_ok _) = response
role (Methods.tx_select_ok _) = response
role (Methods.tx_commit_ok _) = response
role (Methods.tx_rollback_ok _) = response
role (Methods.flow m) = asks_flow m
role (Methods.cancel m) = asks_cancel m
role (Methods.ack m) = confirms m
role (Methods.nack m) = rejects m
role _ = unexpected

module _ {P : Peers} where
  abbrev pub goes_on : Outcome (ChannelDispatcher P × List (Output P)) → Handled P
  goes_on o = o >>= λ (d, out). done (d, out, proceed)

  -- A response that the waiting call does not take any more is only logged.
  unfoldable pub handle_response : Method → ChannelDispatcher P → Handled P
  handle_response m d = do
    responder ← unwrap (lookup (method_header m) d.responders)
    done (
      record d { responders = remove (method_header m) d.responders },
      to_responder responder (method m) ∷ [],
      proceed,
    )

  unfoldable pub handle_close_ok : ℕ → Method → ChannelDispatcher P → Handled P
  handle_close_ok now m d = do
    responder ← unwrap (lookup (method_header m) d.responders)
    assert (P.responder_open now responder)
    done (
      record d { is_open = false; responders = remove (method_header m) d.responders },
      to_responder responder (method m) ∷ [],
      exit,
    )

  -- `outgoing_tx.send(..).await.unwrap()`.
  abbrev pub send_server : ℕ → Frame → Outcome (List (Output P))
  send_server now frame = do assert (P.outgoing_open now); done (to_server frame ∷ [])

  abbrev pub respond_close : ℕ → List (Output P) → ChannelDispatcher P → Handled P
  respond_close now out d = do
    sent ← send_server now (method (Methods.close_channel_ok (record {})))
    done (record d { is_open = false }, out ++ sent, exit)

  unfoldable pub handle_close :
      ℕ → Option P.Callback → CloseChannel → ChannelDispatcher P → Handled P
  handle_close now none m d = respond_close now [] d
  handle_close now (some cb) m d =
      if P.close_result now cb m
      then respond_close now (call_close cb m ∷ []) d
      else done (d, call_close cb m ∷ [], exit)

  abbrev pub flow_answer :
      ℕ
      → Option Bool
      → List (Output P)
      → ChannelDispatcher P
      → Outcome (ChannelDispatcher P × List (Output P))
  flow_answer now none out d = done (d, out)
  flow_answer now (some active) out d = do
    sent ← send_server now (method (Methods.flow_ok (record { active = active })))
    done (d, out ++ sent)

  unfoldable pub handle_flow :
      ℕ
      → Option P.Callback
      → Flow
      → ChannelDispatcher P
      → Outcome (ChannelDispatcher P × List (Output P))
  handle_flow now none m d = done (d, [])
  handle_flow now (some cb) m d =
      flow_answer now (P.flow_result now cb m.active) (call_flow cb m.active ∷ []) d

  abbrev pub cancel_answer :
      ℕ
      → Cancel
      → List (Output P)
      → ChannelDispatcher P
      → Outcome (ChannelDispatcher P × List (Output P))
  cancel_answer now m out d = do
    consumer_tag ← unwrap (short_str m.consumer_tag.text)
    sent ← send_server now (method (Methods.cancel_ok (record { consumer_tag = consumer_tag })))
    done (d, out ++ sent)

  unfoldable pub handle_cancel :
      ℕ
      → Option P.Callback
      → Cancel
      → ChannelDispatcher P
      → Outcome (ChannelDispatcher P × List (Output P))
  handle_cancel now none m d = done (d, [])
  handle_cancel now (some cb) m d =
      let removed = remove_consumer_resource m.consumer_tag.text d in
      if P.cancel_result now cb m
      then (if m.no_wait
          then done (removed, call_cancel cb m ∷ [])
          else cancel_answer now m (call_cancel cb m ∷ []) removed)
      else done (d, call_cancel cb m ∷ [])

  abbrev pub handle_ack : Option P.Callback → Ack → List (Output P)
  handle_ack none m = []
  handle_ack (some cb) m = call_publish_ack cb m ∷ []

  abbrev pub handle_nack : Option P.Callback → Nack → List (Output P)
  handle_nack none m = []
  handle_nack (some cb) m = call_publish_nack cb m ∷ []

  unfoldable pub handle_role : ℕ → Method → Role → ChannelDispatcher P → Handled P
  unfolding handle_close_ok handle_close handle_response handle_flow handle_cancel
  handle_role now m closed d = handle_close_ok now m d
  handle_role now m (closing c) d = handle_close now d.callback c d
  handle_role now m (starts_get_empty e) d = goes_on (
      send_getter now d.get_content_responder (method m) >>= λ sent.
      done (record d { state = get_empty; get_content_responder = none }, sent))
  handle_role now m (starts_get_ok g) d = goes_on (
      send_getter now d.get_content_responder (method m) >>= λ sent.
      done (record d { state = get_ok }, sent))
  handle_role now m (starts_return r) d = done (
    record d { state = return; return_buffer = record d.return_buffer { ret = some r } },
    [],
    proceed,
  )
  handle_role now m (starts_deliver e) d = done (
    record d { state = deliver; message_buffer = record d.message_buffer { deliver = some e } },
    [],
    proceed,
  )
  handle_role now m response d = handle_response m d
  handle_role now m (asks_flow f) d = goes_on (handle_flow now d.callback f d)
  handle_role now m (asks_cancel c) d = goes_on (handle_cancel now d.callback c d)
  handle_role now m (confirms a) d = done (d, handle_ack d.callback a, proceed)
  handle_role now m (rejects a) d = done (d, handle_nack d.callback a, proceed)
  handle_role now m unexpected d = panic

  unfoldable pub handle_frame : ℕ → Frame → ChannelDispatcher P → Handled P
  unfolding role handle_role header_deliver header_get_ok header_return body_deliver body_get_ok
      body_return
  handle_frame now (method m) d = handle_role now m (role m) d
  handle_frame now (content_header h) d = goes_on (handle_content_header now d.state h d)
  handle_frame now (content_body b) d = goes_on (handle_content_body now d.state b d)
  handle_frame now heart_beat d = panic
  handle_frame now (publish_combo p h b) d = panic
