-- ===== src/Api/Dispatcher/Reachable.antt =====
-- The invariant of the consumers in every state that a task of
-- amqprs/src/api/channel/dispatcher.rs reaches.
use amqprs.Prelude.{
  Keeps, stopped, kept, Keeps-bind, Keeps-if, keeps_done, ℕ, ◌≡◌, Bool, Option-cases, inl, inr,
  length, List, [], ◌∷◌, Option, none, some, Outcome, done, panic, ◌>>=◌, assert, unwrap, ◌==◌,
}
use amqprs.Frame.Method.Channel.{CloseChannel, Flow}
use amqprs.Frame.Method.Basic.{Cancel}
use amqprs.Prelude.Map.{lookup}
use amqprs.Serde.Types.{short_str}
use amqprs.Frame.MethodHeader.{header_eq}
use amqprs.Frame.Methods.{Method, method_header}
use amqprs.Frame.Methods
use amqprs.Frame.ContentHeader.{ContentHeader}
use amqprs.Frame.Frames.{
  method, heart_beat, content_header, content_body, publish_combo, ContentBody,
}
use amqprs.Api.Dispatcher.{
  Peers, ConsumerMessage, ChannelDispatcher, Output, call_close, call_flow, State, initial, deliver,
  get_ok, get_empty, return, new, DispatcherManagementCommand, register_content_consumer,
  deregister_content_consumer, register_get_content_responder, register_oneshot_responder,
  register_channel_callback,
}
use amqprs.Api.Dispatcher.Consumers.{forward_deliver}
use amqprs.Api.Dispatcher.Contents.{
  checked_sub, send_getter, header_deliver, header_get_ok, header_return, body_deliver, body_get_ok,
  body_return, handle_content_header, handle_content_body,
}
use amqprs.Api.Dispatcher.Frames.{
  Handled, Next, proceed, exit, send_server, respond_close, flow_answer, Role, closed, closing,
  starts_get_empty, starts_get_ok, starts_return, starts_deliver, response, asks_flow, asks_cancel,
  confirms, rejects, unexpected, goes_on, role, handle_response, handle_close_ok, handle_close,
  handle_flow, handle_cancel, handle_role, handle_frame,
}
use amqprs.Api.Dispatcher.Resources.{
  registered-Settled, Inv, remove-Inv, insert-Inv, purge-Inv, forward_deliver_lem,
}
use amqprs.Api.Dispatcher.Loop.{
  Event, command, frame, frames_end, purge_tick, Run, handle_command, after, step, run,
}

module _ {P : Peers} where
  abbrev OfCall : ChannelDispatcher P × List (Output P) → Type 0
  OfCall x = Inv x.0.consumer_resources

  abbrev OfStep : ChannelDispatcher P × List (Output P) × Next → Type 0
  OfStep x = Inv x.0.consumer_resources

  goes_on-Keeps :
      (o : Outcome (ChannelDispatcher P × List (Output P)))
      → Keeps OfCall o
      → Keeps OfStep (goes_on o)
  goes_on-Keeps panic h = stopped
  goes_on-Keeps (done x) (kept v) = kept v

  forward-Keeps :
      (now : ℕ) (x : ConsumerMessage) (d : ChannelDispatcher P)
      → Inv d.consumer_resources
      → Keeps OfCall (forward_deliver now x d)
  unfolding forward_deliver
  forward-Keeps now x d v = elim (Option-cases x.deliver) [
    | inl n ↦ rw n stopped
    | inr (m, n) ↦
        let (resources, out, e, v', _) = forward_deliver_lem now x m d n v in rw e (kept v')
  ]

  header-Keeps :
      (now : ℕ) (s : State) (h : ContentHeader) (d : ChannelDispatcher P)
      → Inv d.consumer_resources
      → Keeps OfCall (handle_content_header now s h d)
  unfolding header_deliver header_get_ok header_return
  header-Keeps now deliver h d v =
      Keeps-if (h.common.body_size == 0) (forward-Keeps now _ _ v) (kept v)
  header-Keeps now get_ok h d v =
      Keeps-bind _
        (λ sent. Keeps-if (h.common.body_size == 0) (Keeps-bind _ (λ empty. kept v)) (kept v))
  header-Keeps now return h d v =
      Keeps-if (h.common.body_size == 0) (Keeps-bind _ (λ ret. kept v)) (kept v)
  header-Keeps now initial h d v = stopped
  header-Keeps now get_empty h d v = stopped

  body-Keeps :
      (now : ℕ) (s : State) (b : ContentBody) (d : ChannelDispatcher P)
      → Inv d.consumer_resources
      → Keeps OfCall (handle_content_body now s b d)
  unfolding body_deliver body_get_ok body_return
  body-Keeps now deliver b d v = Keeps-bind (unwrap d.message_buffer.content) (λ content.
      Keeps-bind (checked_sub d.message_buffer.remaining (length b.inner))
        (λ left. Keeps-if (left == 0) (forward-Keeps now _ _ v) (kept v)))
  body-Keeps now get_ok b d v = Keeps-bind (unwrap d.getok_content_buffer.content) (λ content.
      Keeps-bind (checked_sub d.getok_content_buffer.remaining (length b.inner)) (λ left.
        Keeps-if (left == 0)
          (Keeps-bind (send_getter now d.get_content_responder _) (λ sent. kept v)) (kept v)))
  body-Keeps now return b d v = Keeps-bind (unwrap d.return_buffer.content) (λ content.
      Keeps-bind (checked_sub d.return_buffer.remaining (length b.inner)) (λ left.
        Keeps-if (left == 0)
          (Keeps-bind (unwrap d.return_buffer.ret)
            (λ ret. Keeps-bind (unwrap d.return_buffer.basic_properties) (λ props. kept v)))
          (kept v)))
  body-Keeps now initial b d v = stopped
  body-Keeps now get_empty b d v = stopped

  respond-Keeps :
      (now : ℕ) (out : List (Output P)) (d : ChannelDispatcher P)
      → Inv d.consumer_resources
      → Keeps OfStep (respond_close now out d)
  respond-Keeps now out d v =
      Keeps-bind (send_server {P = P} now (method (Methods.close_channel_ok (record {}))))
        (λ sent. kept v)

  close-Keeps :
      (now : ℕ) (o : Option P.Callback) (m : CloseChannel) (d : ChannelDispatcher P)
      → Inv d.consumer_resources
      → Keeps OfStep (handle_close now o m d)
  unfolding handle_close
  close-Keeps now none m d v = respond-Keeps now [] d v
  close-Keeps now (some cb) m d v =
      Keeps-if (P.close_result now cb m) (respond-Keeps now (call_close cb m ∷ []) d v) (kept v)

  answer-Keeps :
      (now : ℕ) (o : Option Bool) (out : List (Output P)) (d : ChannelDispatcher P)
      → Inv d.consumer_resources
      → Keeps OfCall (flow_answer now o out d)
  answer-Keeps now none out d v = kept v
  answer-Keeps now (some active) out d v =
      Keeps-bind (send_server {P = P} now (method (Methods.flow_ok (record { active = active }))))
        (λ sent. kept v)

  flow-Keeps :
      (now : ℕ) (o : Option P.Callback) (m : Flow) (d : ChannelDispatcher P)
      → Inv d.consumer_resources
      → Keeps OfCall (handle_flow now o m d)
  unfolding handle_flow
  flow-Keeps now none m d v = kept v
  flow-Keeps now (some cb) m d v =
      answer-Keeps now (P.flow_result now cb m.active) (call_flow cb m.active ∷ []) d v

  cancel-Keeps :
      (now : ℕ) (o : Option P.Callback) (m : Cancel) (d : ChannelDispatcher P)
      → Inv d.consumer_resources
      → Keeps OfCall (handle_cancel now o m d)
  unfolding handle_cancel
  cancel-Keeps now none m d v = kept v
  cancel-Keeps now (some cb) m d v =
      let removed = remove-Inv d.consumer_resources m.consumer_tag.text v in
      Keeps-if (P.cancel_result now cb m)
        (Keeps-if m.no_wait (kept removed) (
          Keeps-bind (unwrap (short_str m.consumer_tag.text)) (λ tag.
            Keeps-bind
              (send_server {P = P} now (method (Methods.cancel_ok (record { consumer_tag = tag }))))
              (λ sent. kept removed))))
        (kept v)

  role-Keeps :
      (now : ℕ) (m : Method) (r : Role) (d : ChannelDispatcher P)
      → Inv d.consumer_resources
      → Keeps OfStep (handle_role now m r d)
  unfolding handle_role handle_close_ok handle_response
  role-Keeps now m closed d v =
      Keeps-bind (unwrap (lookup (method_header m) d.responders))
        (λ responder. Keeps-bind (assert (P.responder_open now responder)) (λ _. kept v))
  role-Keeps now m (closing c) d v = close-Keeps now d.callback c d v
  role-Keeps now m (starts_get_empty e) d v =
      goes_on-Keeps _ (Keeps-bind (send_getter now d.get_content_responder _) (λ sent. kept v))
  role-Keeps now m (starts_get_ok g) d v =
      goes_on-Keeps _ (Keeps-bind (send_getter now d.get_content_responder _) (λ sent. kept v))
  role-Keeps now m (starts_return r) d v = kept v
  role-Keeps now m (starts_deliver e) d v = kept v
  role-Keeps now m response d v =
      Keeps-bind (unwrap (lookup (method_header m) d.responders)) (λ responder. kept v)
  role-Keeps now m (asks_flow f) d v = goes_on-Keeps _ (flow-Keeps now d.callback f d v)
  role-Keeps now m (asks_cancel c) d v = goes_on-Keeps _ (cancel-Keeps now d.callback c d v)
  role-Keeps now m (confirms a) d v = kept v
  role-Keeps now m (rejects a) d v = kept v
  role-Keeps now m unexpected d v = stopped

  command-Keeps :
      (now : ℕ) (c : DispatcherManagementCommand P) (d : ChannelDispatcher P)
      → Inv d.consumer_resources
      → Keeps OfCall (handle_command now c d)
  unfolding handle_command
  command-Keeps now (register_content_consumer t tx) d v =
      kept (insert-Inv d.consumer_resources t _ v (registered-Settled t tx))
  command-Keeps now (deregister_content_consumer t) d v = kept (remove-Inv d.consumer_resources t v)
  command-Keeps now (register_get_content_responder tx) d v = kept v
  command-Keeps now (register_oneshot_responder header responder acker) d v =
      Keeps-bind (assert (P.acker_open now acker)) (λ _. kept v)
  command-Keeps now (register_channel_callback cb) d v = kept v

  step-Keeps :
      (e : Event P) (d : ChannelDispatcher P) → Inv d.consumer_resources → Keeps OfStep (step e d)
  unfolding step handle_frame
  step-Keeps (command now c) d v = goes_on-Keeps _ (command-Keeps now c d v)
  step-Keeps (frame now (method m)) d v = role-Keeps now m (role m) d v
  step-Keeps (frame now (content_header h)) d v = goes_on-Keeps _ (header-Keeps now d.state h d v)
  step-Keeps (frame now (content_body b)) d v = goes_on-Keeps _ (body-Keeps now d.state b d v)
  step-Keeps (frame now heart_beat) d v = stopped
  step-Keeps (frame now (publish_combo p h b)) d v = stopped
  step-Keeps frames_end d v = kept v
  step-Keeps (purge_tick now) d v = kept (purge-Inv now d v)

  abbrev OfRun : Run P → Type 0
  OfRun r = Inv r.last.consumer_resources

  after-Keeps :
      (next : Next) (d : ChannelDispatcher P) (out : List (Output P)) (rest : Outcome (Run P))
      → Inv d.consumer_resources
      → Keeps OfRun rest
      → Keeps OfRun (after next d out rest)
  after-Keeps exit d out rest v k = kept v
  after-Keeps proceed d out panic v k = stopped
  after-Keeps proceed d out (done r) v (kept w) = kept w

  continued-Keeps :
      (o : Handled P) (es : List (Event P))
      → Keeps OfStep o
      → ((d : ChannelDispatcher P) → Inv d.consumer_resources → Keeps OfRun (run es d))
      → Keeps OfRun (o >>= λ (d', out, next). after next d' out (run es d'))
  continued-Keeps panic es k h = stopped
  continued-Keeps (done x) es (kept v) h = after-Keeps x.2 x.0 x.1 (run es x.0) v (h x.0 v)

  run-Keeps :
      (es : List (Event P)) (d : ChannelDispatcher P)
      → Inv d.consumer_resources
      → Keeps OfRun (run es d)
  unfolding run
  run-Keeps [] d v = kept v
  run-Keeps (e ∷ es) d v = continued-Keeps (step e d) es (step-Keeps e d v) (run-Keeps es)

  -- In every state that the task reaches from its start, by any events at all, each consumer that
  -- is registered has an empty buffer and does not expire, each other one expires, and each buffer
  -- holds messages for its consumer only.
  pub run-new-Inv :
      (es : List (Event P)) (r : Run P) → run es (new P) ≡ done r → Inv r.last.consumer_resources
  unfolding new
  run-new-Inv es r e =
      keeps_done (run es (new P)) r e (run-Keeps es (new P) (λ tag x found. absurd (cc found)))
