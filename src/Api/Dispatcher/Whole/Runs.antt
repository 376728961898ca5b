-- ===== src/Api/Dispatcher/Whole/Runs.antt =====
-- The runs of amqprs/src/api/channel/dispatcher.rs send whole messages only.
use amqprs.Prelude.{
  Keeps, stopped, kept, Keeps-bind, Keeps-then, Keeps-if, keeps_done, ℕ, ◌≡◌, refl, Bool, List, [],
  ◌∷◌, Option, none, some, Outcome, done, panic, ◌>>=◌, assert, unwrap, All-append, bytes_eq,
}
use amqprs.Frame.Method.Channel.{CloseChannel, Flow}
use amqprs.Frame.Method.Basic.{Cancel}
use amqprs.Prelude.Map.{lookup, remove, AllValues-insert}
use amqprs.Serde.Types.{short_str}
use amqprs.Frame.MethodHeader.{header_eq}
use amqprs.Frame.Methods.{Method, method_header}
use amqprs.Frame.Methods
use amqprs.Frame.Frames.{method, heart_beat, content_header, content_body, publish_combo}
use amqprs.Api.Dispatcher.{
  Peers, ChannelDispatcher, Output, call_close, call_flow, call_cancel, new,
  DispatcherManagementCommand, register_content_consumer, deregister_content_consumer,
  register_get_content_responder, register_oneshot_responder, register_channel_callback,
}
use amqprs.Api.Dispatcher.Consumers.{purge_keys, purge_consumer_resource}
use amqprs.Api.Dispatcher.Frames.{
  Handled, Next, proceed, exit, respond_close, flow_answer, Role, closed, closing, starts_get_empty,
  starts_get_ok, starts_return, starts_deliver, response, asks_flow, asks_cancel, confirms, rejects,
  unexpected, goes_on, role, handle_response, handle_close_ok, handle_close, handle_flow,
  handle_cancel, handle_role, handle_frame,
}
use amqprs.Api.Dispatcher.Loop.{
  Event, command, frame, frames_end, purge_tick, Run, handle_command, after, step, run,
}
use amqprs.Api.Dispatcher.Whole.{
  OutputIsWhole, AreWhole, FifoIsWhole, OfCall, OfStep, resource-FifoIsWhole,
  remove_all-FifosAreWhole, same, removed, send-Keeps, server-Keeps, ack-AreWhole, nack-AreWhole,
  drain-AreWhole, Sound,
}
use amqprs.Api.Dispatcher.Whole.Contents.{header-Keeps, body-Keeps}

module _ {P : Peers} where
  respond-Keeps :
      (now : ℕ) (out : List (Output P)) (d : ChannelDispatcher P)
      → Sound d
      → AreWhole out
      → Keeps OfStep (respond_close now out d)
  respond-Keeps now out d v a =
      Keeps-then _ (server-Keeps now (method (Methods.close_channel_ok (record {}))))
        (λ sent b. kept (same d _ v refl refl, All-append OutputIsWhole out sent a b))

  close-Keeps :
      (now : ℕ) (o : Option P.Callback) (m : CloseChannel) (d : ChannelDispatcher P)
      → Sound d
      → Keeps OfStep (handle_close now o m d)
  unfolding handle_close
  close-Keeps now none m d v = respond-Keeps now [] d v tt
  close-Keeps now (some cb) m d v =
      Keeps-if (P.close_result now cb m) (respond-Keeps now (call_close cb m ∷ []) d v (tt, tt))
        (kept (v, (tt, tt)))

  answer-Keeps :
      (now : ℕ) (o : Option Bool) (out : List (Output P)) (d : ChannelDispatcher P)
      → Sound d
      → AreWhole out
      → Keeps OfCall (flow_answer now o out d)
  answer-Keeps now none out d v a = kept (v, a)
  answer-Keeps now (some active) out d v a =
      Keeps-then _ (server-Keeps now (method (Methods.flow_ok (record { active = active }))))
        (λ sent b. kept (v, All-append OutputIsWhole out sent a b))

  flow-Keeps :
      (now : ℕ) (o : Option P.Callback) (m : Flow) (d : ChannelDispatcher P)
      → Sound d
      → Keeps OfCall (handle_flow now o m d)
  unfolding handle_flow
  flow-Keeps now none m d v = kept (v, tt)
  flow-Keeps now (some cb) m d v =
      answer-Keeps now (P.flow_result now cb m.active) (call_flow cb m.active ∷ []) d v (tt, tt)

  cancel-Keeps :
      (now : ℕ) (o : Option P.Callback) (m : Cancel) (d : ChannelDispatcher P)
      → Sound d
      → Keeps OfCall (handle_cancel now o m d)
  unfolding handle_cancel
  cancel-Keeps now none m d v = kept (v, tt)
  cancel-Keeps now (some cb) m d v =
      let gone = removed m.consumer_tag.text d v in
      Keeps-if (P.cancel_result now cb m)
        (Keeps-if m.no_wait
          (kept
            {a = (
              record d { consumer_resources = remove m.consumer_tag.text d.consumer_resources },
              call_cancel cb m ∷ [],
            )}
            (gone, (tt, tt)))
          (Keeps-bind (unwrap (short_str m.consumer_tag.text)) (λ tag.
            Keeps-then _
              (server-Keeps now (method (Methods.cancel_ok (record { consumer_tag = tag }))))
              (λ sent b.
                kept
                  {a = (
                    record d {
                      consumer_resources = remove m.consumer_tag.text d.consumer_resources;
                    },
                    call_cancel cb m ∷ sent,
                  )}
                  (gone, (tt, b))))))
        (kept (v, (tt, tt)))

  goes_on-Keeps :
      (o : Outcome (ChannelDispatcher P × List (Output P)))
      → Keeps OfCall o
      → Keeps OfStep (goes_on o)
  goes_on-Keeps panic h = stopped
  goes_on-Keeps (done x) (kept v) = kept v

  role-Keeps :
      (now : ℕ) (m : Method) (r : Role) (d : ChannelDispatcher P)
      → Sound d
      → Keeps OfStep (handle_role now m r d)
  unfolding handle_role handle_close_ok handle_response
  role-Keeps now m closed d v =
      Keeps-bind (unwrap (lookup (method_header m) d.responders)) (λ responder.
        Keeps-bind (assert (P.responder_open now responder))
          (λ _. kept (same d _ v refl refl, (tt, tt))))
  role-Keeps now m (closing c) d v = close-Keeps now d.callback c d v
  role-Keeps now m (starts_get_empty e) d v = goes_on-Keeps _ (
      Keeps-then _ (send-Keeps now d.get_content_responder _)
        (λ sent a. kept (same d _ v refl refl, a)))
  role-Keeps now m (starts_get_ok g) d v = goes_on-Keeps _ (
      Keeps-then _ (send-Keeps now d.get_content_responder _)
        (λ sent a. kept (same d _ v refl refl, a)))
  role-Keeps now m (starts_return r) d v = kept (same d _ v refl refl, tt)
  role-Keeps now m (starts_deliver e) d v = kept (record { buffer = v.buffer; fifos = v.fifos }, tt)
  role-Keeps now m response d v =
      Keeps-bind (unwrap (lookup (method_header m) d.responders))
        (λ responder. kept (same d _ v refl refl, (tt, tt)))
  role-Keeps now m (asks_flow f) d v = goes_on-Keeps _ (flow-Keeps now d.callback f d v)
  role-Keeps now m (asks_cancel c) d v = goes_on-Keeps _ (cancel-Keeps now d.callback c d v)
  role-Keeps now m (confirms a) d v = kept (v, ack-AreWhole P d.callback a)
  role-Keeps now m (rejects a) d v = kept (v, nack-AreWhole P d.callback a)
  role-Keeps now m unexpected d v = stopped

  command-Keeps :
      (now : ℕ) (c : DispatcherManagementCommand P) (d : ChannelDispatcher P)
      → Sound d
      → Keeps OfCall (handle_command now c d)
  unfolding handle_command
  command-Keeps now (register_content_consumer t tx) d v = kept (
    record {
      buffer = v.buffer;
      fifos = AllValues-insert FifoIsWhole t _ d.consumer_resources v.fifos tt;
    },
    drain-AreWhole P tx _ (resource-FifoIsWhole now t d v),
  )
  command-Keeps now (deregister_content_consumer t) d v = kept (removed t d v, tt)
  command-Keeps now (register_get_content_responder tx) d v = kept (same d _ v refl refl, tt)
  command-Keeps now (register_oneshot_responder header responder acker) d v =
      Keeps-bind (assert (P.acker_open now acker)) (λ _. kept (same d _ v refl refl, (tt, tt)))
  command-Keeps now (register_channel_callback cb) d v = kept (same d _ v refl refl, tt)

  step-Keeps : (e : Event P) (d : ChannelDispatcher P) → Sound d → Keeps OfStep (step e d)
  unfolding step handle_frame purge_consumer_resource
  step-Keeps (command now c) d v = goes_on-Keeps _ (command-Keeps now c d v)
  step-Keeps (frame now (method m)) d v = role-Keeps now m (role m) d v
  step-Keeps (frame now (content_header h)) d v = goes_on-Keeps _ (header-Keeps now d.state h d v)
  step-Keeps (frame now (content_body b)) d v = goes_on-Keeps _ (body-Keeps now d.state b d v)
  step-Keeps (frame now heart_beat) d v = stopped
  step-Keeps (frame now (publish_combo p h b)) d v = stopped
  step-Keeps frames_end d v = kept (v, tt)
  step-Keeps (purge_tick now) d v = kept (
    record {
      buffer = v.buffer;
      fifos =
          remove_all-FifosAreWhole (purge_keys now d.consumer_resources) d.consumer_resources
            v.fifos;
    },
    tt,
  )

  abbrev OfRun : Run P → Type 0
  OfRun r = AreWhole r.outputs

  after-Keeps :
      (next : Next) (d : ChannelDispatcher P) (out : List (Output P)) (rest : Outcome (Run P))
      → AreWhole out
      → Keeps OfRun rest
      → Keeps OfRun (after next d out rest)
  after-Keeps exit d out rest a k = kept a
  after-Keeps proceed d out panic a k = stopped
  after-Keeps proceed d out (done r) a (kept b) = kept (All-append OutputIsWhole out r.outputs a b)

  continued-Keeps :
      (o : Handled P) (es : List (Event P))
      → Keeps OfStep o
      → ((d : ChannelDispatcher P) → Sound d → Keeps OfRun (run es d))
      → Keeps OfRun (o >>= λ (d', out, next). after next d' out (run es d'))
  continued-Keeps panic es k h = stopped
  continued-Keeps (done x) es (kept v) h = after-Keeps x.2 x.0 x.1 (run es x.0) v.1 (h x.0 v.0)

  run-Keeps : (es : List (Event P)) (d : ChannelDispatcher P) → Sound d → Keeps OfRun (run es d)
  unfolding run
  run-Keeps [] d v = kept tt
  run-Keeps (e ∷ es) d v = continued-Keeps (step e d) es (step-Keeps e d v) (run-Keeps es)

  pub run-new-AreWhole :
      (es : List (Event P)) (r : Run P) → run es (new P) ≡ done r → AreWhole r.outputs
  unfolding new
  run-new-AreWhole es r e =
      keeps_done (run es (new P)) r e (run-Keeps es (new P) (record { buffer = tt; fifos = tt }))
