-- ===== src/Api/Dispatcher/Whole.antt =====
-- The messages that consumers get from the task of amqprs/src/api/channel/dispatcher.rs have all their
-- parts, as the comment on `ConsumerMessage` in amqprs/src/api/channel/mod.rs promises.
pub mod Contents
pub mod Runs
use amqprs.Prelude.{
  Keeps, stopped, kept, Keeps-bind, Keeps-then, Keeps-if, keeps_done, ℕ, ◌≡◌, refl, sym, subst,
  Bool, true, Option-cases, inl, inr, length, List, [], ◌∷◌, Option, none, some, is_some, Outcome,
  done, panic, ◌>>=◌, assert, unwrap, ◌==◌, All, All-append, bytes_eq,
}
use amqprs.Frame.Method.Channel.{CloseChannel, Flow}
use amqprs.Frame.Method.Basic.{Cancel, Deliver, Return, Ack, Nack}
use amqprs.Prelude.Map.{
  lookup, remove, AllValues, AllValues-lookup, AllValues-insert, AllValues-remove,
}
use amqprs.Serde.Types.{short_str}
use amqprs.Frame.MethodHeader.{header_eq}
use amqprs.Frame.Methods.{Method, method_header}
use amqprs.Frame.Methods
use amqprs.Frame.ContentHeader.{ContentHeader, BasicProperties}
use amqprs.Frame.Frames.{
  Frame, method, heart_beat, content_header, content_body, publish_combo, ContentBody,
}
use amqprs.Api.Dispatcher.{
  Peers, ConsumerMessage, ConsumerResource, ChannelDispatcher, Output, to_consumer, to_getter,
  to_responder, to_acker, to_server, call_close, call_flow, call_cancel, call_publish_return,
  call_publish_ack, call_publish_nack, State, initial, deliver, get_ok, get_empty, return, new,
  DispatcherManagementCommand, register_content_consumer, deregister_content_consumer,
  register_get_content_responder, register_oneshot_responder, register_channel_callback,
}
use amqprs.Api.Dispatcher.Consumers.{
  get_or_new_consumer_resource, forward, forward_deliver, handle_return, purge_keys, remove_all,
  purge_consumer_resource,
}
use amqprs.Api.Dispatcher.Contents.{
  checked_sub, send_getter, header_deliver, header_get_ok, header_return, body_deliver, body_get_ok,
  body_return, handle_content_header, handle_content_body,
}
use amqprs.Api.Dispatcher.Frames.{
  Handled, Next, proceed, exit, send_server, respond_close, flow_answer, Role, closed, closing,
  starts_get_empty, starts_get_ok, starts_return, starts_deliver, response, asks_flow, asks_cancel,
  confirms, rejects, unexpected, goes_on, role, handle_response, handle_close_ok, handle_close,
  handle_flow, handle_cancel, handle_ack, handle_nack, handle_role, handle_frame,
}
use amqprs.Api.Dispatcher.Loop.{
  Event, command, frame, frames_end, purge_tick, Run, drain, handle_command, after, step, run,
}

-- A message with its method, its properties and its body.
pub record IsWhole (m : ConsumerMessage) : Type 0 where
  pub has_deliver : is_some m.deliver ≡ true
  pub has_properties : is_some m.basic_properties ≡ true
  pub has_content : is_some m.content ≡ true

-- The buffer of deliveries has properties where it has a body.
abbrev pub Together : Option (List ℕ) → Option BasicProperties → Type 0
Together none p = Unit
Together (some content) p = is_some p ≡ true

module _ {P : Peers} where
  abbrev pub OutputIsWhole : Output P → Type 0
  OutputIsWhole (to_consumer tx m) = IsWhole m
  OutputIsWhole (to_getter _ _) = Unit
  OutputIsWhole (to_responder _ _) = Unit
  OutputIsWhole (to_acker _) = Unit
  OutputIsWhole (to_server _) = Unit
  OutputIsWhole (call_close _ _) = Unit
  OutputIsWhole (call_flow _ _) = Unit
  OutputIsWhole (call_cancel _ _) = Unit
  OutputIsWhole (call_publish_return _ _ _ _) = Unit
  OutputIsWhole (call_publish_ack _ _) = Unit
  OutputIsWhole (call_publish_nack _ _) = Unit

  abbrev pub AreWhole : List (Output P) → Type 0
  AreWhole out = All OutputIsWhole out

  abbrev pub FifoIsWhole : ConsumerResource P → Type 0
  FifoIsWhole r = All IsWhole r.fifo

  abbrev FifosAreWhole : List (List ℕ × ConsumerResource P) → Type 0
  FifosAreWhole l = AllValues FifoIsWhole l

  -- What holds of the state of the task.
  pub record Sound (d : ChannelDispatcher P) : Type 0 where
    pub buffer : Together d.message_buffer.content d.message_buffer.basic_properties
    pub fifos : FifosAreWhole d.consumer_resources

  abbrev pub OfCall : ChannelDispatcher P × List (Output P) → Type 0
  OfCall x = Sound x.0 × AreWhole x.1

  abbrev pub OfStep : ChannelDispatcher P × List (Output P) × Next → Type 0
  OfStep x = Sound x.0 × AreWhole x.1

  pub resource-FifoIsWhole :
      (now : ℕ) (tag : List ℕ) (d : ChannelDispatcher P)
      → Sound d
      → FifoIsWhole (get_or_new_consumer_resource now tag d)
  resource-FifoIsWhole now tag d v = elim (Option-cases (lookup tag d.consumer_resources)) [
    | inl n ↦ rw n tt
    | inr (r, n) ↦ rw n (AllValues-lookup FifoIsWhole tag d.consumer_resources r v.fifos n)
  ]

  pub remove_all-FifosAreWhole :
      (keys : List (List ℕ)) (l : List (List ℕ × ConsumerResource P))
      → FifosAreWhole l
      → FifosAreWhole (remove_all keys l)
  unfolding remove_all
  remove_all-FifosAreWhole [] l a = a
  remove_all-FifosAreWhole (key ∷ keys) l a =
      remove_all-FifosAreWhole keys (remove key l) (AllValues-remove FifoIsWhole key l a)

  -- A state with the buffer and the resources of another one.
  pub same :
      (d d' : ChannelDispatcher P)
      → Sound d
      → d'.message_buffer ≡ d.message_buffer
      → d'.consumer_resources ≡ d.consumer_resources
      → Sound d'
  same d d' v b f = record {
    buffer =
        subst (λ (m : ConsumerMessage). Together m.content m.basic_properties) (sym b) v.buffer;
    fifos = subst FifosAreWhole (sym f) v.fifos;
  }

  pub removed :
      (tag : List ℕ) (d : ChannelDispatcher P)
      → Sound d
      → Sound (record d { consumer_resources = remove tag d.consumer_resources })
  removed tag d v = record {
    buffer = v.buffer;
    fifos = AllValues-remove FifoIsWhole tag d.consumer_resources v.fifos;
  }

  forward_to :
      (o : Option P.ConsumerTx) (x : ConsumerMessage) (r : ConsumerResource P)
      → IsWhole x
      → FifoIsWhole r
      → FifoIsWhole (forward o x r).0 × AreWhole (forward o x r).1
  forward_to none x r whole a = (All-append IsWhole r.fifo (x ∷ []) a (whole, tt), tt)
  forward_to (some tx) x r whole a = (a, (whole, tt))

  pub forward-Keeps :
      (now : ℕ) (o : Option Deliver) (props : Option BasicProperties) (content : Option (List ℕ))
      (remaining : ℕ) (d : ChannelDispatcher P)
      → is_some props ≡ true
      → is_some content ≡ true
      → Sound d
      → Keeps OfCall (
          forward_deliver now
            (record {
              deliver = o;
              basic_properties = props;
              content = content;
              remaining = remaining;
            })
            d)
  unfolding forward_deliver
  forward-Keeps now none props content remaining d hp hc v = stopped
  forward-Keeps now (some m) props content remaining d hp hc v =
      let x : ConsumerMessage = record {
        deliver = some m;
        basic_properties = props;
        content = content;
        remaining = remaining;
      } in
      let whole : IsWhole x = record {
        has_deliver = refl;
        has_properties = hp;
        has_content = hc;
      } in
      let r : ConsumerResource P = get_or_new_consumer_resource now m.consumer_tag.text d in
      let (fifo, out) =
        forward_to r.tx x r whole (resource-FifoIsWhole now m.consumer_tag.text d v) in
      kept (
        record {
          buffer = v.buffer;
          fifos =
              AllValues-insert FifoIsWhole m.consumer_tag.text (forward r.tx x r).0
                d.consumer_resources v.fifos fifo;
        },
        out,
      )

  pub send-Keeps :
      (now : ℕ) (o : Option P.GetTx) (f : Frame) → Keeps AreWhole (send_getter {P = P} now o f)
  send-Keeps now none f = stopped
  send-Keeps now (some tx) f = Keeps-bind (assert (P.get_open now tx)) (λ _. kept (tt, tt))

  pub server-Keeps : (now : ℕ) (f : Frame) → Keeps AreWhole (send_server {P = P} now f)
  server-Keeps now f = Keeps-bind (assert (P.outgoing_open now)) (λ _. kept (tt, tt))

module _ (P : Peers) where
  pub return-AreWhole :
      (o : Option P.Callback) (ret : Return) (props : BasicProperties) (content : List ℕ)
      → AreWhole {P = P} (handle_return o ret props content)
  return-AreWhole none ret props content = tt
  return-AreWhole (some cb) ret props content = (tt, tt)

  pub ack-AreWhole : (o : Option P.Callback) (m : Ack) → AreWhole {P = P} (handle_ack o m)
  ack-AreWhole none m = tt
  ack-AreWhole (some cb) m = (tt, tt)

  pub nack-AreWhole : (o : Option P.Callback) (m : Nack) → AreWhole {P = P} (handle_nack o m)
  nack-AreWhole none m = tt
  nack-AreWhole (some cb) m = (tt, tt)

  pub drain-AreWhole :
      (tx : P.ConsumerTx) (ms : List ConsumerMessage)
      → All IsWhole ms
      → AreWhole {P = P} (drain tx ms)
  drain-AreWhole tx [] a = tt
  drain-AreWhole tx (x ∷ ms) a = (a.0, drain-AreWhole tx ms a.1)
