-- ===== src/Api/Dispatcher/Tests.antt =====
-- The theorems on amqprs/src/api/channel/dispatcher.rs at small messages. Senders and callbacks are
-- numbers here, receiving halves stay alive, and callbacks succeed.
use amqprs.Prelude.{ℕ, ◌≡◌, refl, true, false, List, [], ◌∷◌, none, some, panic, arith, bytes_eq}
use amqprs.Frame.MethodHeader.{header_eq}
use amqprs.Frame.Method.Basic.{Deliver, Return, GetOk}
use amqprs.Frame.Methods
use amqprs.Frame.Methods.{Method, method_header, ser_arguments}
use amqprs.Frame.ContentHeader.{ContentHeader, basic_default}
use amqprs.Frame.Frames.{method, content_header, content_body}
use amqprs.Serde.Types.{ShortStr}
use amqprs.Api.Dispatcher.{
  Peers, ChannelDispatcher, ReturnMessage, GetOkMessage, return, get_ok, new,
  register_content_consumer, to_getter,
}
use amqprs.Api.Dispatcher.Consumers.{handle_return}
use amqprs.Api.Dispatcher.Resources.{Inv}
use amqprs.Api.Dispatcher.Subscriber.{Action, registers, receives}
use amqprs.Api.Dispatcher.Loop.{Event, command, frame, run}
use amqprs.Api.Dispatcher.Traffic.{
  idle, message, Traffic, over, commanded, delivers, heads, carries, completes, Delivers,
}
use amqprs.Api.Dispatcher.Delivery.{run-Delivers}
use amqprs.Api.Dispatcher.Contiguous.{content_events}
use amqprs.Api.Dispatcher.Answers.{waits, run-return, run-get_ok}
use amqprs.Api.Dispatcher.Violations.{run-overrun}
use amqprs.Api.Dispatcher.Reachable.{run-new-Inv}

abbrev alive : Peers
alive = record {
  ConsumerTx = ℕ;
  GetTx = ℕ;
  Responder = ℕ;
  Acker = ℕ;
  Callback = ℕ;
  get_open = λ now tx. true;
  responder_open = λ now tx. true;
  acker_open = λ now tx. true;
  outgoing_open = λ now. true;
  close_result = λ now cb m. true;
  flow_result = λ now cb active. some active;
  cancel_result = λ now cb m. true;
}

abbrev ctag : ShortStr
ctag = record { len = 1; text = 99 ∷ [] }

abbrev delivery : Deliver
delivery = record {
  consumer_tag = ctag;
  delivery_tag = 1;
  redelivered = false;
  exchange = ctag;
  routing_key = ctag;
}

abbrev header : ContentHeader
header = record {
  common = record { class = 60; weight = 0; body_size = 3 };
  basic_properties = basic_default;
}

abbrev fresh : ChannelDispatcher alive
fresh = new alive

fresh-Inv : Inv fresh.consumer_resources
unfolding new
fresh-Inv tag r e = absurd (cc e)

-- The consumer is registered between the two body frames.
abbrev late_events : List (Event alive)
late_events =
    frame 0 (method (Methods.deliver delivery))
    ∷ (frame 1 (content_header header)
        ∷ (frame 2 (content_body (record { inner = 1 ∷ 2 ∷ [] }))
            ∷ (command 3 (register_content_consumer (99 ∷ []) 7)
                ∷ (frame 4 (content_body (record { inner = 3 ∷ [] })) ∷ []))))

abbrev late_actions : List (Action alive)
late_actions = registers 7 ∷ receives (message delivery basic_default (1 ∷ 2 ∷ 3 ∷ [])) ∷ []

late-Traffic : Traffic {P = alive} (99 ∷ []) idle late_events late_actions
late-Traffic = delivers 0 delivery (
    heads 1 header (omega arith) (
      carries 2 (record { inner = 1 ∷ 2 ∷ [] }) (omega arith)
        (commanded 3 (register_content_consumer (99 ∷ []) 7) refl
          (completes 4 (record { inner = 3 ∷ [] }) (omega arith) over))))

late : Delivers (99 ∷ []) late_events fresh late_actions
late = run-Delivers (99 ∷ []) idle late_events late_actions fresh late-Traffic tt fresh-Inv

run-Delivers_example : Delivers (99 ∷ []) late_events fresh late_actions
run-Delivers_example =
    run-Delivers (99 ∷ []) idle late_events late_actions fresh late-Traffic tt fresh-Inv

abbrev parts : List (List ℕ)
parts = (1 ∷ []) ∷ ((2 ∷ 3 ∷ []) ∷ [])

abbrev returned : Return
returned = record { reply_code = 312; reply_text = ctag; exchange = ctag; routing_key = ctag }

run-return_example :
    (buffer : ReturnMessage) × (run (content_events 0 (Methods.return returned) header parts) fresh
      ≡ waits
          (record fresh { state = return; return_buffer = buffer })
          (handle_return {P = alive} fresh.callback returned basic_default (1 ∷ 2 ∷ 3 ∷ [])))
    × (buffer.ret ≡ none)
run-return_example = run-return 0 returned header parts fresh (omega arith, (omega arith, tt)) refl

abbrev got_message : GetOk
got_message = record {
  delivery_tag = 1;
  redelivered = false;
  exchange = ctag;
  routing_key = ctag;
  message_count = 0;
}

abbrev getting : ChannelDispatcher alive
getting = record fresh { get_content_responder = some 5 }

run-get_ok_example :
    (buffer : GetOkMessage) × (run
        (content_events 0 (Methods.get_ok got_message) header parts)
        getting
      ≡ waits
          (record getting {
            state = get_ok;
            get_content_responder = none;
            getok_content_buffer = buffer;
          })
          (to_getter 5 (method (Methods.get_ok got_message))
            ∷ (to_getter 5 (content_header header)
                ∷ (to_getter 5 (content_body (record { inner = 1 ∷ 2 ∷ 3 ∷ [] })) ∷ []))))
run-get_ok_example =
    run-get_ok 0 5 header getting refl got_message parts refl (omega arith, (omega arith, tt)) refl

run-overrun_example :
    run
      (content_events 0 (Methods.deliver delivery) header ((1 ∷ 2 ∷ []) ∷ ((3 ∷ 4 ∷ []) ∷ [])))
      fresh
    ≡ panic
run-overrun_example =
    run-overrun 0 delivery header ((1 ∷ 2 ∷ []) ∷ ((3 ∷ 4 ∷ []) ∷ [])) fresh (omega arith)

run-new-Inv_example : Inv late.ran.last.consumer_resources
run-new-Inv_example = run-new-Inv late_events late.ran late.result
