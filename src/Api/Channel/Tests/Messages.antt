-- ===== src/Api/Channel/Tests/Messages.antt =====
-- A message that is got, published and consumed with the calls of
-- amqprs/src/api/channel/basic.rs.
use amqprs.Prelude.{
  ℕ, ◌≡◌, refl, ap, false, List, [], ◌∷◌, ◌++◌, length, none, some, Outcome, panic, done, map,
  arith, ◌==◌, Bool,
}
use amqprs.Prelude.Bytes.{to_be_bytes}
use amqprs.Serde.Ser.{serialize_u8, serialize_u16, serialize_u64, ser_short_str, serialize_str}
use amqprs.Frame.Method.Basic.{
  Publish, publish_set_mandatory, publish_set_immediate, publish_wire, Deliver, GetOk,
}
use amqprs.Frame.Methods
use amqprs.Frame.Methods.{Method, method_header, ser_arguments}
use amqprs.Frame.ContentHeader.{ContentHeader, BasicProperties, basic_default}
use amqprs.Frame.ContentHeader.Wires.{common_wire, ser_properties, properties, ser_option}
use amqprs.Frame.Frames.{Frame, method, content_header, content_body, method_header_wire, ser_frame}
use amqprs.Api.Dispatcher.{
  State, to_getter, new, register_get_content_responder, register_content_consumer,
}
use amqprs.Api.Dispatcher.Loop.{Event, command, Run, run, step, handle_command}
use amqprs.Api.Dispatcher.Frames.{role, handle_role, handle_frame}
use amqprs.Api.Dispatcher.Consumers.{forward_deliver}
use amqprs.Api.Dispatcher.Contents.{header_get_ok, body_get_ok, header_deliver, body_deliver}
use amqprs.Api.Dispatcher.Resources.{Inv}
use amqprs.Api.Dispatcher.Subscriber.{received}
use amqprs.Api.Dispatcher.Commands.{command_actions}
use amqprs.Api.Dispatcher.Traffic.{message, Delivers}
use amqprs.Net.SplitConnection.{write_frame}
use amqprs.Net.SplitConnection.Writer.{encode_chunks}
use amqprs.Frame.Flags.{set_flag}
use amqprs.Frame.Decode.{ok}
use amqprs.Frame.Stream.{encode}
use amqprs.Api.Dispatcher.Contiguous.{content_events}
use amqprs.Api.Call.{World, returned, outgoing}
use amqprs.Api.Channel.Consume.{consumer_loop}
use amqprs.Api.Channel.Basic.{new_basic_publish, new_basic_get, basic_get, basic_publish}
use amqprs.Api.Channel.Getting.{frames_heard, nth_receipt, GetsInOrder, basic_get-answered}
use amqprs.Api.Channel.Publishing.{published, heading, basic_publish-delivered}
use amqprs.Api.Channel.Consuming.{parts_called, parts_of, messages_for, run-consumer_loop}
use amqprs.Api.Channel.Stages.{value_of}
use amqprs.Api.Channel.Tests.{
  alive, parties, world, caller, fresh, stop_flow, name, name_text, closing_world, closing_run,
}

abbrev get_ok : GetOk
get_ok = record {
  delivery_tag = 1;
  redelivered = false;
  exchange = name_text;
  routing_key = name_text;
  message_count = 0;
}

abbrev header : ContentHeader
header = heading basic_default (1 ∷ 2 ∷ 3 ∷ [])

abbrev chunks : List (List ℕ)
chunks = (1 ∷ []) ∷ (2 ∷ 3 ∷ []) ∷ []

abbrev got_frames : List Frame
got_frames =
    method (Methods.get_ok get_ok)
    ∷ content_header header
    ∷ content_body (record { inner = 1 ∷ 2 ∷ 3 ∷ [] })
    ∷ []

abbrev getting_world : World alive parties
getting_world = world (method stop_flow) (λ log. nth_receipt (frames_heard log) got_frames)

abbrev getting_run : Run alive
getting_run = record {
  last = record fresh {
    state = State.get_ok;
    get_content_responder = none;
    getok_content_buffer = record { content = none; remaining = 0 };
  };
  outputs = map (to_getter 5) got_frames;
  exited = false;
}

abbrev getting_events : List (Event alive)
getting_events =
    command 0 (register_get_content_responder 5)
    ∷ content_events 0 (Methods.get_ok get_ok) header chunks

getting_ran : run getting_events fresh ≡ done getting_run
unfolding run step handle_command handle_frame role handle_role new header_get_ok body_get_ok
getting_ran = refl

-- The sender of the call.
abbrev is_getter : ℕ → Bool
is_getter tx = tx == 5

getting-GetsInOrder : GetsInOrder is_getter getting_world caller getting_run.outputs
getting-GetsInOrder = record {
  nth = λ log n heard. rw heard (ap (λ k. nth_receipt k got_frames) (omega arith));
}

basic_get-answered_example :
    value_of (basic_get 1 (new_basic_get name) getting_world caller)
    ≡ some (some (get_ok, basic_default, 1 ∷ 2 ∷ 3 ∷ []))
basic_get-answered_example =
    basic_get-answered is_getter 1 0 (new_basic_get name) get_ok header chunks fresh getting_world
      caller getting_run (omega arith) (λ log. refl) (λ log. refl) refl refl
      (omega arith, (omega arith, tt)) refl getting_ran getting-GetsInOrder

abbrev publication : Publish
publication = published (new_basic_publish name name)

publication-length : length (ser_frame (method (Methods.publish publication))) ≡ 11
unfolding ser_frame ser_arguments method_header method_header_wire publish_wire ser_short_str
    serialize_str serialize_u8 serialize_u16 to_be_bytes publish_set_mandatory publish_set_immediate
    set_flag
publication-length = refl

header-length : length (ser_frame (content_header header)) ≡ 14
unfolding ser_frame common_wire ser_properties properties ser_option serialize_u8 serialize_u16
    serialize_u64 to_be_bytes
header-length = refl

abbrev delivery : Deliver
delivery = record {
  consumer_tag = name_text;
  delivery_tag = 1;
  redelivered = false;
  exchange = name_text;
  routing_key = name_text;
}

fresh-Inv : Inv fresh.consumer_resources
unfolding new
fresh-Inv tag r e = absurd (cc e)

basic_publish-delivered_example :
    (f : Frame) × (bodies : List (List ℕ)) × (basic_publish 1 basic_default
        (1 ∷ 2 ∷ 3 ∷ [])
        (new_basic_publish name name)
        closing_world
        caller
      ≡ returned tt (record caller { log = outgoing 1 f ∷ [] }))
    × (write_frame [] 1 f 10
        ≡ ok (
            (encode 1 (method (Methods.publish publication)) ++ encode 1 (content_header header))
            ++ encode_chunks 1 bodies))
    × ((tag consumer : List ℕ) (tx : ℕ)
        → Delivers tag
            (command 0 (register_content_consumer consumer tx)
              ∷ content_events 0 (Methods.deliver delivery) header bodies)
            fresh
            (command_actions {P = alive} tag (register_content_consumer consumer tx)
              ++ received tag (message delivery basic_default (1 ∷ 2 ∷ 3 ∷ []))))
basic_publish-delivered_example =
    basic_publish-delivered 1 10 basic_default (1 ∷ 2 ∷ 3 ∷ []) (new_basic_publish name name)
      closing_world caller (omega arith) (omega arith) refl (omega arith) (omega arith)
      (omega (arith, publication-length)) (omega (arith, header-length)) 0 delivery fresh fresh-Inv

-- A delivery to a consumer that is registered.
abbrev consumed_events : List (Event alive)
consumed_events =
    command 0 (register_content_consumer name 7)
    ∷ content_events 0 (Methods.deliver delivery) header chunks

abbrev outcome_run : Outcome (Run alive) → Run alive
outcome_run (done r) = r
outcome_run panic = closing_run

abbrev consumed_run : Run alive
consumed_run = outcome_run (run consumed_events fresh)

consumed_ran : run consumed_events fresh ≡ done consumed_run
unfolding run step handle_command handle_frame role handle_role new header_deliver body_deliver
    forward_deliver
consumed_ran = refl

abbrev mine : ℕ → Bool
mine tx = tx == 7

run-consumer_loop_example :
    (calls : List (Deliver × BasicProperties × List ℕ)) × (consumer_loop
        (messages_for mine consumed_run.outputs)
      ≡ done calls)
    × (map parts_called calls ≡ map parts_of (messages_for mine consumed_run.outputs))
run-consumer_loop_example = run-consumer_loop mine consumed_events consumed_run consumed_ran
