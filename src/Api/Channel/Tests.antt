-- ===== src/Api/Channel/Tests.antt =====
-- The calls of amqprs/src/api/channel at small arguments. The ends of the channels of tokio are
-- numbers here, receiving halves stay alive, and callbacks succeed.
mod Messages
use amqprs.Prelude.{
  ℕ, ◌≡◌, refl, ap, true, false, List, [], ◌∷◌, ◌++◌, length, ◌⊎◌, inl, inr, none, some, Outcome,
  panic, done, map, arith, ◌==◌, Bool,
}
use amqprs.Prelude.Bytes.{to_be_bytes}
use amqprs.Serde.Types.{ShortStr, table_new}
use amqprs.Serde.Ser.{serialize_u8, serialize_u16, serialize_u64, ser_short_str, serialize_str}
use amqprs.Frame.Method.Channel.{FlowOk}
use amqprs.Frame.Method.Basic.{
  Publish, publish_set_mandatory, publish_set_immediate, publish_wire, Deliver, GetOk,
}
use amqprs.Frame.Methods
use amqprs.Frame.Methods.{Method, method_header, ser_arguments}
use amqprs.Frame.ContentHeader.{ContentHeader, BasicProperties, basic_default}
use amqprs.Frame.ContentHeader.Wires.{common_wire, ser_properties, properties, ser_option}
use amqprs.Frame.Frames.{Frame, method, content_header, content_body, method_header_wire, ser_frame}
use amqprs.Net.ReaderHandler.{Parties, deregister_channel_resource}
use amqprs.Api.Dispatcher.{
  Peers, State, ChannelDispatcher, Output, to_acker, to_getter, to_responder, new,
  register_oneshot_responder, register_get_content_responder, register_content_consumer,
}
use amqprs.Api.Dispatcher.Loop.{Event, command, frame, Run, run, step, handle_command}
use amqprs.Api.Dispatcher.Frames.{role, handle_role, handle_frame, handle_close_ok}
use amqprs.Api.Dispatcher.Consumers.{forward_deliver}
use amqprs.Api.Dispatcher.Contents.{header_get_ok, body_get_ok, header_deliver, body_deliver}
use amqprs.Api.Dispatcher.Resources.{Inv}
use amqprs.Api.Dispatcher.Traffic.{message, Delivers}
use amqprs.Net.SplitConnection.{write_frame}
use amqprs.Net.SplitConnection.Writer.{encode_chunks}
use amqprs.Frame.Flags.{set_flag}
use amqprs.Frame.Decode.{ok}
use amqprs.Frame.Stream.{encode}
use amqprs.Api.Dispatcher.Contiguous.{content_events}
use amqprs.Api.Call.{
  World, Caller, returned, Log, received, outgoing, acknowledged, commanded, managed, Receipt,
  arrives, pending, channel_use_error,
}
use amqprs.Api.Channel.{request_with, default_close, close, drop_guard}
use amqprs.Api.Channel.Exchange.{
  new_exchange_declare, new_exchange_delete, declare_flags, delete_flags,
}
use amqprs.Api.Channel.Queue.{
  durable_client_named, new_queue_delete, declare_queue_flags, delete_queue_flags,
}
use amqprs.Api.Channel.Consume.{new_basic_consume, manual_ack, consume_flags, consumer_loop}
use amqprs.Api.Channel.Basic.{
  default_nack, new_basic_publish, new_basic_get, nack_flags, publish_flags, basic_get,
  basic_publish,
}
use amqprs.Api.Channel.Flags.{requests-flags}
use amqprs.Api.Channel.Closing.{close-once, close-answered}
use amqprs.Api.Channel.Getting.{frames_heard, nth_receipt, GetsInOrder, basic_get-answered}
use amqprs.Api.Channel.Publishing.{published, heading, basic_publish-delivered}
use amqprs.Api.Channel.Consuming.{parts_called, parts_of, messages_for, run-consumer_loop}
use amqprs.Api.Channel.Answers.{for_flow, for_close_channel}
use amqprs.Api.Channel.Requests.{
  Done, first, later, Hears, answers-AreAnswers, request_with-answered,
}
use amqprs.Api.Channel.Stages.{Reached, caller_of, value_of, conversation, request_with-Reached}

abbrev pub alive : Peers
alive = record {
  ConsumerTx = ℕ;
  GetTx = ℕ;
  Responder = ℕ;
  Acker = ℕ;
  Callback = ℕ;
  get_open = λ now tx. true;
  responder_open = λ now tx. true;
  acker_open = λ now tx. true;
  outgoing_open = λ now. true;
  close_result = λ now cb m. true;
  flow_result = λ now cb active. some active;
  cancel_result = λ now cb m. true;
}

abbrev pub parties : Parties
parties = record {
  Responder = ℕ;
  Dispatcher = ℕ;
  Acker = ℕ;
  Callback = ℕ;
  responder_open = λ now responder. true;
  dispatcher_open = λ now dispatcher. true;
  acker_open = λ now acker. true;
  outgoing_open = λ now. true;
  close_result = λ now cb m. true;
}

-- Everything that is sent arrives, a response is the given frame, and the frames for the caller of
-- get are those of the last argument.
abbrev pub world : Frame → (Log alive parties → Receipt Frame) → World alive parties
world response gets = record {
  oneshot = λ log. 4;
  acker = λ log. 9;
  getter = λ log. 5;
  consumer = λ log. 7;
  conn_oneshot = λ log. 4;
  conn_acker = λ log. 9;
  dispatcher = λ log. 6;
  takes_command = λ log. true;
  takes_management = λ log. true;
  takes_frame = λ log. true;
  acknowledges = λ log a. arrives tt;
  conn_acknowledges = λ log a. arrives tt;
  grants_id = λ log a. arrives (some 1);
  responds = λ log r. arrives response;
  conn_responds = λ log r. arrives response;
  gets = λ log tx. gets log;
}

abbrev quiet : Log alive parties → Receipt Frame
quiet log = pending

abbrev pub caller : Caller alive parties
caller = record { is_open = true; log = [] }

abbrev pub fresh : ChannelDispatcher alive
fresh = new alive

Done-cases : (o x : Output alive) (os : List (Output alive)) → Done o (x ∷ os) → (o ≡ x) ⊎ Done o os
Done-cases o x os (first _) = inl refl
Done-cases o x os (later _ d) = inr d

Done-none : (o : Output alive) → Done o [] → ⊥
Done-none o d = elim d [ ]

-- What the task does for a request: it acknowledges, and hands over the response.
world-Hears :
    (f : Frame) (gets : Log alive parties → Receipt Frame)
    → Hears (world f gets) (to_acker 9 ∷ to_responder 4 f ∷ [])
world-Hears f gets = record {
  acks = λ log a d. refl;
  answers = λ log r g d. elim (Done-cases _ _ _ d) [
    | inl e ↦ absurd (cc e)
    | inr d' ↦ elim (Done-cases _ _ _ d') [ inl e ↦ cc e | inr d'' ↦ absurd (Done-none _ d'') ]
  ];
}

abbrev flow_ok : FlowOk
flow_ok = record { active = true }

abbrev pub stop_flow : Method
stop_flow = Methods.flow (record { active = false })

abbrev response_run : Run alive
response_run = record {
  last = fresh;
  outputs = to_acker 9 ∷ to_responder 4 (method (Methods.flow_ok flow_ok)) ∷ [];
  exited = false;
}

response_ran :
    run
      (command 0 (register_oneshot_responder for_flow.header 4 9)
        ∷ frame 0 (method (Methods.flow_ok flow_ok))
        ∷ [])
      fresh
    ≡ done response_run
unfolding run step handle_command handle_frame role handle_role new method_header
response_ran = refl

request_with-answered_example :
    request_with channel_use_error 1 stop_flow for_flow
      (world (method (Methods.flow_ok flow_ok)) quiet)
      caller
    ≡ returned flow_ok (record caller {
      log =
          received (method (Methods.flow_ok flow_ok))
          ∷ outgoing 1 (method stop_flow)
          ∷ acknowledged
          ∷ commanded (register_oneshot_responder for_flow.header 4 9)
          ∷ [];
    })
request_with-answered_example =
    request_with-answered for_flow Methods.flow_ok answers-AreAnswers.0 channel_use_error 1 0
      stop_flow flow_ok fresh (world (method (Methods.flow_ok flow_ok)) quiet) caller response_run
      refl refl (λ log. refl) response_ran (world-Hears _ quiet)

request_with-Reached_example :
    Reached
      (world (method stop_flow) quiet)
      caller
      for_flow
      1
      stop_flow
      (request_with channel_use_error 1 stop_flow for_flow (world (method stop_flow) quiet) caller)
request_with-Reached_example =
    request_with-Reached for_flow channel_use_error 1 stop_flow (world (method stop_flow) quiet)
      caller

abbrev pub name : List ℕ
name = 99 ∷ []

abbrev pub name_text : ShortStr
name_text = record { len = 1; text = name }

requests-flags_example :
    (declare_flags (new_exchange_declare name name) (record {
      ticket = 0;
      exchange = name_text;
      typ = name_text;
      bits = 0;
      arguments = table_new;
    })
      ≡ record {
        ticket = 0;
        exchange = name_text;
        typ = name_text;
        bits = 0;
        arguments = table_new;
      })
    × (delete_flags
          (new_exchange_delete name)
          (record { ticket = 0; exchange = name_text; bits = 0 })
        ≡ record { ticket = 0; exchange = name_text; bits = 0 })
    × (declare_queue_flags
          (durable_client_named name)
          (record { ticket = 0; queue = name_text; bits = 0; arguments = table_new })
        ≡ record { ticket = 0; queue = name_text; bits = 2; arguments = table_new })
    × (delete_queue_flags
          (new_queue_delete name)
          (record { ticket = 0; queue = name_text; bits = 0 })
        ≡ record { ticket = 0; queue = name_text; bits = 0 })
    × (consume_flags (manual_ack false (new_basic_consume name name)) (record {
      ticket = 0;
      queue = name_text;
      consumer_tag = name_text;
      bits = 0;
      arguments = table_new;
    })
        ≡ record {
          ticket = 0;
          queue = name_text;
          consumer_tag = name_text;
          bits = 2;
          arguments = table_new;
        })
    × (nack_flags default_nack (record { delivery_tag = 0; bits = 0 })
        ≡ record { delivery_tag = 0; bits = 2 })
    × (publish_flags
          (new_basic_publish name name)
          (record { ticket = 0; exchange = name_text; routing_key = name_text; bits = 0 })
        ≡ record { ticket = 0; exchange = name_text; routing_key = name_text; bits = 0 })
requests-flags_example =
    requests-flags (new_exchange_declare name name) (new_exchange_delete name)
      (durable_client_named name) (new_queue_delete name)
      (manual_ack false (new_basic_consume name name)) default_nack (new_basic_publish name name)
      (record {
        ticket = 0;
        exchange = name_text;
        typ = name_text;
        bits = 0;
        arguments = table_new;
      })
      (record { ticket = 0; exchange = name_text; bits = 0 })
      (record { ticket = 0; queue = name_text; bits = 0; arguments = table_new })
      (record { ticket = 0; queue = name_text; bits = 0 })
      (record {
        ticket = 0;
        queue = name_text;
        consumer_tag = name_text;
        bits = 0;
        arguments = table_new;
      })
      (record { delivery_tag = 0; bits = 0 })
      (record { ticket = 0; exchange = name_text; routing_key = name_text; bits = 0 })

abbrev close_channel_ok : Method
close_channel_ok = Methods.close_channel_ok (record {})

abbrev pub closing_world : World alive parties
closing_world = world (method close_channel_ok) quiet

close-once_example :
    ((caller_of (close true 1 closing_world caller)).is_open ≡ false)
    × (close true 1 closing_world (caller_of (close true 1 closing_world caller))
        ≡ returned tt (caller_of (close true 1 closing_world caller)))
    × (drop_guard 1 closing_world (caller_of (close true 1 closing_world caller))
        ≡ returned tt (caller_of (close true 1 closing_world caller)))
close-once_example = close-once 1 true closing_world closing_world caller

abbrev pub closing_run : Run alive
closing_run = record {
  last = record fresh { is_open = false };
  outputs = to_acker 9 ∷ to_responder 4 (method close_channel_ok) ∷ [];
  exited = true;
}

closing_ran :
    run
      (command 0 (register_oneshot_responder for_close_channel.header 4 9)
        ∷ frame 0 (method close_channel_ok)
        ∷ [])
      fresh
    ≡ done closing_run
unfolding run step handle_command handle_frame role handle_role handle_close_ok new method_header
closing_ran = refl

close-answered_example :
    (true ≡ true)
    × (false ≡ false)
    × (close true 1 closing_world caller
        ≡ returned tt (record {
          is_open = false;
          log =
              managed (deregister_channel_resource 1)
              ∷ conversation closing_world caller for_close_channel.header 1
                  (Methods.close_channel default_close)
                  (method close_channel_ok);
        }))
close-answered_example =
    close-answered 1 0 fresh closing_world caller [] closing_run refl refl refl refl (λ log. refl)
      (λ log. refl) closing_ran (world-Hears _ quiet)
