-- ===== src/Api/Dispatcher/Traffic.antt =====
-- What a server may send to the consumers of a channel, as a relation on the events of the main loop
-- of amqprs/src/api/channel/dispatcher.rs, and what it means that the consumers get it.
use amqprs.Prelude.{ℕ, ◌-◌, ◌<◌, ◌≡◌, true, false, List, [], ◌∷◌, ◌++◌, length, some, done}
use amqprs.Frame.Method.Basic.{Deliver}
use amqprs.Frame.Methods
use amqprs.Frame.ContentHeader.{ContentHeader, BasicProperties}
use amqprs.Frame.Frames.{method, content_header, content_body, ContentBody}
use amqprs.Api.Dispatcher.{
  Peers, ConsumerMessage, ChannelDispatcher, deliver, DispatcherManagementCommand,
}
use amqprs.Api.Dispatcher.Subscriber.{Action, received, follow, subscriber, handed}
use amqprs.Api.Dispatcher.Resources.{Inv}
use amqprs.Api.Dispatcher.Loop.{Event, command, frame, Run, run}
use amqprs.Api.Dispatcher.Commands.{is_awaited, command_actions}

-- Where the server is in sending a message.
pub data Phase : Type 0 where
  idle : Phase
  started : Deliver → Phase
  collecting : Deliver → BasicProperties → (content : List ℕ) → (remaining : ℕ) → Phase

abbrev pub message : Deliver → BasicProperties → List ℕ → ConsumerMessage
message m basic_properties content = record {
  deliver = some m;
  basic_properties = some basic_properties;
  content = some content;
  remaining = 0;
}

-- Events that carry whole messages, with any commands between the frames, and what they are to the
-- consumer `tag`: its senders that register, its messages, and its end.
pub data Traffic {P : Peers} (tag : List ℕ)
    : Phase → List (Event P) → List (Action P) → Type 0 where
  over : Traffic tag idle [] []
  commanded :
      {phase : Phase} {es : List (Event P)} {acts : List (Action P)} (now : ℕ)
      (c : DispatcherManagementCommand P)
      → is_awaited now c ≡ true
      → Traffic tag phase es acts
      → Traffic tag phase (command now c ∷ es) (command_actions tag c ++ acts)
  delivers :
      {es : List (Event P)} {acts : List (Action P)} (now : ℕ) (m : Deliver)
      → Traffic tag (started m) es acts
      → Traffic tag idle (frame now (method (Methods.deliver m)) ∷ es) acts
  heads :
      {m : Deliver} {es : List (Event P)} {acts : List (Action P)} (now : ℕ) (h : ContentHeader)
      → 0 < h.common.body_size
      → Traffic tag (collecting m h.basic_properties [] h.common.body_size) es acts
      → Traffic tag (started m) (frame now (content_header h) ∷ es) acts
  heads_empty :
      {m : Deliver} {es : List (Event P)} {acts : List (Action P)} (now : ℕ) (h : ContentHeader)
      → h.common.body_size ≡ 0
      → Traffic tag idle es acts
      → Traffic tag
          (started m)
          (frame now (content_header h) ∷ es)
          (received tag (message m h.basic_properties []) ++ acts)
  carries :
      {m : Deliver} {props : BasicProperties} {content : List ℕ} {remaining : ℕ}
      {es : List (Event P)} {acts : List (Action P)} (now : ℕ) (b : ContentBody)
      → length b.inner < remaining
      → Traffic tag (collecting m props (content ++ b.inner) (remaining - length b.inner)) es acts
      → Traffic tag (collecting m props content remaining) (frame now (content_body b) ∷ es) acts
  completes :
      {m : Deliver} {props : BasicProperties} {content : List ℕ} {remaining : ℕ}
      {es : List (Event P)} {acts : List (Action P)} (now : ℕ) (b : ContentBody)
      → length b.inner ≡ remaining
      → Traffic tag idle es acts
      → Traffic tag
          (collecting m props content remaining)
          (frame now (content_body b) ∷ es)
          (received tag (message m props (content ++ b.inner)) ++ acts)

module _ {P : Peers} where
  abbrev pub Agrees : Phase → ChannelDispatcher P → Type 0
  Agrees idle d = Unit {0}
  Agrees (started m) d = (d.state ≡ deliver) × (d.message_buffer.deliver ≡ some m)
  Agrees (collecting m props content remaining) d =
      (d.state ≡ deliver)
      × (d.message_buffer ≡ record {
        deliver = some m;
        basic_properties = some props;
        content = some content;
        remaining = remaining;
      })

  -- The events are taken without a panic, the task goes on, and the consumer is left as its
  -- actions leave it, with each message handed to the sender that they hand it to, in their order.
  pub record Delivers (tag : List ℕ) (es : List (Event P)) (d : ChannelDispatcher P)
      (acts : List (Action P)) : Type 0 where
    pub ran : Run P
    pub result : run es d ≡ done ran
    pub still_running : ran.exited ≡ false
    pub settled : Inv ran.last.consumer_resources
    pub followed :
        follow acts (subscriber tag d.consumer_resources)
        ≡ (subscriber tag ran.last.consumer_resources, handed tag ran.outputs)
