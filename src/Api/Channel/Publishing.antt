-- ===== src/Api/Channel/Publishing.antt =====
-- A message from `basic_publish` of amqprs/src/api/channel/basic.rs to a consumer of another client.
use amqprs.Prelude.{
  ℕ, ◌<◌, ◌≤◌, ◌^◌, ◌≡◌, refl, true, List, ◌∷◌, [], ◌++◌, ◌+◌, length, ltb, lt→ltb,
}
use amqprs.Serde.Types.{ShortStr, short_str}
use amqprs.Frame.Method.Basic.{Publish, Deliver}
use amqprs.Frame.Methods
use amqprs.Frame.ContentHeader.{ContentHeader, BasicProperties}
use amqprs.Frame.Frames.{Frame, method, content_header, ContentBody, publish_combo, ser_frame}
use amqprs.Frame.Decode.{ok}
use amqprs.Frame.Stream.{encode}
use amqprs.Net.SplitConnection.{write_frame}
use amqprs.Net.SplitConnection.Writer.{encode_chunks}
use amqprs.Net.ReaderHandler.{Parties}
use amqprs.Api.Dispatcher.{Peers, ChannelDispatcher, register_content_consumer}
use amqprs.Api.Dispatcher.Resources.{Inv}
use amqprs.Api.Dispatcher.Subscriber.{received}
use amqprs.Api.Dispatcher.Commands.{command_actions}
use amqprs.Api.Dispatcher.Loop.{command}
use amqprs.Api.Dispatcher.Traffic.{message, Delivers}
use amqprs.Api.Dispatcher.Contiguous.{content_events}
use amqprs.Api.Dispatcher.Published.{write_frame-run}
use amqprs.Api.Call.{Caller, World, returned, outgoing}
use amqprs.Api.Channel.Flags.{weight, publish_flags_lem}
use amqprs.Api.Channel.Basic.{BasicPublishArguments, publish_flags, basic_publish}

-- The method and the header of a publication.
abbrev pub short_name : List ℕ → ShortStr
short_name s = record { len = length s; text = s }

abbrev pub published : BasicPublishArguments → Publish
published args = record {
  ticket = 0;
  exchange = short_name args.exchange;
  routing_key = short_name args.routing_key;
  bits = weight 1 args.mandatory + weight 2 args.immediate;
}

abbrev pub heading : BasicProperties → List ℕ → ContentHeader
heading basic_properties content = record {
  common = record { class = 60; weight = 0; body_size = length content };
  basic_properties = basic_properties;
}

module _ {P R : Peers} {Q : Parties} where
  -- From a publication to the consumer of another client: with names below 2 ^ 8 bytes, frame_max
  -- at least 9 and below 2 ^ 32, the payloads of the method and of the header below 2 ^ 32 bytes,
  -- and a channel of tokio that takes the frame, basic_publish sends one frame, with the flags of
  -- the arguments in its method, and the writer cuts it into the method, the header and parts of
  -- the body; where a dispatcher whose resources satisfy their invariant gets the registration of
  -- a sender under any name and then a delivery method with these parts, each consumer tag gets
  -- what its actions say: the sender is handed what waited, if the tag is its name, and then, if
  -- the tag is that of the delivery, the sender that is registered for it is handed one message
  -- with the properties and the whole content, which waits where there is none.
  pub basic_publish-delivered :
      (channel_id frame_max : ℕ) (props : BasicProperties) (content : List ℕ)
      (args : BasicPublishArguments) (w : World P Q) (c : Caller P Q)
      → length args.exchange < 2 ^ 8
      → length args.routing_key < 2 ^ 8
      → w.takes_frame c.log ≡ true
      → 9 ≤ frame_max
      → frame_max < 2 ^ 32
      → length (ser_frame (method (Methods.publish (published args)))) < 2 ^ 32
      → length (ser_frame (content_header (heading props content))) < 2 ^ 32
      → (now : ℕ) (m : Deliver) (d : ChannelDispatcher R) → Inv d.consumer_resources
      → (f : Frame) × (chunks : List (List ℕ)) × (basic_publish channel_id props content args w c
          ≡ returned tt (record c { log = outgoing channel_id f ∷ c.log }))
        × (write_frame [] channel_id f frame_max
            ≡ ok (
                (encode channel_id (method (Methods.publish (published args)))
                  ++ encode channel_id (content_header (heading props content)))
                ++ encode_chunks channel_id chunks))
        × ((tag name : List ℕ) (tx : R.ConsumerTx)
            → Delivers tag
                (command now (register_content_consumer name tx)
                  ∷ content_events now (Methods.deliver m) (heading props content) chunks)
                d
                (command_actions {P = R} tag (register_content_consumer name tx)
                  ++ received tag (message m props content)))
  unfolding basic_publish short_str
  basic_publish-delivered channel_id frame_max props content args w c fe fk taken lo hi hp hh now m
        d v =
      let body : ContentBody = record { inner = content } in
      let f : Frame = publish_combo (published args) (heading props content) body in
      let (chunks, wrote, delivers) =
        write_frame-run channel_id frame_max (published args) (heading props content) body lo hi hp
          hh refl now m d v in
      let exchange : ltb (length args.exchange) (2 ^ 8) ≡ true = lt→ltb _ _ fe in
      let routing_key : ltb (length args.routing_key) (2 ^ 8) ≡ true = lt→ltb _ _ fk in
      let flags : publish_flags args (record (published args) { bits = 0 }) ≡ published args =
        publish_flags_lem args (published args) in
      (f, chunks, rw (exchange, routing_key, flags, taken) refl, wrote, delivers)
