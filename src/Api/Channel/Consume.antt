-- ===== src/Api/Channel/Consume.antt =====
-- The consumers of a channel, in amqprs/src/api/channel/basic.rs.
use amqprs.Prelude.{ℕ, Bool, not, false, List, [], ◌∷◌, Option, none, some, Outcome, unwrap}
use amqprs.Prelude
use amqprs.Serde.Types.{FieldTable, table_new}
use amqprs.Frame.Methods
use amqprs.Frame.Methods.{Method}
use amqprs.Frame.Method.Basic.{
  Consume, consume_set_no_local, consume_set_no_ack, consume_set_exclusive, consume_set_nowait,
  ConsumeOk, CancelOk, Deliver,
}
use amqprs.Frame.ContentHeader.{BasicProperties}
use amqprs.Net.ReaderHandler.{Parties}
use amqprs.Api.Dispatcher.{
  Peers, ConsumerMessage, register_content_consumer, deregister_content_consumer,
}
use amqprs.Api.Call.{Call, spawned, record_effect, returned, ◌>>=◌, ◌>>◌, return, send_command}
use amqprs.Api.Channel.{short, send_or_request, request_with}
use amqprs.Api.Channel.Answers.{for_consume, for_cancel}

pub record BasicConsumeArguments : Type 0 where
  pub queue : List ℕ
  pub consumer_tag : List ℕ
  pub no_local : Bool
  pub no_ack : Bool
  pub exclusive : Bool
  pub no_wait : Bool
  pub arguments : FieldTable

abbrev pub new_basic_consume : List ℕ → List ℕ → BasicConsumeArguments
new_basic_consume queue consumer_tag = record {
  queue = queue;
  consumer_tag = consumer_tag;
  no_local = false;
  no_ack = false;
  exclusive = false;
  no_wait = false;
  arguments = table_new;
}

pub record BasicCancelArguments : Type 0 where
  pub consumer_tag : List ℕ
  pub no_wait : Bool

abbrev pub new_basic_cancel : List ℕ → BasicCancelArguments
new_basic_cancel consumer_tag = record { consumer_tag = consumer_tag; no_wait = false }

abbrev pub auto_ack : Bool → BasicConsumeArguments → BasicConsumeArguments
auto_ack no_ack args = record args { no_ack = no_ack }

abbrev pub manual_ack : Bool → BasicConsumeArguments → BasicConsumeArguments
manual_ack value args = record args { no_ack = not value }

-- The tag of the response, or the given one where none is waited for.
abbrev pub consume_tag : List ℕ → Option ConsumeOk → List ℕ
consume_tag given none = given
consume_tag given (some m) = m.consumer_tag.text

abbrev pub cancel_tag : List ℕ → Option CancelOk → List ℕ
cancel_tag given none = given
cancel_tag given (some m) = m.consumer_tag.text

abbrev pub consume_flags : BasicConsumeArguments → Consume → Consume
consume_flags args m₀ =
    let m₁ = consume_set_no_local m₀ args.no_local in
    let m₂ = consume_set_no_ack m₁ args.no_ack in
    let m₃ = consume_set_exclusive m₂ args.exclusive in consume_set_nowait m₃ args.no_wait

module _ {P : Peers} {Q : Parties} where
  unfoldable pub request_basic_consume : ℕ → BasicConsumeArguments → Call P Q (List ℕ)
  unfolding request_with
  request_basic_consume channel_id args = do
    queue ← short args.queue
    consumer_tag ← short args.consumer_tag
    let m = consume_flags args (record {
      ticket = 0;
      queue = queue;
      consumer_tag = consumer_tag;
      bits = 0;
      arguments = args.arguments;
    })
    consume_ok ← send_or_request args.no_wait channel_id (Methods.consume m) for_consume
    return (consume_tag args.consumer_tag consume_ok)

  abbrev pub register_consumer : List ℕ → P.ConsumerTx → Call P Q (Unit {0})
  register_consumer consumer_tag tx = send_command (register_content_consumer consumer_tag tx)

  abbrev pub new_consumer : Call P Q P.ConsumerTx
  new_consumer w c = returned (w.consumer c.log) c

  -- The task of a consumer, blocking or not, is spawned before its sender is registered.
  unfoldable pub spawn_consumer : List ℕ → Call P Q (Unit {0})
  spawn_consumer consumer_tag = do
    tx ← new_consumer
    (λ w c. returned tt (record_effect (spawned consumer_tag) c))
    register_consumer consumer_tag tx

  unfoldable pub basic_consume : ℕ → BasicConsumeArguments → Call P Q (List ℕ)
  unfolding request_basic_consume spawn_consumer
  basic_consume channel_id args = do
    consumer_tag ← request_basic_consume channel_id args
    spawn_consumer consumer_tag
    return consumer_tag

  unfoldable pub basic_consume_rx : ℕ → BasicConsumeArguments → Call P Q (List ℕ × P.ConsumerTx)
  unfolding request_basic_consume
  basic_consume_rx channel_id args = do
    consumer_tag ← request_basic_consume channel_id args
    tx ← new_consumer
    register_consumer consumer_tag tx
    return (consumer_tag, tx)

  unfoldable pub basic_cancel : ℕ → BasicCancelArguments → Call P Q (List ℕ)
  unfolding request_with
  basic_cancel channel_id args = do
    consumer_tag ← short args.consumer_tag
    let m = Methods.cancel (record { consumer_tag = consumer_tag; no_wait = args.no_wait })
    cancel_ok ← send_or_request args.no_wait channel_id m for_cancel
    let tag = cancel_tag args.consumer_tag cancel_ok
    send_command (deregister_content_consumer tag)
    return tag

-- One turn of the loop of a consumer's task: `take().unwrap()` of the three parts.
unfoldable pub consume_message : ConsumerMessage → Outcome (Deliver × BasicProperties × List ℕ)
consume_message msg = Prelude.◌>>=◌ (unwrap msg.deliver) (λ d.
    Prelude.◌>>=◌ (unwrap msg.basic_properties)
      (λ p. Prelude.◌>>=◌ (unwrap msg.content) (λ content. Outcome.done (d, p, content))))

-- What the consumer is called with, until the sender is dropped.
unfoldable pub consumer_loop :
    List ConsumerMessage → Outcome (List (Deliver × BasicProperties × List ℕ))
unfolding consume_message
consumer_loop [] = Outcome.done []
consumer_loop (msg ∷ msgs) =
    Prelude.◌>>=◌ (consume_message msg)
      (λ call. Prelude.◌>>=◌ (consumer_loop msgs) (λ calls. Outcome.done (call ∷ calls)))
