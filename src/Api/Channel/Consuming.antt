-- ===== src/Api/Channel/Consuming.antt =====
-- The tasks of consumers in amqprs/src/api/channel/basic.rs, on what the task of the channel in
-- amqprs/src/api/channel/dispatcher.rs sends them.
use amqprs.Prelude.{
  ℕ, ◌≡◌, refl, Bool, true, false, List, [], ◌∷◌, Option, none, some, is_some, done, map, All,
  if◌then◌else◌,
}
use amqprs.Frame.Method.Basic.{Deliver}
use amqprs.Frame.ContentHeader.{BasicProperties}
use amqprs.Api.Dispatcher.{
  Peers, ConsumerMessage, Output, to_consumer, to_getter, to_responder, to_acker, to_server,
  call_close, call_flow, call_cancel, call_publish_return, call_publish_ack, call_publish_nack, new,
}
use amqprs.Api.Dispatcher.Loop.{Event, Run, run}
use amqprs.Api.Dispatcher.Whole.{IsWhole, AreWhole}
use amqprs.Api.Dispatcher.Whole.Runs.{run-new-AreWhole}
use amqprs.Api.Channel.Consume.{consume_message, consumer_loop}

-- The parts of a message, and those that a consumer is called with.
abbrev pub parts_of : ConsumerMessage → Option Deliver × Option BasicProperties × Option (List ℕ)
parts_of m = (m.deliver, m.basic_properties, m.content)

abbrev pub parts_called :
    Deliver × BasicProperties × List ℕ → Option Deliver × Option BasicProperties × Option (List ℕ)
parts_called (d, p, content) = (some d, some p, some content)

there : {A : Type 0} (o : Option A) → is_some o ≡ true → (a : A) × (o ≡ some a)
there none h = absurd (cc h)
there (some a) h = (a, refl)

consume_message_lem :
    (m : ConsumerMessage)
    → IsWhole m
    → (call : Deliver × BasicProperties × List ℕ) × (consume_message m ≡ done call)
      × (parts_called call ≡ parts_of m)
unfolding consume_message
consume_message_lem m h =
    let (d, hd) = there m.deliver h.has_deliver in
    let (p, hp) = there m.basic_properties h.has_properties in
    let (content, hc) = there m.content h.has_content in
    ((d, p, content), rw (hd, hp, hc) refl, rw (hd, hp, hc) refl)

pub consumer_loop_lem :
    (ms : List ConsumerMessage)
    → All IsWhole ms
    → (calls : List (Deliver × BasicProperties × List ℕ)) × (consumer_loop ms ≡ done calls)
      × (map parts_called calls ≡ map parts_of ms)
unfolding consumer_loop
consumer_loop_lem [] a = ([], refl, refl)
consumer_loop_lem (m ∷ ms) a =
    let (call, once, same) = consume_message_lem m a.0 in
    let (calls, rest, others) = consumer_loop_lem ms a.1 in
    (call ∷ calls, rw (once, rest) refl, rw (same, others) refl)

module _ {P : Peers} where
  -- The messages that are sent to the consumers that a test chooses.
  abbrev pub messages_for : (P.ConsumerTx → Bool) → List (Output P) → List ConsumerMessage
  messages_for mine [] = []
  messages_for mine (to_consumer tx m ∷ os) =
      let rest = messages_for mine os in if mine tx then m ∷ rest else rest
  messages_for mine (to_getter _ _ ∷ os) = messages_for mine os
  messages_for mine (to_responder _ _ ∷ os) = messages_for mine os
  messages_for mine (to_acker _ ∷ os) = messages_for mine os
  messages_for mine (to_server _ ∷ os) = messages_for mine os
  messages_for mine (call_close _ _ ∷ os) = messages_for mine os
  messages_for mine (call_flow _ _ ∷ os) = messages_for mine os
  messages_for mine (call_cancel _ _ ∷ os) = messages_for mine os
  messages_for mine (call_publish_return _ _ _ _ ∷ os) = messages_for mine os
  messages_for mine (call_publish_ack _ _ ∷ os) = messages_for mine os
  messages_for mine (call_publish_nack _ _ ∷ os) = messages_for mine os

  messages_for-IsWhole :
      (mine : P.ConsumerTx → Bool) (os : List (Output P))
      → AreWhole os
      → All IsWhole (messages_for mine os)
  messages_for-IsWhole mine [] a = tt
  messages_for-IsWhole mine (to_consumer tx m ∷ os) a =
      chosen (mine tx) (messages_for-IsWhole mine os a.1)
    where
      chosen :
          (b : Bool)
          → All IsWhole (messages_for mine os)
          → All IsWhole (if b then m ∷ messages_for mine os else messages_for mine os)
      chosen true rest = (a.0, rest)
      chosen false rest = rest
  messages_for-IsWhole mine (to_getter _ _ ∷ os) a = messages_for-IsWhole mine os a.1
  messages_for-IsWhole mine (to_responder _ _ ∷ os) a = messages_for-IsWhole mine os a.1
  messages_for-IsWhole mine (to_acker _ ∷ os) a = messages_for-IsWhole mine os a.1
  messages_for-IsWhole mine (to_server _ ∷ os) a = messages_for-IsWhole mine os a.1
  messages_for-IsWhole mine (call_close _ _ ∷ os) a = messages_for-IsWhole mine os a.1
  messages_for-IsWhole mine (call_flow _ _ ∷ os) a = messages_for-IsWhole mine os a.1
  messages_for-IsWhole mine (call_cancel _ _ ∷ os) a = messages_for-IsWhole mine os a.1
  messages_for-IsWhole mine (call_publish_return _ _ _ _ ∷ os) a = messages_for-IsWhole mine os a.1
  messages_for-IsWhole mine (call_publish_ack _ _ ∷ os) a = messages_for-IsWhole mine os a.1
  messages_for-IsWhole mine (call_publish_nack _ _ ∷ os) a = messages_for-IsWhole mine os a.1

  -- In every run of the task of a channel from its start, the loop of a consumer, given the
  -- messages that the task sent to any chosen senders, does not panic where it unwraps their
  -- parts, and calls the consumer with the parts of each message in their order.
  pub run-consumer_loop :
      (mine : P.ConsumerTx → Bool) (es : List (Event P)) (r : Run P)
      → run es (new P) ≡ done r
      → (calls : List (Deliver × BasicProperties × List ℕ)) × (consumer_loop
            (messages_for mine r.outputs)
          ≡ done calls)
        × (map parts_called calls ≡ map parts_of (messages_for mine r.outputs))
  run-consumer_loop mine es r ran =
      consumer_loop_lem (messages_for mine r.outputs)
        (messages_for-IsWhole mine r.outputs (run-new-AreWhole es r ran))
