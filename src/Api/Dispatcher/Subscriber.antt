-- ===== src/Api/Dispatcher/Subscriber.antt =====
-- A consumer of amqprs/src/api/channel/dispatcher.rs as its client sees it: the sender that is
-- registered, and the messages that wait for one. It says who is to be handed which message.
use amqprs.Prelude.{
  ℕ, ◌≡◌, refl, Bool, false, List, [], ◌∷◌, ◌++◌, append_assoc, Bool-cases, inl, inr, bytes_eq,
  Option, none, some, if◌then◌else◌, bytes_beq,
}
use amqprs.Prelude.Map.{lookup}
use amqprs.Frame.Method.Basic.{Deliver}
use amqprs.Api.Dispatcher.{
  Peers, ConsumerMessage, ConsumerResource, Output, to_consumer, to_getter, to_responder, to_acker,
  to_server, call_close, call_flow, call_cancel, call_publish_return, call_publish_ack,
  call_publish_nack,
}

abbrev pub is_for : List ℕ → Option Deliver → Bool
is_for tag none = false
is_for tag (some m) = bytes_beq m.consumer_tag.text tag

pub record Subscriber (P : Peers) : Type 0 where
  pub tx : Option P.ConsumerTx
  pub waiting : List ConsumerMessage

-- All messages with one sender.
abbrev pub hand_all : {A : Type 0} → A → List ConsumerMessage → List (A × ConsumerMessage)
hand_all t [] = []
hand_all t (m ∷ ms) = (t, m) ∷ hand_all t ms

-- What happens to a consumer.
pub data Action (P : Peers) : Type 0 where
  registers : P.ConsumerTx → Action P
  receives : ConsumerMessage → Action P
  leaves : Action P

-- A message with the sender that it is handed to.
abbrev pub Handover : Peers → Type 0
Handover P = P.ConsumerTx × ConsumerMessage

-- A message is received if it is for the consumer.
abbrev pub received : {P : Peers} → List ℕ → ConsumerMessage → List (Action P)
received tag message = if is_for tag message.deliver then receives message ∷ [] else []

module _ {P : Peers} where
  abbrev receive_by :
      Option P.ConsumerTx
      → List ConsumerMessage
      → ConsumerMessage
      → Subscriber P × List (Handover P)
  receive_by none waiting m = (record { tx = none; waiting = waiting ++ (m ∷ []) }, [])
  receive_by (some t) waiting m = (record { tx = some t; waiting = waiting }, (t, m) ∷ [])

  -- A sender that registers gets what waited; a message goes to the sender that is registered, and
  -- waits where there is none. What waits for a consumer that leaves is dropped.
  abbrev pub act : Action P → Subscriber P → Subscriber P × List (Handover P)
  act (registers t) s = (record { tx = some t; waiting = [] }, hand_all t s.waiting)
  act (receives m) s = receive_by s.tx s.waiting m
  act leaves s = (record { tx = none; waiting = [] }, [])

  -- The actions in their order.
  abbrev pub follow : List (Action P) → Subscriber P → Subscriber P × List (Handover P)
  follow [] s = (s, [])
  follow (a ∷ acts) s = ((follow acts (act a s).0).0, (act a s).1 ++ (follow acts (act a s).0).1)

  pub follow-append :
      (xs ys : List (Action P)) (s : Subscriber P)
      → follow (xs ++ ys) s
        ≡ ((follow ys (follow xs s).0).0, (follow xs s).1 ++ (follow ys (follow xs s).0).1)
  follow-append [] ys s = refl
  follow-append (a ∷ xs) ys s =
      let rest = follow-append xs ys (act a s).0 in
      rw
        (
          rest,
          append_assoc (act a s).1 (follow xs (act a s).0).1
              (follow ys (follow xs (act a s).0).0).1,
        )
        refl

  abbrev subscriber_of : Option (ConsumerResource P) → Subscriber P
  subscriber_of none = record { tx = none; waiting = [] }
  subscriber_of (some r) = record { tx = r.tx; waiting = r.fifo }

  -- The consumer of a tag.
  abbrev pub subscriber : List ℕ → List (List ℕ × ConsumerResource P) → Subscriber P
  subscriber tag resources = subscriber_of (lookup tag resources)

  -- The messages for a consumer with the senders that they were handed to, in their order.
  abbrev pub handed : List ℕ → List (Output P) → List (Handover P)
  handed tag [] = []
  handed tag (to_consumer tx m ∷ os) =
      let rest = handed tag os in if is_for tag m.deliver then (tx, m) ∷ rest else rest
  handed tag (to_getter _ _ ∷ os) = handed tag os
  handed tag (to_responder _ _ ∷ os) = handed tag os
  handed tag (to_acker _ ∷ os) = handed tag os
  handed tag (to_server _ ∷ os) = handed tag os
  handed tag (call_close _ _ ∷ os) = handed tag os
  handed tag (call_flow _ _ ∷ os) = handed tag os
  handed tag (call_cancel _ _ ∷ os) = handed tag os
  handed tag (call_publish_return _ _ _ _ ∷ os) = handed tag os
  handed tag (call_publish_ack _ _ ∷ os) = handed tag os
  handed tag (call_publish_nack _ _ ∷ os) = handed tag os

  pub handed-append :
      (tag : List ℕ) (xs ys : List (Output P))
      → handed tag (xs ++ ys) ≡ handed tag xs ++ handed tag ys
  handed-append tag [] ys = refl
  handed-append tag (to_consumer tx m ∷ os) ys = elim (Bool-cases (is_for tag m.deliver)) [
    | inl e ↦ rw (e, handed-append tag os ys) refl
    | inr e ↦ rw (e, handed-append tag os ys) refl
  ]
  handed-append tag (to_getter _ _ ∷ os) ys = handed-append tag os ys
  handed-append tag (to_responder _ _ ∷ os) ys = handed-append tag os ys
  handed-append tag (to_acker _ ∷ os) ys = handed-append tag os ys
  handed-append tag (to_server _ ∷ os) ys = handed-append tag os ys
  handed-append tag (call_close _ _ ∷ os) ys = handed-append tag os ys
  handed-append tag (call_flow _ _ ∷ os) ys = handed-append tag os ys
  handed-append tag (call_cancel _ _ ∷ os) ys = handed-append tag os ys
  handed-append tag (call_publish_return _ _ _ _ ∷ os) ys = handed-append tag os ys
  handed-append tag (call_publish_ack _ _ ∷ os) ys = handed-append tag os ys
  handed-append tag (call_publish_nack _ _ ∷ os) ys = handed-append tag os ys
