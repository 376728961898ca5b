-- ===== src/Api/Dispatcher/Commands.antt =====
-- What the commands of amqprs/src/api/channel/dispatcher.rs do to the messages of a consumer.
use amqprs.Prelude.{
  ℕ, ◌≡◌, refl, sym, ◌∙◌, ap, Bool, true, Bool-cases, List, [], ◌∷◌, append-nil, Option, none, some,
  Option-cases, inl, inr, done, if◌then◌else◌, All, bytes_beq, bytes_beq_iff, bytes_eq,
}
use amqprs.Prelude.Map.{lookup, insert, remove, lookup-remove}
use amqprs.Frame.MethodHeader.{header_eq}
use amqprs.Frame.Method.Basic.{Deliver}
use amqprs.Api.Dispatcher.{
  Peers, ConsumerMessage, ConsumerResource, ChannelDispatcher, Output, to_acker,
  DispatcherManagementCommand, register_content_consumer, deregister_content_consumer,
  register_get_content_responder, register_oneshot_responder, register_channel_callback,
}
use amqprs.Api.Dispatcher.Consumers.{get_or_new_consumer_resource, put_consumer_resource}
use amqprs.Api.Dispatcher.Subscriber.{
  is_for, Action, registers, leaves, Handover, hand_all, follow, subscriber, handed,
}
use amqprs.Api.Dispatcher.Resources.{
  IsFor, Settled, Inv, insert-Inv, remove-Inv, follow-put, neither, new_consumer_resource-Settled,
  registered-Settled,
}
use amqprs.Api.Dispatcher.Loop.{drain, handle_command}

-- A command whose caller waits for the acknowledgement, if it has one.
abbrev pub is_awaited : {P : Peers} → ℕ → DispatcherManagementCommand P → Bool
is_awaited now (register_content_consumer t tx) = true
is_awaited now (deregister_content_consumer t) = true
is_awaited now (register_get_content_responder tx) = true
is_awaited {P} now (register_oneshot_responder header responder acker) = P.acker_open now acker
is_awaited now (register_channel_callback cb) = true

-- What a command is to a consumer.
abbrev pub command_actions : {P : Peers} → List ℕ → DispatcherManagementCommand P → List (Action P)
command_actions tag (register_content_consumer t tx) =
    if bytes_beq t tag then registers tx ∷ [] else []
command_actions tag (deregister_content_consumer t) = if bytes_beq t tag then leaves ∷ [] else []
command_actions tag (register_get_content_responder tx) = []
command_actions tag (register_oneshot_responder header responder acker) = []
command_actions tag (register_channel_callback cb) = []

is_for_lem :
    (tag₀ tag : List ℕ) (o : Option Deliver)
    → is_for tag₀ o ≡ true
    → is_for tag o ≡ bytes_beq tag₀ tag
is_for_lem tag₀ tag none h = cc
is_for_lem tag₀ tag (some m) h =
    ap (λ (t : List ℕ). bytes_beq t tag) ((bytes_beq_iff m.consumer_tag.text tag₀).0 h)

handed-drain :
    (P : Peers) (tag₀ tag : List ℕ) (tx : P.ConsumerTx) (messages : List ConsumerMessage)
    → All (IsFor tag₀) messages
    → handed {P = P} tag (drain tx messages)
      ≡ (if bytes_beq tag₀ tag then hand_all tx messages else [])
handed-drain P tag₀ tag tx [] a = sym (neither (bytes_beq tag₀ tag))
handed-drain P tag₀ tag tx (message ∷ messages) a =
    let next = handed-drain P tag₀ tag tx messages a.1 in
    let this = is_for_lem tag₀ tag message.deliver a.0 in
    elim (Bool-cases (bytes_beq tag₀ tag)) [
      | inl e ↦ rw (this, next, e) refl
      | inr e ↦ rw (this, next, e) refl
    ]

module _ {P : Peers} where
  pub resource-Settled :
      (now : ℕ) (tag : List ℕ) (d : ChannelDispatcher P)
      → Inv d.consumer_resources
      → Settled tag (get_or_new_consumer_resource now tag d)
        × ((get_or_new_consumer_resource now tag d).fifo
            ≡ (subscriber tag d.consumer_resources).waiting)
  resource-Settled now tag d v = elim (Option-cases (lookup tag d.consumer_resources)) [
    | inl n ↦ (rw n (new_consumer_resource-Settled tag now), rw n refl)
    | inr (r, f) ↦ (rw f (v tag r f), rw f refl)
  ]

  -- The frame that is being put together does not change, ...
  pub handle_command_lem :
      (tag : List ℕ) (now : ℕ) (c : DispatcherManagementCommand P) (d : ChannelDispatcher P)
      → is_awaited now c ≡ true
      → Inv d.consumer_resources
      → (d' : ChannelDispatcher P) × (out : List (Output P)) × (handle_command now c d
          ≡ done (d', out))
        × Inv d'.consumer_resources
        × (follow (command_actions tag c) (subscriber tag d.consumer_resources)
            ≡ (subscriber tag d'.consumer_resources, handed tag out))
        × (d'.state ≡ d.state)
        × (d'.message_buffer ≡ d.message_buffer)
  unfolding handle_command
  handle_command_lem tag now (register_content_consumer t tx) d k v =
      let consumer : ConsumerResource P = get_or_new_consumer_resource now t d in
      let (settled, same) = resource-Settled now t d v in
      let emptied : ConsumerResource P = record consumer {
        tx = some tx;
        expiration = none;
        fifo = [];
      } in
      (
        put_consumer_resource t emptied d,
        drain tx consumer.fifo,
        refl,
        insert-Inv d.consumer_resources t emptied v (registered-Settled t tx),
        follow-put d.consumer_resources t tag emptied (registers tx ∷ [])
              (hand_all tx consumer.fifo)
              (rw (← same) (
                ap (λ (l : List (Handover P)). (record { tx = some tx; waiting = [] }, l))
                  (append-nil (hand_all tx consumer.fifo))))
            ∙ ap
                (λ (l : List (Handover P)).
                  (subscriber tag (insert t emptied d.consumer_resources), l))
                (sym (handed-drain P t tag tx consumer.fifo settled.addressed)),
        refl,
        refl,
      )
  handle_command_lem tag now (deregister_content_consumer t) d k v = (
    record d { consumer_resources = remove t d.consumer_resources },
    [],
    refl,
    remove-Inv d.consumer_resources t v,
    elim (Bool-cases (bytes_beq t tag)) [
      | inl e ↦ rw (lookup-remove t tag d.consumer_resources, e) refl
      | inr e ↦ rw (lookup-remove t tag d.consumer_resources, e) refl
    ],
    refl,
    refl,
  )
  handle_command_lem tag now (register_get_content_responder tx) d k v =
      (record d { get_content_responder = some tx }, [], refl, v, refl, refl, refl)
  handle_command_lem tag now (register_oneshot_responder header responder acker) d k v = (
    record d { responders = insert header responder d.responders },
    to_acker acker ∷ [],
    rw k refl,
    v,
    refl,
    refl,
    refl,
  )
  handle_command_lem tag now (register_channel_callback cb) d k v =
      (record d { callback = some cb }, [], refl, v, refl, refl, refl)
