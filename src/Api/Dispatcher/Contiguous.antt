-- ===== src/Api/Dispatcher/Contiguous.antt =====
-- The frames of one message in a row, through the main loop of amqprs/src/api/channel/dispatcher.rs:
-- a body that was cut in any way comes out whole.
use amqprs.Prelude.{
  ℕ, ◌-◌, ◌<◌, ◌≡◌, refl, sym, subst, List, [], ◌∷◌, ◌++◌, append-nil, append_assoc, length,
  length-append, arith, All,
}
use amqprs.Frame.Method.Basic.{Deliver}
use amqprs.Frame.Methods
use amqprs.Frame.ContentHeader.{ContentHeader, BasicProperties}
use amqprs.Frame.Frames.{method, content_header, content_body}
use amqprs.Net.SplitConnection.Writer.{flatten}
use amqprs.Api.Dispatcher.{
  Peers, ChannelDispatcher, DispatcherManagementCommand, register_content_consumer,
}
use amqprs.Api.Dispatcher.Subscriber.{Action, received}
use amqprs.Api.Dispatcher.Resources.{Inv}
use amqprs.Api.Dispatcher.Loop.{Event, frame, command}
use amqprs.Api.Dispatcher.Commands.{command_actions}
use amqprs.Api.Dispatcher.Traffic.{
  started, collecting, message, Traffic, over, commanded, delivers, heads, heads_empty, carries,
  completes, idle, Delivers,
}
use amqprs.Api.Dispatcher.Delivery.{run-Delivers}

-- A body frame for each part.
abbrev pub body_events : {P : Peers} → ℕ → List (List ℕ) → List (Event P)
body_events now [] = []
body_events now (chunk ∷ chunks) =
    frame now (content_body (record { inner = chunk })) ∷ body_events now chunks

abbrev pub IsPart : List ℕ → Type 0
IsPart chunk = 0 < length chunk

abbrev pub content_events :
    {P : Peers} → ℕ → Methods.Method → ContentHeader → List (List ℕ) → List (Event P)
content_events now m h chunks =
    frame now (method m) ∷ (frame now (content_header h) ∷ body_events now chunks)

bodies-Traffic :
    {P : Peers} (tag : List ℕ) (now : ℕ) (m : Deliver) (props : BasicProperties) (chunk : List ℕ)
    (chunks : List (List ℕ)) (content : List ℕ) (remaining : ℕ)
    → All IsPart (chunk ∷ chunks)
    → length (flatten (chunk ∷ chunks)) ≡ remaining
    → Traffic {P = P} tag
        (collecting m props content remaining)
        (body_events now (chunk ∷ chunks))
        (received tag (message m props (content ++ flatten (chunk ∷ chunks))) ++ [])
bodies-Traffic {P} tag now m props chunk [] content remaining a e = rw (append-nil chunk) (
    completes now (record { inner = chunk }) (omega (arith, length-append {0} {A = ℕ} chunk []))
      over)
bodies-Traffic {P} tag now m props chunk (next ∷ chunks) content remaining a e =
    let rest : List ℕ = flatten (next ∷ chunks) in
    let sizes = length-append {0} {A = ℕ} chunk rest in
    let others = length-append {0} {A = ℕ} next (flatten chunks) in
    rw (← append_assoc content chunk rest) (
      carries now (record { inner = chunk }) (omega (arith, sizes, others, a.1.0))
        (bodies-Traffic tag now m props next chunks (content ++ chunk) (remaining - length chunk)
          a.1 (omega (arith, sizes))))

module _ {P : Peers} where
  -- The header and the parts of a body.
  parts-Traffic :
      (tag : List ℕ) (now : ℕ) (m : Deliver) (h : ContentHeader) (chunks : List (List ℕ))
      → All IsPart chunks
      → length (flatten chunks) ≡ h.common.body_size
      → Traffic {P = P} tag
          (started m)
          (frame now (content_header h) ∷ body_events now chunks)
          (received tag (message m h.basic_properties (flatten chunks)) ++ [])
  parts-Traffic tag now m h [] a e = heads_empty now h (sym e) over
  parts-Traffic tag now m h (chunk ∷ chunks) a e =
      heads now h (omega (arith, length-append {0} {A = ℕ} chunk (flatten chunks), a.0))
        (bodies-Traffic tag now m h.basic_properties chunk chunks [] h.common.body_size a e)

  -- A consumer registers, and then a message comes.
  pub run-deliver :
      (now : ℕ) (m : Deliver) (h : ContentHeader) (chunks : List (List ℕ)) (d : ChannelDispatcher P)
      → All IsPart chunks
      → length (flatten chunks) ≡ h.common.body_size
      → Inv d.consumer_resources
      → (tag name : List ℕ) (tx : P.ConsumerTx)
      → Delivers tag
          (command now (register_content_consumer name tx)
            ∷ content_events now (Methods.deliver m) h chunks)
          d
          (command_actions {P = P} tag (register_content_consumer name tx)
            ++ received tag (message m h.basic_properties (flatten chunks)))
  run-deliver now m h chunks d a e v tag name tx =
      let c : DispatcherManagementCommand P = register_content_consumer name tx in
      let one = received tag (message m h.basic_properties (flatten chunks)) in
      let es = command now c ∷ content_events now (Methods.deliver m) h chunks in
      subst (λ (l : List (Action P)). Delivers tag es d (command_actions tag c ++ l))
        (append-nil one)
        (run-Delivers tag idle es (command_actions tag c ++ (one ++ [])) d
          (commanded now c refl (delivers now m (parts-Traffic tag now m h chunks a e))) tt v)
