-- ===== src/Api/Dispatcher/Delivery.antt =====
-- Deliveries to the consumers of a channel, through the main loop of
-- amqprs/src/api/channel/dispatcher.rs.
use amqprs.Prelude.{
  ℕ, ◌-◌, ◌<◌, ◌≡◌, refl, sym, ◌∙◌, ap, true, false, List, [], ◌∷◌, ◌++◌, length, Option, none,
  some, Outcome, done, leb, ◌==◌, arith,
}
use amqprs.Frame.Method.Basic.{Deliver}
use amqprs.Frame.Methods
use amqprs.Frame.ContentHeader.{ContentHeader, BasicProperties}
use amqprs.Frame.Frames.{method, content_header, content_body, ContentBody}
use amqprs.Api.Dispatcher.{Peers, ConsumerMessage, ChannelDispatcher, Output, State, deliver}
use amqprs.Api.Dispatcher.Consumers.{forward_deliver}
use amqprs.Api.Dispatcher.Contents.{
  header_deliver, body_deliver, handle_content_header, handle_content_body,
}
use amqprs.Api.Dispatcher.Frames.{goes_on, proceed, role, handle_role, handle_frame}
use amqprs.Api.Dispatcher.Subscriber.{
  Subscriber, Action, Handover, received, follow, follow-append, subscriber, handed, handed-append,
}
use amqprs.Api.Dispatcher.Resources.{Resources, Inv, forward_deliver_lem}
use amqprs.Api.Dispatcher.Loop.{Event, command, frame, before, step, run}
use amqprs.Api.Dispatcher.Commands.{command_actions, handle_command_lem}
use amqprs.Api.Dispatcher.Traffic.{
  Phase, idle, started, collecting, message, Traffic, over, commanded, delivers, heads, heads_empty,
  carries, completes, Agrees, Delivers,
}

module _ {P : Peers} where
  continued :
      (tag : List ℕ) (e : Event P) (es : List (Event P)) (d d' : ChannelDispatcher P)
      (out : List (Output P)) (acts₁ acts₂ : List (Action P))
      → step e d ≡ done (d', out, proceed)
      → follow acts₁ (subscriber tag d.consumer_resources)
        ≡ (subscriber tag d'.consumer_resources, handed tag out)
      → Delivers tag es d' acts₂
      → Delivers tag (e ∷ es) d (acts₁ ++ acts₂)
  unfolding run
  continued tag e es d d' out acts₁ acts₂ p q g = record {
    ran = before out g.ran;
    result = rw (p, g.result) refl;
    still_running = g.still_running;
    settled = g.settled;
    followed =
        follow-append acts₁ acts₂ (subscriber tag d.consumer_resources)
        ∙ ap
            (λ (x : Subscriber P × List (Handover P)).
              ((follow acts₂ x.0).0, x.1 ++ (follow acts₂ x.0).1))
            q
        ∙ ap (λ (x : Subscriber P × List (Handover P)). (x.0, handed tag out ++ x.1)) g.followed
        ∙ ap (λ (l : List (Handover P)). (subscriber tag g.ran.last.consumer_resources, l))
            (sym (handed-append tag out g.ran.outputs));
  }

  body_deliver-more :
      (now : ℕ) (m : Deliver) (props : BasicProperties) (content : List ℕ) (remaining : ℕ)
      (b : ContentBody) (d : ChannelDispatcher P)
      → Agrees (collecting m props content remaining) d
      → length b.inner < remaining
      → body_deliver now b d
        ≡ done (
          record d {
            message_buffer = record {
              deliver = some m;
              basic_properties = some props;
              content = some (content ++ b.inner);
              remaining = remaining - length b.inner;
            };
          },
          [],
        )
  unfolding body_deliver
  body_deliver-more now m props content remaining b d a h =
      let fits : leb (length b.inner) remaining ≡ true = ground arith in
      let more : (remaining - length b.inner == 0) ≡ false = ground arith in
      rw (a.1, fits, more) refl

  body_deliver-last :
      (now : ℕ) (m : Deliver) (props : BasicProperties) (content : List ℕ) (remaining : ℕ)
      (b : ContentBody) (d : ChannelDispatcher P)
      → Agrees (collecting m props content remaining) d
      → length b.inner ≡ remaining
      → body_deliver now b d
        ≡ forward_deliver now (message m props (content ++ b.inner)) (record d {
          message_buffer = record {
            deliver = none;
            basic_properties = none;
            content = none;
            remaining = 0;
          };
        })
  unfolding body_deliver
  body_deliver-last now m props content remaining b d a h =
      let fits : leb (length b.inner) remaining ≡ true = ground arith in
      let zero : remaining - length b.inner ≡ 0 = omega arith in rw (a.1, fits, zero) refl

  header_deliver-empty :
      (now : ℕ) (m : Deliver) (h : ContentHeader) (d : ChannelDispatcher P)
      → Agrees (started m) d
      → h.common.body_size ≡ 0
      → header_deliver now h d
        ≡ forward_deliver now (message m h.basic_properties []) (record d {
          message_buffer = record d.message_buffer { deliver = none; remaining = 0 };
        })
  unfolding header_deliver
  header_deliver-empty now m h d a e = rw e (
      ap
        (λ (o : Option Deliver).
          forward_deliver now
            (record {
              deliver = o;
              basic_properties = some h.basic_properties;
              content = some [];
              remaining = 0;
            })
            (record d {
              message_buffer = record d.message_buffer { deliver = none; remaining = 0 };
            }))
        a.1)

  pub header_step :
      (now : ℕ) (h : ContentHeader) (d : ChannelDispatcher P)
      → d.state ≡ deliver
      → step (frame now (content_header h)) d ≡ goes_on (header_deliver now h d)
  unfolding step handle_frame
  header_step now h d e = ap (λ (s : State). goes_on (handle_content_header now s h d)) e

  pub body_step :
      (now : ℕ) (b : ContentBody) (d : ChannelDispatcher P)
      → d.state ≡ deliver
      → step (frame now (content_body b)) d ≡ goes_on (body_deliver now b d)
  unfolding step handle_frame
  body_step now b d e = ap (λ (s : State). goes_on (handle_content_body now s b d)) e

  Agrees-same :
      (phase : Phase) (d d' : ChannelDispatcher P)
      → d'.state ≡ d.state
      → d'.message_buffer ≡ d.message_buffer
      → Agrees phase d
      → Agrees phase d'
  Agrees-same idle d d' s b a = tt
  Agrees-same (started m) d d' s b a = (s ∙ a.0, ap (λ (x : ConsumerMessage). x.deliver) b ∙ a.1)
  Agrees-same (collecting m props content remaining) d d' s b a = (s ∙ a.0, b ∙ a.1)

  -- A message that is complete is forwarded from the state `d'`.
  forwarded :
      (tag : List ℕ) (e : Event P) (es : List (Event P)) (d d' : ChannelDispatcher P) (now : ℕ)
      (m : Deliver) (x : ConsumerMessage) (acts : List (Action P))
      → x.deliver ≡ some m
      → d'.consumer_resources ≡ d.consumer_resources
      → step e d ≡ goes_on (forward_deliver now x d')
      → Inv d'.consumer_resources
      → ((d'' : ChannelDispatcher P) → Inv d''.consumer_resources → Delivers tag es d'' acts)
      → Delivers tag (e ∷ es) d (received tag x ++ acts)
  forwarded tag e es d d' now m x acts named same p v rest =
      let (resources, out, f, v', q) = forward_deliver_lem now x m d' named v in
      let d'' : ChannelDispatcher P = record d' { consumer_resources = resources } in
      continued tag e es d d'' out (received tag x) acts
        (p ∙ ap (λ (o : Outcome (ChannelDispatcher P × List (Output P))). goes_on o) f)
        (ap (λ (r : Resources P). follow (received tag x) (subscriber tag r)) (sym same) ∙ q tag)
        (rest d'' v')

  -- Where the events are the frames of whole deliveries, from any point in one, with any commands
  -- between them, registrations and deregistrations of consumers included, acknowledgements are
  -- waited for and the resources satisfy their invariant, every consumer tag gets what its actions
  -- say: a message for it is handed, once and in order, to the sender that is registered at that
  -- time, or waits where there is none; a sender that registers takes the place of the one before
  -- and is handed what waits; what waits for a tag that is deregistered is dropped; nothing else
  -- is handed to it, the task neither panics nor ends, and the invariant holds behind the events.
  pub run-Delivers :
      (tag : List ℕ) (phase : Phase) (es : List (Event P)) (acts : List (Action P))
      (d : ChannelDispatcher P)
      → Traffic tag phase es acts
      → Agrees phase d
      → Inv d.consumer_resources
      → Delivers tag es d acts
  unfolding run step handle_frame header_deliver role handle_role
  run-Delivers tag _ _ _ d over a v = record {
    ran = record { last = d; outputs = []; exited = false };
    result = refl;
    still_running = refl;
    settled = v;
    followed = refl;
  }
  run-Delivers tag phase _ _ d (commanded {es} {acts} now c k t) a v =
      let (d', out, p, v', q, s, b) = handle_command_lem tag now c d k v in
      continued tag (command now c) es d d' out (command_actions tag c) acts (rw p refl) q
        (run-Delivers tag phase es acts d' t (Agrees-same phase d d' s b a) v')
  run-Delivers tag _ _ acts d (delivers {es} now m t) a v =
      let d' : ChannelDispatcher P = record d {
        state = deliver;
        message_buffer = record d.message_buffer { deliver = some m };
      } in
      continued tag (frame now (method (Methods.deliver m))) es d d' [] [] acts refl refl
        (run-Delivers tag (started m) es acts d' t (refl, refl) v)
  run-Delivers tag _ _ acts d (heads {m} {es} now h pos t) a v =
      let nonzero : (h.common.body_size == 0) ≡ false = ground arith in
      let d' : ChannelDispatcher P = record d {
        message_buffer = record {
          deliver = d.message_buffer.deliver;
          basic_properties = some h.basic_properties;
          content = some [];
          remaining = h.common.body_size;
        };
      } in
      continued tag (frame now (content_header h)) es d d' [] [] acts
        (header_step now h d a.0 ∙ rw nonzero refl) refl
        (run-Delivers tag (collecting m h.basic_properties [] h.common.body_size) es acts d' t
          (a.0, rw a.1 refl) v)
  run-Delivers tag _ _ _ d (heads_empty {m} {es} {acts} now h size t) a v =
      let d' : ChannelDispatcher P = record d {
        message_buffer = record d.message_buffer { deliver = none; remaining = 0 };
      } in
      forwarded tag (frame now (content_header h)) es d d' now m (message m h.basic_properties [])
        acts refl refl
        (header_step now h d a.0
          ∙ ap (λ (o : Outcome (ChannelDispatcher P × List (Output P))). goes_on o)
              (header_deliver-empty now m h d a size))
        v (λ d'' v'. run-Delivers tag idle es acts d'' t tt v')
  run-Delivers tag _ _ acts d (carries {m} {props} {content} {remaining} {es} now b lt t) a v =
      let d' : ChannelDispatcher P = record d {
        message_buffer = record {
          deliver = some m;
          basic_properties = some props;
          content = some (content ++ b.inner);
          remaining = remaining - length b.inner;
        };
      } in
      continued tag (frame now (content_body b)) es d d' [] [] acts
        (body_step now b d a.0
          ∙ ap (λ (o : Outcome (ChannelDispatcher P × List (Output P))). goes_on o)
              (body_deliver-more now m props content remaining b d a lt))
        refl
        (run-Delivers tag (collecting m props (content ++ b.inner) (remaining - length b.inner)) es
          acts d' t (a.0, refl) v)
  run-Delivers tag _ _ _ d (completes {m} {props} {content} {remaining} {es} {acts} now b size t) a
        v =
      let d' : ChannelDispatcher P = record d {
        message_buffer = record {
          deliver = none;
          basic_properties = none;
          content = none;
          remaining = 0;
        };
      } in
      forwarded tag (frame now (content_body b)) es d d' now m
        (message m props (content ++ b.inner)) acts refl refl
        (body_step now b d a.0
          ∙ ap (λ (o : Outcome (ChannelDispatcher P × List (Output P))). goes_on o)
              (body_deliver-last now m props content remaining b d a size))
        v (λ d'' v'. run-Delivers tag idle es acts d'' t tt v')
