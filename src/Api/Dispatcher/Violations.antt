-- ===== src/Api/Dispatcher/Violations.antt =====
-- Frames that break the protocol, through the main loop of amqprs/src/api/channel/dispatcher.rs: the
-- task panics.
use amqprs.Prelude.{
  ℕ, ◌+◌, ◌-◌, ◌<◌, ◌≤◌, ◌≡◌, refl, ◌∙◌, ap, Bool-cases, Option-cases, ◌⊎◌, inl, inr, List, [], ◌∷◌,
  ◌++◌, length, length-append, none, some, Outcome, done, panic, leb, ◌==◌, arith,
}
use amqprs.Frame.Method.Basic.{Deliver}
use amqprs.Frame.Methods
use amqprs.Frame.ContentHeader.{ContentHeader}
use amqprs.Frame.Frames.{method, content_header, content_body, ContentBody}
use amqprs.Net.SplitConnection.Writer.{flatten}
use amqprs.Api.Dispatcher.{
  Peers, ChannelDispatcher, ConsumerMessage, ConsumerResource, Output, deliver,
}
use amqprs.Api.Dispatcher.Consumers.{
  get_or_new_consumer_resource, put_consumer_resource, forward, forward_deliver,
}
use amqprs.Api.Dispatcher.Contents.{header_deliver, body_deliver}
use amqprs.Api.Dispatcher.Frames.{Handled, goes_on, proceed, role, handle_role, handle_frame}
use amqprs.Api.Dispatcher.Loop.{Event, frame, step, run}
use amqprs.Api.Dispatcher.Delivery.{header_step, body_step}
use amqprs.Api.Dispatcher.Contiguous.{body_events, content_events}

module _ {P : Peers} where
  abbrev goes : Outcome (ChannelDispatcher P × List (Output P)) → Handled P
  goes o = goes_on o

  forward_deliver-unnamed :
      (now : ℕ) (x : ConsumerMessage) (d : ChannelDispatcher P)
      → x.deliver ≡ none
      → forward_deliver now x d ≡ panic
  unfolding forward_deliver
  forward_deliver-unnamed now x d n = rw n refl

  forward_deliver-keeps :
      (now : ℕ) (x : ConsumerMessage) (d : ChannelDispatcher P)
      → (forward_deliver now x d ≡ panic)
        ⊎ ((d' : ChannelDispatcher P) × (out : List (Output P)) × (forward_deliver now x d
              ≡ done (d', out))
            × (d'.state ≡ d.state)
            × (d'.message_buffer ≡ d.message_buffer))
  unfolding forward_deliver
  forward_deliver-keeps now x d = elim (Option-cases x.deliver) [
    | inl n ↦ inl (rw n refl)
    | inr (m, n) ↦
        let r : ConsumerResource P = get_or_new_consumer_resource now m.consumer_tag.text d in
        inr (
          put_consumer_resource m.consumer_tag.text (forward r.tx x r).0 d,
          (forward r.tx x r).1,
          rw n refl,
          refl,
          refl,
        )
  ]

  run-step_panic :
      (e : Event P) (es : List (Event P)) (d : ChannelDispatcher P)
      → step e d ≡ panic
      → run (e ∷ es) d ≡ panic
  unfolding run
  run-step_panic e es d p = rw p refl

  run-step_then_panic :
      (e : Event P) (es : List (Event P)) (d d' : ChannelDispatcher P) (out : List (Output P))
      → step e d ≡ done (d', out, proceed)
      → run es d' ≡ panic
      → run (e ∷ es) d ≡ panic
  unfolding run
  run-step_then_panic e es d d' out p q = rw (p, q) refl

  -- What a body frame leaves, where it does not panic.
  body_deliver-cases :
      (now : ℕ) (b : ContentBody) (d : ChannelDispatcher P)
      → (body_deliver now b d ≡ panic)
        ⊎ ((d' : ChannelDispatcher P) × (out : List (Output P)) × (body_deliver now b d
              ≡ done (d', out))
            × (d'.state ≡ d.state)
            × (d'.message_buffer.remaining + length b.inner ≡ d.message_buffer.remaining)
            × (d.message_buffer.deliver ≡ none
                → (d'.message_buffer.deliver ≡ none) × (0 < d'.message_buffer.remaining)))
  unfolding body_deliver
  body_deliver-cases now b d = elim (Option-cases d.message_buffer.content) [
    | inl n ↦ inl (rw n refl)
    | inr (content, n) ↦ elim (Bool-cases (leb (length b.inner) d.message_buffer.remaining)) [
      | inr over ↦ inl (rw (n, over) refl)
      | inl fits ↦ elim (Bool-cases (d.message_buffer.remaining - length b.inner == 0)) [
        | inr more ↦ inr (
          record d {
            message_buffer = record d.message_buffer {
              content = some (content ++ b.inner);
              remaining = d.message_buffer.remaining - length b.inner;
            };
          },
          [],
          rw (n, fits, more) refl,
          refl,
          ground arith,
          λ h. (h, ground arith),
        )
        | inl last ↦
            let x : ConsumerMessage = record {
              deliver = d.message_buffer.deliver;
              basic_properties = d.message_buffer.basic_properties;
              content = some (content ++ b.inner);
              remaining = d.message_buffer.remaining - length b.inner;
            } in
            let d₁ : ChannelDispatcher P = record d {
              message_buffer = record {
                deliver = none;
                basic_properties = none;
                content = none;
                remaining = d.message_buffer.remaining - length b.inner;
              };
            } in
            elim (Option-cases d.message_buffer.deliver) [
              | inl e ↦ inl (rw (n, fits, last) (forward_deliver-unnamed now x d₁ e))
              | inr (m, e) ↦ elim (forward_deliver-keeps now x d₁) [
                | inl p ↦ inl (rw (n, fits, last) p)
                | inr (d', out, p, s, q) ↦
                    inr (
                      d',
                      out,
                      rw (n, fits, last) p,
                      s,
                      rw q (ground arith),
                      λ h. absurd (cc (h, e)),
                    )
              ]
            ]
      ]
    ]
  ]

  -- Body frames with more bytes than are to come.
  bodies-overrun :
      (now : ℕ) (chunks : List (List ℕ)) (d : ChannelDispatcher P)
      → d.state ≡ deliver
      → d.message_buffer.remaining < length (flatten chunks)
      → run (body_events now chunks) d ≡ panic
  bodies-overrun now [] d s h = absurd (omega arith)
  bodies-overrun now (chunk ∷ chunks) d s h =
      let b : ContentBody = record { inner = chunk } in
      let e : Event P = frame now (content_body b) in
      elim (body_deliver-cases now b d) [
        | inl p ↦ run-step_panic e (body_events now chunks) d (body_step now b d s ∙ ap goes p)
        | inr (d', out, p, s', left, _) ↦
            run-step_then_panic e (body_events now chunks) d d' out
              (body_step now b d s ∙ ap goes p)
              (bodies-overrun now chunks d' (s' ∙ s)
                (omega (arith, length-append {0} {A = ℕ} chunk (flatten chunks))))
      ]

  -- Body frames up to the last byte, where no method has announced them.
  bodies-orphan :
      (now : ℕ) (chunks : List (List ℕ)) (d : ChannelDispatcher P)
      → d.state ≡ deliver
      → d.message_buffer.deliver ≡ none
      → 0 < d.message_buffer.remaining
      → d.message_buffer.remaining ≤ length (flatten chunks)
      → run (body_events now chunks) d ≡ panic
  bodies-orphan now [] d s n pos h = absurd (omega arith)
  bodies-orphan now (chunk ∷ chunks) d s n pos h =
      let b : ContentBody = record { inner = chunk } in
      let e : Event P = frame now (content_body b) in
      elim (body_deliver-cases now b d) [
        | inl p ↦ run-step_panic e (body_events now chunks) d (body_step now b d s ∙ ap goes p)
        | inr (d', out, p, s', left, kept) ↦
            let (n', pos') = kept n in
            run-step_then_panic e (body_events now chunks) d d' out
              (body_step now b d s ∙ ap goes p)
              (bodies-orphan now chunks d' (s' ∙ s) n' pos'
                (omega (arith, length-append {0} {A = ℕ} chunk (flatten chunks))))
      ]

  header_deliver-cases :
      (now : ℕ) (h : ContentHeader) (d : ChannelDispatcher P)
      → (header_deliver now h d ≡ panic)
        ⊎ ((d' : ChannelDispatcher P) × (out : List (Output P)) × (header_deliver now h d
              ≡ done (d', out))
            × (d'.state ≡ d.state)
            × (d'.message_buffer.remaining ≡ h.common.body_size)
            × (d.message_buffer.deliver ≡ none
                → (d'.message_buffer.deliver ≡ none) × (0 < d'.message_buffer.remaining)))
  unfolding header_deliver
  header_deliver-cases now h d = elim (Bool-cases (h.common.body_size == 0)) [
    | inr more ↦ inr (
      record d {
        message_buffer = record d.message_buffer {
          basic_properties = some h.basic_properties;
          content = some [];
          remaining = h.common.body_size;
        };
      },
      [],
      rw more refl,
      refl,
      refl,
      λ n. (n, ground arith),
    )
    | inl empty ↦
        let x : ConsumerMessage = record {
          deliver = d.message_buffer.deliver;
          basic_properties = some h.basic_properties;
          content = some [];
          remaining = 0;
        } in
        let d₁ : ChannelDispatcher P = record d {
          message_buffer = record d.message_buffer { deliver = none; remaining = 0 };
        } in
        elim (Option-cases d.message_buffer.deliver) [
          | inl n ↦ inl (rw empty (forward_deliver-unnamed now x d₁ n))
          | inr (m, n) ↦ elim (forward_deliver-keeps now x d₁) [
            | inl p ↦ inl (rw empty p)
            | inr (d', out, p, s, q) ↦
                inr (d', out, rw empty p, s, rw q (ground arith), λ none'. absurd (cc (none', n)))
          ]
        ]
  ]

  -- A delivery whose body frames hold more bytes than its header announces ends in a panic of the
  -- task.
  pub run-overrun :
      (now : ℕ) (m : Deliver) (h : ContentHeader) (chunks : List (List ℕ)) (d : ChannelDispatcher P)
      → h.common.body_size < length (flatten chunks)
      → run (content_events now (Methods.deliver m) h chunks) d ≡ panic
  unfolding step handle_frame role handle_role
  run-overrun now m h chunks d lt =
      let d₁ : ChannelDispatcher P = record d {
        state = deliver;
        message_buffer = record d.message_buffer { deliver = some m };
      } in
      let rest = body_events now chunks in
      let e : Event P = frame now (content_header h) in
      run-step_then_panic (frame now (method (Methods.deliver m))) (e ∷ rest) d d₁ [] refl
        (elim (header_deliver-cases now h d₁) [
          | inl p ↦ run-step_panic e rest d₁ (header_step now h d₁ refl ∙ ap goes p)
          | inr (d', out, p, s, size, _) ↦
              run-step_then_panic e rest d₁ d' out (header_step now h d₁ refl ∙ ap goes p)
                (bodies-overrun now chunks d' s (omega arith))
        ])

  -- In the state of a delivery, with no method in the buffer, a header with at least as many bytes
  -- of body frames as it announces ends in a panic of the task.
  pub run-orphan :
      (now : ℕ) (h : ContentHeader) (chunks : List (List ℕ)) (d : ChannelDispatcher P)
      → d.state ≡ deliver
      → d.message_buffer.deliver ≡ none
      → h.common.body_size ≤ length (flatten chunks)
      → run (frame now (content_header h) ∷ body_events now chunks) d ≡ panic
  run-orphan now h chunks d s n le =
      let rest = body_events now chunks in
      let e : Event P = frame now (content_header h) in
      elim (header_deliver-cases now h d) [
        | inl p ↦ run-step_panic e rest d (header_step now h d s ∙ ap goes p)
        | inr (d', out, p, s', size, kept) ↦
            let (n', pos) = kept n in
            run-step_then_panic e rest d d' out (header_step now h d s ∙ ap goes p)
              (bodies-orphan now chunks d' (s' ∙ s) n' pos (omega arith))
      ]
