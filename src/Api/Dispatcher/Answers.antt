-- ===== src/Api/Dispatcher/Answers.antt =====
-- Returned messages and the answer to a `get`, through the main loop of
-- amqprs/src/api/channel/dispatcher.rs, where the frames come in a row.
use amqprs.Prelude.{
  ℕ, ◌-◌, ◌≡◌, refl, true, false, List, [], ◌∷◌, ◌++◌, append-nil, append_assoc, length,
  length-append, none, some, Outcome, done, leb, ◌==◌, if◌then◌else◌, arith, All,
}
use amqprs.Frame.Method.Basic.{Return, GetOk}
use amqprs.Frame.Methods
use amqprs.Frame.ContentHeader.{ContentHeader, BasicProperties}
use amqprs.Frame.Frames.{method, content_header, content_body}
use amqprs.Net.SplitConnection.Writer.{flatten}
use amqprs.Api.Dispatcher.{
  Peers, ChannelDispatcher, ReturnMessage, GetOkMessage, Output, return, get_ok, to_getter,
}
use amqprs.Api.Dispatcher.Consumers.{handle_return}
use amqprs.Api.Dispatcher.Contents.{header_return, body_return, header_get_ok, body_get_ok}
use amqprs.Api.Dispatcher.Frames.{role, handle_role, handle_frame}
use amqprs.Api.Dispatcher.Loop.{Run, step, run}
use amqprs.Api.Dispatcher.Contiguous.{IsPart, body_events, content_events}

abbrev collected : Return → BasicProperties → List ℕ → ℕ → ReturnMessage
collected r props content remaining = record {
  ret = some r;
  basic_properties = some props;
  content = some content;
  remaining = remaining;
}

abbrev cleared : ReturnMessage
cleared = record { ret = none; basic_properties = none; content = none; remaining = 0 }

module _ {P : Peers} where
  -- A task that waits for its next event.
  abbrev pub waits : ChannelDispatcher P → List (Output P) → Outcome (Run P)
  waits d out = done (record { last = d; outputs = out; exited = false })

  bodies_return :
      (now : ℕ) (r : Return) (props : BasicProperties) (chunk : List ℕ) (chunks : List (List ℕ))
      (content : List ℕ) (remaining : ℕ) (d : ChannelDispatcher P)
      → All IsPart (chunk ∷ chunks)
      → length (flatten (chunk ∷ chunks)) ≡ remaining
      → run
          (body_events now (chunk ∷ chunks))
          (record d { state = return; return_buffer = collected r props content remaining })
        ≡ waits
            (record d { state = return; return_buffer = cleared })
            (handle_return d.callback r props (content ++ flatten (chunk ∷ chunks)))
  unfolding run step handle_frame body_return
  bodies_return now r props chunk [] content remaining d a e =
      let size : length chunk ≡ remaining = omega (arith, length-append {0} {A = ℕ} chunk []) in
      let fits : leb (length chunk) remaining ≡ true = ground arith in
      let zero : remaining - length chunk ≡ 0 = omega arith in
      rw
        (
          fits,
          zero,
          append-nil chunk,
          append-nil (handle_return {P = P} d.callback r props (content ++ chunk)),
        )
        refl
  bodies_return now r props chunk (next ∷ chunks) content remaining d a e =
      let rest : List ℕ = flatten (next ∷ chunks) in
      let sizes = length-append {0} {A = ℕ} chunk rest in
      let others = length-append {0} {A = ℕ} next (flatten chunks) in
      let fits : leb (length chunk) remaining ≡ true = ground (arith, sizes) in
      let more : (remaining - length chunk == 0) ≡ false = ground (arith, sizes, others, a.1.0) in
      rw
        (
          fits,
          more,
          bodies_return now r props next chunks (content ++ chunk) (remaining - length chunk) d a.1
              (omega (arith, sizes)),
          append_assoc content chunk rest,
        )
        refl

  -- A returned message whose body comes in any nonempty parts of the announced size is handed to
  -- the callback once, whole, with its properties, or dropped where there is no callback; the task
  -- goes on, and has changed only its state and its buffer for returned messages, which holds no
  -- method.
  pub run-return :
      (now : ℕ) (r : Return) (h : ContentHeader) (chunks : List (List ℕ)) (d : ChannelDispatcher P)
      → All IsPart chunks
      → length (flatten chunks) ≡ h.common.body_size
      → (buffer : ReturnMessage) × (run (content_events now (Methods.return r) h chunks) d
          ≡ waits
              (record d { state = return; return_buffer = buffer })
              (handle_return d.callback r h.basic_properties (flatten chunks)))
        × (buffer.ret ≡ none)
  unfolding run step handle_frame header_return role handle_role
  run-return now r h [] d a e =
      let zero : h.common.body_size ≡ 0 = omega arith in
      (
        record d.return_buffer { ret = none; remaining = 0 },
        rw (zero, append-nil (handle_return {P = P} d.callback r h.basic_properties [])) refl,
        refl,
      )
  run-return now r h (chunk ∷ chunks) d a e =
      let nonzero : (h.common.body_size == 0) ≡ false =
        ground (arith, length-append {0} {A = ℕ} chunk (flatten chunks), a.0) in
      (
        cleared,
        rw
            (
              nonzero,
              bodies_return now r h.basic_properties chunk chunks [] h.common.body_size d a e,
            )
            refl,
        refl,
      )

  module _ (now : ℕ) (tx : P.GetTx) (h : ContentHeader) (d : ChannelDispatcher P)
      (alive : P.get_open now tx ≡ true) where
    bodies_get_ok :
        (chunk : List ℕ) (chunks : List (List ℕ)) (content : List ℕ) (remaining : ℕ)
        → All IsPart (chunk ∷ chunks)
        → length (flatten (chunk ∷ chunks)) ≡ remaining
        → run (body_events now (chunk ∷ chunks)) (record d {
          state = get_ok;
          get_content_responder = some tx;
          getok_content_buffer = record { content = some content; remaining = remaining };
        })
          ≡ waits
              (record d {
                state = get_ok;
                get_content_responder = none;
                getok_content_buffer = record { content = none; remaining = 0 };
              })
              (to_getter tx (content_body (record { inner = content ++ flatten (chunk ∷ chunks) }))
                ∷ [])
    unfolding run step handle_frame body_get_ok
    bodies_get_ok chunk [] content remaining a e =
        let size : length chunk ≡ remaining = omega (arith, length-append {0} {A = ℕ} chunk []) in
        let fits : leb (length chunk) remaining ≡ true = ground arith in
        let zero : remaining - length chunk ≡ 0 = omega arith in
        rw (fits, zero, append-nil chunk, alive) refl
    bodies_get_ok chunk (next ∷ chunks) content remaining a e =
        let rest : List ℕ = flatten (next ∷ chunks) in
        let sizes = length-append {0} {A = ℕ} chunk rest in
        let others = length-append {0} {A = ℕ} next (flatten chunks) in
        let fits : leb (length chunk) remaining ≡ true = ground (arith, sizes) in
        let more : (remaining - length chunk == 0) ≡ false = ground (arith, sizes, others, a.1.0) in
        rw
          (
            fits,
            more,
            bodies_get_ok next chunks (content ++ chunk) (remaining - length chunk) a.1
                (omega (arith, sizes)),
            append_assoc content chunk rest,
          )
          refl

    -- Where the caller of get waits, an answer whose body comes in any nonempty parts of the
    -- announced size brings it three frames, the method, the header and the whole body; its sender
    -- is used up if the body is not empty, and is kept if it is empty.
    pub run-get_ok :
        (g : GetOk) (chunks : List (List ℕ))
        → d.get_content_responder ≡ some tx
        → All IsPart chunks
        → length (flatten chunks) ≡ h.common.body_size
        → (buffer : GetOkMessage) × (run (content_events now (Methods.get_ok g) h chunks) d
            ≡ waits
                (record d {
                  state = get_ok;
                  get_content_responder = if h.common.body_size == 0 then some tx else none;
                  getok_content_buffer = buffer;
                })
                (to_getter tx (method (Methods.get_ok g))
                  ∷ (to_getter tx (content_header h)
                      ∷ (to_getter tx (content_body (record { inner = flatten chunks })) ∷ []))))
    unfolding run step handle_frame header_get_ok role handle_role
    run-get_ok g [] r a e =
        let zero : (h.common.body_size == 0) ≡ true = ground arith in
        (
          record d.getok_content_buffer { remaining = h.common.body_size },
          rw (r, alive, alive, zero) refl,
        )
    run-get_ok g (chunk ∷ chunks) r a e =
        let nonzero : (h.common.body_size == 0) ≡ false =
          ground (arith, length-append {0} {A = ℕ} chunk (flatten chunks), a.0) in
        (
          record { content = none; remaining = 0 },
          rw (r, alive, alive, nonzero, bodies_get_ok chunk chunks [] h.common.body_size a e) refl,
        )
