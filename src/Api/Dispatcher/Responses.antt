-- ===== src/Api/Dispatcher/Responses.antt =====
-- Responses to the calls of a channel, and the end of a channel, through the main loop of
-- amqprs/src/api/channel/dispatcher.rs.
use amqprs.Prelude.{
  ℕ, ◌≡◌, refl, ◌∙◌, true, false, List, [], ◌∷◌, Option-cases, Bool-cases, inl, inr, Option, none,
  some, done, panic, if◌then◌else◌,
}
use amqprs.Prelude.Map.{lookup, insert, remove, lookup-insert, lookup-remove}
use amqprs.Frame.MethodHeader.{MethodHeader, header_eq, header_beq, header_beq_iff}
use amqprs.Frame.Method.Channel.{CloseChannel}
use amqprs.Frame.Methods
use amqprs.Frame.Methods.{Method, method_header}
use amqprs.Frame.Frames.{method}
use amqprs.Api.Dispatcher.{
  Peers, ChannelDispatcher, Output, to_acker, to_responder, to_server, call_close,
  register_oneshot_responder,
}
use amqprs.Api.Dispatcher.Frames.{
  proceed, response, role, handle_role, handle_response, handle_close, handle_frame,
}
use amqprs.Api.Dispatcher.Loop.{Event, command, frame, handle_command, step, run}
use amqprs.Api.Dispatcher.Answers.{waits}

module _ {P : Peers} where
  respond_lem :
      (now : ℕ) (m : Method) (responder : P.Responder) (d : ChannelDispatcher P)
      → role m ≡ response
      → lookup (method_header m) d.responders ≡ some responder
      → step (frame now (method m)) d
        ≡ done (
          record d { responders = remove (method_header m) d.responders },
          to_responder responder (method m) ∷ [],
          proceed,
        )
  unfolding step handle_frame handle_role handle_response
  respond_lem now m responder d r e = rw (r, e) refl

  registers_lem :
      (now : ℕ) (h : MethodHeader) (responder : P.Responder) (acker : P.Acker)
      (d : ChannelDispatcher P)
      → P.acker_open now acker ≡ true
      → step (command now (register_oneshot_responder h responder acker)) d
        ≡ done (
          record d { responders = insert h responder d.responders },
          to_acker acker ∷ [],
          proceed,
        )
  unfolding step handle_command
  registers_lem now h responder acker d alive = rw alive refl

  unanswered :
      (now : ℕ) (m : Method) (d : ChannelDispatcher P)
      → role m ≡ response
      → lookup (method_header m) d.responders ≡ none
      → step (frame now (method m)) d ≡ panic
  unfolding step handle_frame handle_role handle_response
  unanswered now m d r e = rw (r, e) refl

  -- A responder that is registered for the header of a response is acknowledged, gets the first
  -- such response, and is used up, so that a second response is a panic, where the acknowledgement
  -- is waited for.
  pub run-response :
      (now : ℕ) (m : Method) (responder : P.Responder) (acker : P.Acker) (d : ChannelDispatcher P)
      → role m ≡ response
      → P.acker_open now acker ≡ true
      → let registered : Event P =
          command now (register_oneshot_responder (method_header m) responder acker) in
        let answer : Event P = frame now (method m) in
        (run (registered ∷ answer ∷ []) d
          ≡ waits
              (record d {
                responders =
                    remove (method_header m) (insert (method_header m) responder d.responders);
              })
              (to_acker acker ∷ to_responder responder (method m) ∷ []))
        × (run (registered ∷ answer ∷ answer ∷ []) d ≡ panic)
  unfolding run handle_command
  run-response now m responder acker d r alive =
      let h : MethodHeader = method_header m in
      let same : header_beq h h ≡ true = (header_beq_iff h h).1 refl in
      let d₁ : ChannelDispatcher P = record d { responders = insert h responder d.responders } in
      let d₂ : ChannelDispatcher P = record d { responders = remove h d₁.responders } in
      let found : lookup h d₁.responders ≡ some responder =
        lookup-insert h h responder d.responders ∙ rw same refl in
      let gone : lookup h d₂.responders ≡ none = lookup-remove h h d₁.responders ∙ rw same refl in
      let registers : step (command now (register_oneshot_responder h responder acker)) d
          ≡ done (d₁, to_acker acker ∷ [], proceed) =
        registers_lem now h responder acker d alive in
      (
        rw (registers, respond_lem now m responder d₁ r found) refl,
        rw (registers, respond_lem now m responder d₁ r found, unanswered now m d₂ r gone) refl,
      )

  -- What the server is sent when it closes a channel.
  abbrev pub close_outputs : ℕ → Option P.Callback → CloseChannel → List (Output P)
  close_outputs now none m = to_server (method (Methods.close_channel_ok (record {}))) ∷ []
  close_outputs now (some cb) m =
      call_close cb m
      ∷ (if P.close_result now cb m
          then to_server (method (Methods.close_channel_ok (record {}))) ∷ []
          else [])

  -- When the server closes the channel and messages to it can be sent, the callback is asked if
  -- there is one, the server gets a response unless the callback returns an error, the channel is
  -- no longer open, and the task exits without taking another event.
  pub run-close_channel :
      (now : ℕ) (m : CloseChannel) (es : List (Event P)) (d : ChannelDispatcher P)
      → P.outgoing_open now ≡ true
      → run (frame now (method (Methods.close_channel m)) ∷ es) d
        ≡ done (record {
          last = record d { is_open = false };
          outputs = close_outputs now d.callback m;
          exited = true;
        })
  unfolding run step handle_frame role handle_role handle_close
  run-close_channel now m es d alive = elim (Option-cases d.callback) [
    | inl n ↦ rw (n, alive) refl
    | inr (cb, n) ↦ elim (Bool-cases (P.close_result now cb m)) [
      | inl ok ↦ rw (n, ok, alive) refl
      | inr refused ↦ rw (n, refused) refl
    ]
  ]
