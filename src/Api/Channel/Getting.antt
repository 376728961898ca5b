-- ===== src/Api/Channel/Getting.antt =====
-- `basic_get` of amqprs/src/api/channel/basic.rs with the task of the channel in
-- amqprs/src/api/channel/dispatcher.rs.
use amqprs.Prelude.{
  ℕ, zero, suc, ◌+◌, ◌<◌, ◌^◌, ◌≡◌, refl, sym, ap, ◌∙◌, Bool, true, if◌then◌else◌, List, [], ◌∷◌,
  some, Outcome, done, panic, ◌>>=◌, length, All, arith, ltb, lt→ltb,
}
use amqprs.Net.SplitConnection.Writer.{flatten}
use amqprs.Serde.Types.{ShortStr, short_str}
use amqprs.Frame.Method.Basic.{GetOk}
use amqprs.Frame.Methods
use amqprs.Frame.ContentHeader.{ContentHeader}
use amqprs.Frame.Frames.{Frame, method, content_header, content_body}
use amqprs.Net.ReaderHandler.{Parties}
use amqprs.Api.Dispatcher.{
  Peers, ChannelDispatcher, Output, to_consumer, to_getter, to_responder, to_acker, to_server,
  call_close, call_flow, call_cancel, call_publish_return, call_publish_ack, call_publish_nack,
  register_get_content_responder,
}
use amqprs.Api.Dispatcher.Loop.{before, Event, command, handle_command, step, run, Run}
use amqprs.Api.Dispatcher.Contiguous.{IsPart, content_events}
use amqprs.Api.Dispatcher.Answers.{run-get_ok}
use amqprs.Api.Call.{
  Caller, World, Receipt, arrives, pending, Log, commanded, managed, outgoing, acknowledged,
  received, spawned, dispatching,
}
use amqprs.Api.Channel.Basic.{BasicGetArguments, basic_get}
use amqprs.Api.Channel.Stages.{value_of}

-- The frames that the task sends to the senders that a test chooses, in their order.
abbrev pub getter_frames : {P : Peers} → (P.GetTx → Bool) → List (Output P) → List Frame
getter_frames mine [] = []
getter_frames mine (to_getter tx f ∷ os) =
    let rest = getter_frames mine os in if mine tx then f ∷ rest else rest
getter_frames mine (to_consumer _ _ ∷ os) = getter_frames mine os
getter_frames mine (to_responder _ _ ∷ os) = getter_frames mine os
getter_frames mine (to_acker _ ∷ os) = getter_frames mine os
getter_frames mine (to_server _ ∷ os) = getter_frames mine os
getter_frames mine (call_close _ _ ∷ os) = getter_frames mine os
getter_frames mine (call_flow _ _ ∷ os) = getter_frames mine os
getter_frames mine (call_cancel _ _ ∷ os) = getter_frames mine os
getter_frames mine (call_publish_return _ _ _ _ ∷ os) = getter_frames mine os
getter_frames mine (call_publish_ack _ _ ∷ os) = getter_frames mine os
getter_frames mine (call_publish_nack _ _ ∷ os) = getter_frames mine os

abbrev pub nth_receipt : ℕ → List Frame → Receipt Frame
nth_receipt n [] = pending
nth_receipt zero (f ∷ fs) = arrives f
nth_receipt (suc n) (f ∷ fs) = nth_receipt n fs

abbrev pub frames_heard : {P : Peers} {Q : Parties} → Log P Q → ℕ
frames_heard [] = 0
frames_heard (received f ∷ log) = suc (frames_heard log)
frames_heard (commanded _ ∷ log) = frames_heard log
frames_heard (managed _ ∷ log) = frames_heard log
frames_heard (outgoing _ _ ∷ log) = frames_heard log
frames_heard (acknowledged ∷ log) = frames_heard log
frames_heard (spawned _ ∷ log) = frames_heard log
frames_heard (dispatching _ ∷ log) = frames_heard log

abbrev getter_of : {P : Peers} → (P.GetTx → Bool) → Outcome (Run P) → List Frame
getter_of mine (done r) = getter_frames mine r.outputs
getter_of mine panic = []

module _ {P : Peers} where
  registering :
      (now : ℕ) (tx : P.GetTx) (es : List (Event P)) (d : ChannelDispatcher P)
      → run (command now (register_get_content_responder tx) ∷ es) d
        ≡ (run es (record d { get_content_responder = some tx }) >>= λ r. done (before [] r))
  unfolding run step handle_command
  registering now tx es d = refl

  getting :
      (mine : P.GetTx → Bool) (now : ℕ) (tx : P.GetTx) (g : GetOk) (h : ContentHeader)
      (chunks : List (List ℕ)) (d : ChannelDispatcher P)
      → mine tx ≡ true
      → P.get_open now tx ≡ true
      → All IsPart chunks
      → length (flatten chunks) ≡ h.common.body_size
      → getter_of {P = P} mine (
          run
            (command now (register_get_content_responder tx)
              ∷ content_events now (Methods.get_ok g) h chunks)
            d)
        ≡ method (Methods.get_ok g)
          ∷ content_header h
          ∷ content_body (record { inner = flatten chunks })
          ∷ []
  getting mine now tx g h chunks d own alive parts size =
      let waiting : ChannelDispatcher P = record d { get_content_responder = some tx } in
      let ran = (run-get_ok now tx h waiting alive g chunks refl parts size).1 in
      rw (registering now tx (content_events now (Methods.get_ok g) h chunks) d)
        (rw (ran, own) refl)

module _ {P : Peers} {Q : Parties} where
  -- The frames that are sent to the senders of the call's receiving half, and no others, arrive
  -- there in their order.
  pub record GetsInOrder (mine : P.GetTx → Bool) (w : World P Q) (c : Caller P Q)
      (outputs : List (Output P)) : Type 0 where
    pub nth :
        (log : Log P Q) (n : ℕ)
        → frames_heard log ≡ n + frames_heard c.log
        → w.gets log (w.getter c.log) ≡ nth_receipt n (getter_frames mine outputs)

  -- Where the queue's name is below 2 ^ 8 bytes, the channels of tokio are open, the task of the
  -- channel gets the registration of the call's sender and then an answer whose body comes in any
  -- nonempty parts of the announced size, and the call is given, in their order, the frames that
  -- the task sends to its sender and to those that a test `mine` counts to it, and no others,
  -- basic_get returns the method, the properties and the whole body.
  pub basic_get-answered :
      (mine : P.GetTx → Bool) (channel_id now : ℕ) (args : BasicGetArguments) (g : GetOk)
      (h : ContentHeader) (chunks : List (List ℕ)) (d : ChannelDispatcher P) (w : World P Q)
      (c : Caller P Q) (r : Run P)
      → length args.queue < 2 ^ 8
      → ((log : Log P Q) → w.takes_command log ≡ true)
      → ((log : Log P Q) → w.takes_frame log ≡ true)
      → mine (w.getter c.log) ≡ true
      → P.get_open now (w.getter c.log) ≡ true
      → All IsPart chunks
      → length (flatten chunks) ≡ h.common.body_size
      → run
          (command now (register_get_content_responder (w.getter c.log))
            ∷ content_events now (Methods.get_ok g) h chunks)
          d
        ≡ done r
      → GetsInOrder mine w c r.outputs
      → value_of (basic_get channel_id args w c)
        ≡ some (some (g, h.basic_properties, flatten chunks))
  unfolding basic_get short_str
  basic_get-answered mine channel_id now args g h chunks d w c r fits takes frames own alive parts
        size ran hears =
      let tx = w.getter c.log in
      let heard =
        sym (ap (getter_of {P = P} mine) ran)
        ∙ getting mine now tx g h chunks d own alive parts size in
      let short : ltb (length args.queue) (2 ^ 8) ≡ true =
        lt→ltb (length args.queue) (2 ^ 8) fits in
      let queue : ShortStr = record { len = length args.queue; text = args.queue } in
      let get = Methods.get (record { ticket = 0; queue = queue; no_ack = args.no_ack }) in
      let log₀ : Log P Q =
        outgoing channel_id (method get) ∷ commanded (register_get_content_responder tx) ∷ c.log in
      let f₁ : Frame = method (Methods.get_ok g) in
      let f₂ : Frame = content_header h in
      let arrived₁ = hears.nth log₀ 0 (omega arith) ∙ ap (nth_receipt 0) heard in
      let arrived₂ = hears.nth (received f₁ ∷ log₀) 1 (omega arith) ∙ ap (nth_receipt 1) heard in
      let arrived₃ =
        hears.nth (received f₂ ∷ received f₁ ∷ log₀) 2 (omega arith) ∙ ap (nth_receipt 2) heard in
      rw
        (
          short,
          takes c.log,
          basic_get,
          frames (commanded (register_get_content_responder tx) ∷ c.log),
          arrived₁,
          arrived₂,
          arrived₃,
        )
        refl
