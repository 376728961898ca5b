-- ===== src/Api/Channel/Requests.antt =====
-- The requests of amqprs/src/api/channel, together with the task of the channel in
-- amqprs/src/api/channel/dispatcher.rs that hands the responses to them.
use amqprs.Prelude.{
  ℕ, ◌≡◌, refl, sym, ap, subst, ◌∙◌, Outcome, panic, true, List, [], ◌∷◌, Option, some, done,
}
use amqprs.Frame.MethodHeader.{MethodHeader}
use amqprs.Frame.Methods
use amqprs.Frame.Methods.{Method, method_header}
use amqprs.Frame.Frames.{Frame, method}
use amqprs.Net.ReaderHandler.{Parties}
use amqprs.Api.Dispatcher.{
  Peers, ChannelDispatcher, Output, to_acker, to_responder, register_oneshot_responder,
}
use amqprs.Api.Dispatcher.Frames.{response, role}
use amqprs.Api.Dispatcher.Loop.{Event, command, frame, Run, run}
use amqprs.Api.Dispatcher.Responses.{run-response}
use amqprs.Api.Call.{
  Answer, Caller, World, Error, Receipt, returned, arrives, commanded, acknowledged, outgoing,
  received, Log, expected_method, synchronous_request,
}
use amqprs.Api.Channel.{register_responder, request_with}
use amqprs.Api.Channel.Answers.{
  for_flow, for_declare, for_delete, for_bind, for_unbind, for_declare_queue, for_bind_queue,
  for_purge_queue, for_delete_queue, for_unbind_queue, for_qos, for_consume, for_cancel,
  for_recover, for_select, for_tx_select, for_tx_commit, for_tx_rollback,
}

-- Of a response: it has the header that the call registers, it is what the call expects, and the
-- task of the channel takes it for a response.
pub record IsAnswer {A : Type 0} (answer : Answer A) (respond : A → Method) : Type 0 where
  pub registered : (a : A) → method_header (respond a) ≡ answer.header
  pub matched : (a : A) → answer.expected (respond a) ≡ some a
  pub routed : (a : A) → role (respond a) ≡ response

-- Of each of the 18 requests of a channel other than its closing, the response has the header that
-- the call registers, is the one that the call expects, and is taken for a response by the task of
-- the channel.
pub answers-AreAnswers :
    IsAnswer for_flow Methods.flow_ok
    × IsAnswer for_declare Methods.declare_ok
    × IsAnswer for_delete Methods.delete_ok
    × IsAnswer for_bind Methods.bind_ok
    × IsAnswer for_unbind Methods.unbind_ok
    × IsAnswer for_declare_queue Methods.declare_queue_ok
    × IsAnswer for_bind_queue Methods.bind_queue_ok
    × IsAnswer for_purge_queue Methods.purge_queue_ok
    × IsAnswer for_delete_queue Methods.delete_queue_ok
    × IsAnswer for_unbind_queue Methods.unbind_queue_ok
    × IsAnswer for_qos Methods.qos_ok
    × IsAnswer for_consume Methods.consume_ok
    × IsAnswer for_cancel Methods.cancel_ok
    × IsAnswer for_recover Methods.recover_ok
    × IsAnswer for_select Methods.select_ok
    × IsAnswer for_tx_select Methods.tx_select_ok
    × IsAnswer for_tx_commit Methods.tx_commit_ok
    × IsAnswer for_tx_rollback Methods.tx_rollback_ok
unfolding method_header role
answers-AreAnswers = (
  record { registered = λ a. refl; matched = λ a. refl; routed = λ a. refl },
  record { registered = λ a. refl; matched = λ a. refl; routed = λ a. refl },
  record { registered = λ a. refl; matched = λ a. refl; routed = λ a. refl },
  record { registered = λ a. refl; matched = λ a. refl; routed = λ a. refl },
  record { registered = λ a. refl; matched = λ a. refl; routed = λ a. refl },
  record { registered = λ a. refl; matched = λ a. refl; routed = λ a. refl },
  record { registered = λ a. refl; matched = λ a. refl; routed = λ a. refl },
  record { registered = λ a. refl; matched = λ a. refl; routed = λ a. refl },
  record { registered = λ a. refl; matched = λ a. refl; routed = λ a. refl },
  record { registered = λ a. refl; matched = λ a. refl; routed = λ a. refl },
  record { registered = λ a. refl; matched = λ a. refl; routed = λ a. refl },
  record { registered = λ a. refl; matched = λ a. refl; routed = λ a. refl },
  record { registered = λ a. refl; matched = λ a. refl; routed = λ a. refl },
  record { registered = λ a. refl; matched = λ a. refl; routed = λ a. refl },
  record { registered = λ a. refl; matched = λ a. refl; routed = λ a. refl },
  record { registered = λ a. refl; matched = λ a. refl; routed = λ a. refl },
  record { registered = λ a. refl; matched = λ a. refl; routed = λ a. refl },
  record { registered = λ a. refl; matched = λ a. refl; routed = λ a. refl },
)

-- Whether an output is among those of a task.
pub data Done {P : Peers} (o : Output P) : List (Output P) → Type 0 where
  first : (os : List (Output P)) → Done o (o ∷ os)
  later : (x : Output P) {os : List (Output P)} → Done o os → Done o (x ∷ os)

module _ {P : Peers} where
  abbrev outputs_of : Outcome (Run P) → List (Output P)
  outputs_of (done r) = r.outputs
  outputs_of panic = []

  -- What the task does when a responder is registered and the response comes.
  answering :
      (now : ℕ) (m : Method) (h : MethodHeader) (responder : P.Responder) (acker : P.Acker)
      (d : ChannelDispatcher P) (r : Run P)
      → method_header m ≡ h
      → role m ≡ response
      → P.acker_open now acker ≡ true
      → run
          (command now (register_oneshot_responder h responder acker) ∷ frame now (method m) ∷ [])
          d
        ≡ done r
      → r.outputs ≡ to_acker acker ∷ to_responder responder (method m) ∷ []
  answering now m h responder acker d r e routed alive ran =
      let registering : MethodHeader → List (Event P) = λ k.
        command now (register_oneshot_responder k responder acker) ∷ frame now (method m) ∷ [] in
      let same : outputs_of (run (registering (method_header m)) d)
          ≡ outputs_of (run (registering h) d) =
        ap (λ k. outputs_of (run (registering k) d)) e in
      sym (ap outputs_of ran)
      ∙ sym same
      ∙ ap outputs_of (run-response now m responder acker d routed alive).0

module _ {P : Peers} {Q : Parties} where
  -- The receiving halves of the call get what the task does to the other halves.
  pub record Hears (w : World P Q) (outputs : List (Output P)) : Type 0 where
    pub acks :
        (log : Log P Q) (a : P.Acker)
        → Done (to_acker a) outputs
        → w.acknowledges log a ≡ arrives tt
    pub answers :
        (log : Log P Q) (r : P.Responder) (f : Frame)
        → Done (to_responder r f) outputs
        → w.responds log r ≡ arrives f

  pub synchronous_request_lem :
      {A : Type 0} (channel_id : ℕ) (m : Method) (rx : World P Q → Log P Q → Receipt Frame)
      (expected : Method → Option A) (e : Error) (w : World P Q) (c : Caller P Q) (f : Frame)
      (a : A)
      → w.takes_frame c.log ≡ true
      → rx w (outgoing channel_id (method m) ∷ c.log) ≡ arrives f
      → expected_method expected f ≡ some a
      → synchronous_request channel_id m rx expected e w c
        ≡ returned a (record c { log = received f ∷ outgoing channel_id (method m) ∷ c.log })
  synchronous_request_lem channel_id m rx expected e w c f a taken answered matched =
      rw (taken, answered, matched, synchronous_request) refl

  pub register_responder_lem :
      (h : MethodHeader) (w : World P Q) (c : Caller P Q)
      → w.takes_command c.log ≡ true
      → w.acknowledges
          (commanded (register_oneshot_responder h (w.oneshot c.log) (w.acker c.log)) ∷ c.log)
          (w.acker c.log)
        ≡ arrives tt
      → register_responder h w c
        ≡ returned (w.oneshot c.log) (record c {
          log =
              acknowledged
              ∷ commanded (register_oneshot_responder h (w.oneshot c.log) (w.acker c.log))
              ∷ c.log;
        })
  unfolding register_responder
  register_responder_lem h w c taken acked = rw (taken, acked) refl

  module _ {A : Type 0} (answer : Answer A) (respond : A → Method)
      (good : IsAnswer answer respond) where
    -- A request whose response has the header that the call registers, is the one it expects and
    -- is taken for a response by the task of the channel: where the channels of tokio take what is
    -- sent, the task gets the registration and then the response, and the halves of the call
    -- receive what the task does to theirs, the call returns the arguments of the response, after
    -- it registered, was acknowledged, sent the request and received the response, in this order.
    pub request_with-answered :
        (e : Error) (channel_id now : ℕ) (m : Method) (a : A) (d : ChannelDispatcher P)
        (w : World P Q) (c : Caller P Q) (r : Run P)
        → P.acker_open now (w.acker c.log) ≡ true
        → w.takes_command c.log ≡ true
        → ((log : Log P Q) → w.takes_frame log ≡ true)
        → run
            (command now
                (register_oneshot_responder answer.header (w.oneshot c.log) (w.acker c.log))
              ∷ frame now (method (respond a))
              ∷ [])
            d
          ≡ done r
        → Hears w r.outputs
        → request_with e channel_id m answer w c
          ≡ returned a (record c {
            log =
                received (method (respond a))
                ∷ outgoing channel_id (method m)
                ∷ acknowledged
                ∷ commanded
                    (register_oneshot_responder answer.header (w.oneshot c.log) (w.acker c.log))
                ∷ c.log;
          })
    unfolding request_with
    request_with-answered e channel_id now m a d w c r alive taken frames ran hears =
        let responder = w.oneshot c.log in
        let acker = w.acker c.log in
        let out =
          answering now (respond a) answer.header responder acker d r (good.registered a)
            (good.routed a) alive ran in
        let acked =
          hears.acks (commanded (register_oneshot_responder answer.header responder acker) ∷ c.log)
            acker (subst (Done (to_acker acker)) (sym out) (first _)) in
        let log' : Log P Q =
          outgoing channel_id (method m)
          ∷ acknowledged
          ∷ commanded (register_oneshot_responder answer.header responder acker)
          ∷ c.log in
        let answered = hears.answers log' responder (method (respond a)) (
          subst (Done (to_responder responder (method (respond a)))) (sym out)
            (later _ (first _))) in
        rw (register_responder_lem answer.header w c taken acked) (
          synchronous_request_lem channel_id m (λ w' log'. w'.responds log' responder)
            answer.expected e w _ (method (respond a)) a (frames _) answered (good.matched a))
