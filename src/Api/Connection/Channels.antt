-- ===== src/Api/Connection/Channels.antt =====
-- `open_channel` of amqprs/src/api/connection.rs with the reader of the connection in
-- amqprs/src/net/reader_handler.rs, which keeps the channels and hands over the response.
use amqprs.Prelude.{
  ℕ, ◌≡◌, refl, sym, ap, subst, ◌∙◌, true, false, ◌==◌, List, [], ◌∷◌, Option, none, some, is_some,
  inl, inr, Outcome, done, panic, arith, nat_eq,
}
use amqprs.Prelude.Map.{lookup}
use amqprs.Frame.Method.Channel.{OpenChannelOk}
use amqprs.Frame.Methods
use amqprs.Frame.Methods.{Method, method_header}
use amqprs.Frame.Frames.{Frame, method}
use amqprs.Net.ChannelIdRepo.Laws.{Covers}
use amqprs.Net.ChannelManager.{
  ChannelManager, ChannelResource, new_resource, insert_responder, remove_responder,
}
use amqprs.Net.ChannelManager.Invariant.{
  Inv, insert_resource-requested, remove_responder-insert_responder,
}
use amqprs.Net.ReaderHandler.{
  Parties, register_channel_resource, register_responder, Output, to_acker_id, to_acker,
  to_responder,
}
use amqprs.Net.ReaderHandler.Frames.{role, handle_open_channel_ok, handle_role, handle_frame}
use amqprs.Net.ReaderHandler.Loop.{
  Event, command, read, Reading, deadline, handle_command, step, run, Run,
}
use amqprs.Api.Dispatcher.{Peers}
use amqprs.Api.Call.{
  synchronous_request, Caller, World, Log, returned, arrives, managed, outgoing, acknowledged,
  received, dispatching,
}
use amqprs.Api.Channel.Answers.{for_open_channel}
use amqprs.Api.Connection.Calls.{
  new_open_channel, register_resource, register_conn_responder, open_channel,
}

-- Whether an output is among those of the reader.
pub data Among {Q : Parties} (o : Output Q) : List (Output Q) → Type 0 where
  first : (os : List (Output Q)) → Among o (o ∷ os)
  later : (x : Output Q) {os : List (Output Q)} → Among o os → Among o (x ∷ os)

module _ {Q : Parties} where
  -- The commands of a call that asks for an id, and the response of the server.
  abbrev pub opening_events :
      ℕ → ℕ → Q.Acker → Q.Dispatcher → Q.Responder → Q.Acker → OpenChannelOk → List (Event Q)
  opening_events now id acker dispatcher responder acker' m =
      command now (register_channel_resource (some id) acker (new_resource (some dispatcher)))
      ∷ command now (register_responder id for_open_channel.header responder acker')
      ∷ read now id (method (Methods.open_channel_ok m))
      ∷ []

  abbrev outputs_of : Outcome (Run Q) → List (Output Q)
  outputs_of (done r) = r.outputs
  outputs_of panic = []

  pub run-opening :
      (max_interval now id : ℕ) (r : Reading Q) (acker acker' : Q.Acker) (dispatcher : Q.Dispatcher)
      (responder : Q.Responder) (m : OpenChannelOk)
      → Inv r.handler.channel_manager
      → Covers r.handler.channel_manager.channel_id_repo id
      → lookup id r.handler.channel_manager.resource ≡ none
      → r.handler.is_open ≡ true
      → Q.acker_open now acker ≡ true
      → Q.acker_open now acker' ≡ true
      → Q.responder_open now responder ≡ true
      → (last : Reading Q) × (run max_interval
            (opening_events now id acker dispatcher responder acker' m)
            r
          ≡ done (record {
            last = last;
            outputs =
                to_acker_id acker (some id)
                ∷ to_acker acker'
                ∷ to_responder responder (method (Methods.open_channel_ok m))
                ∷ [];
            shutdown = none;
          }))
  unfolding run step handle_command handle_frame role handle_role handle_open_channel_ok
      method_header
  run-opening max_interval now id r acker acker' dispatcher responder m v c free o a a' alive =
      let manager = r.handler.channel_manager in
      let resource : ChannelResource Q.Responder Q.Dispatcher = new_resource (some dispatcher) in
      elim (insert_resource-requested manager v id resource c) [
        | inl (busy, e) ↦ absurd (cc (busy, free))
        | inr (m', n, e, i) ↦
            let there : is_some (lookup id m'.resource) ≡ true = rw (i.found id) (ground arith) in
            let (taken, _) =
              remove_responder-insert_responder m' id for_open_channel.header responder there in
            let m₁ = (insert_responder m' id for_open_channel.header responder).0 in
            let m₂ : ChannelManager Q.Responder Q.Dispatcher =
              (remove_responder m₁ id for_open_channel.header).0 in
            (
              record r {
                handler = record r.handler { channel_manager = m₂ };
                expiration = deadline now max_interval;
              },
              rw (e, a, a', taken, alive, o) refl,
            )
      ]

module _ {P : Peers} {Q : Parties} where
  -- The receiving halves of the call get what the reader does to the other halves.
  pub record ConnHears (w : World P Q) (outputs : List (Output Q)) : Type 0 where
    pub ids :
        (log : Log P Q) (a : Q.Acker) (id : Option ℕ)
        → Among (to_acker_id a id) outputs
        → w.grants_id log a ≡ arrives id
    pub acks :
        (log : Log P Q) (a : Q.Acker)
        → Among (to_acker a) outputs
        → w.conn_acknowledges log a ≡ arrives tt
    pub answers :
        (log : Log P Q) (r : Q.Responder) (f : Frame)
        → Among (to_responder r f) outputs
        → w.conn_responds log r ≡ arrives f

  -- What the call has done when it has opened a channel, newest first.
  abbrev pub opening_log :
      Log P Q → ℕ → Q.Acker → Q.Dispatcher → Q.Responder → Q.Acker → OpenChannelOk → Log P Q
  opening_log log id acker dispatcher responder acker' m =
      dispatching id
      ∷ received (method (Methods.open_channel_ok m))
      ∷ outgoing id (method (Methods.open_channel new_open_channel))
      ∷ acknowledged
      ∷ managed (register_responder id for_open_channel.header responder acker')
      ∷ managed (register_channel_resource (some id) acker (new_resource (some dispatcher)))
      ∷ log

  -- What the call has done when it makes the second acknowledgement, and what it asks the reader.
  abbrev registered_log : ℕ → World P Q → Log P Q → Log P Q
  registered_log id w log =
      managed (
        register_channel_resource (some id) (w.conn_acker log)
          (new_resource (some (w.dispatcher log))))
      ∷ log

  abbrev pub opened_events : ℕ → ℕ → World P Q → Log P Q → OpenChannelOk → List (Event Q)
  opened_events now id w log m =
      opening_events now id (w.conn_acker log) (w.dispatcher log)
        (w.conn_oneshot (registered_log id w log)) (w.conn_acker (registered_log id w log)) m

  -- For a free id that the bitmap covers, under the invariant of the reader of an open connection,
  -- where the channels of tokio are open and the halves of the call receive what the reader does
  -- to theirs, the reader, given the two commands of the call and the response of the server,
  -- makes open_channel return that id, after it registered the resource and the responder, was
  -- acknowledged, sent the request, received the response and started the dispatcher, in this
  -- order.
  pub open_channel-answered :
      (now max_interval id : ℕ) (r : Reading Q) (w : World P Q) (c : Caller P Q) (run_now : Run Q)
      (m : OpenChannelOk)
      → Inv r.handler.channel_manager
      → Covers r.handler.channel_manager.channel_id_repo id
      → lookup id r.handler.channel_manager.resource ≡ none
      → r.handler.is_open ≡ true
      → ((a : Q.Acker) → Q.acker_open now a ≡ true)
      → ((x : Q.Responder) → Q.responder_open now x ≡ true)
      → ((log : Log P Q) → w.takes_management log ≡ true)
      → ((log : Log P Q) → w.takes_frame log ≡ true)
      → run max_interval (opened_events now id w c.log m) r ≡ done run_now
      → ConnHears w run_now.outputs
      → open_channel (some id) w c
        ≡ returned id (record c {
          log =
              opening_log c.log id
                (w.conn_acker c.log)
                (w.dispatcher c.log)
                (w.conn_oneshot (registered_log id w c.log))
                (w.conn_acker (registered_log id w c.log))
                m;
        })
  unfolding open_channel register_resource register_conn_responder
  open_channel-answered now max_interval id r w c run_now m v covered free o ackers responders
        manages frames ran hears =
      let acker = w.conn_acker c.log in
      let dispatcher = w.dispatcher c.log in
      let responder = w.conn_oneshot (registered_log id w c.log) in
      let acker' = w.conn_acker (registered_log id w c.log) in
      let (last, opening) =
        run-opening max_interval now id r acker acker' dispatcher responder m v covered free o
          (ackers acker) (ackers acker') (responders responder) in
      let out = ap outputs_of (sym ran ∙ opening) in
      let not_zero : (id == 0) ≡ false = ground (arith, covered.0) in
      let granted =
        hears.ids (registered_log id w c.log) acker (some id)
          (subst (Among (to_acker_id acker (some id))) (sym out) (first _)) in
      let log₂ : Log P Q =
        managed (register_responder id for_open_channel.header responder acker')
        ∷ (registered_log id w c.log) in
      let acked =
        hears.acks log₂ acker' (subst (Among (to_acker acker')) (sym out) (later _ (first _))) in
      let log₃ : Log P Q =
        outgoing id (method (Methods.open_channel new_open_channel)) ∷ acknowledged ∷ log₂ in
      let answered = hears.answers log₃ responder (method (Methods.open_channel_ok m)) (
        subst (Among (to_responder responder (method (Methods.open_channel_ok m)))) (sym out)
          (later _ (later _ (first _)))) in
      rw (not_zero, manages c.log, granted, manages (registered_log id w c.log), acked)
        (rw (frames (acknowledged ∷ log₂), answered, synchronous_request) refl)
