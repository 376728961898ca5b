-- ===== src/Api/Channel/Closing.antt =====
-- How a channel of amqprs/src/api/channel/mod.rs is closed: by the call, by the guard that is dropped,
-- and by both.
use amqprs.Prelude.{
  ℕ, ◌≡◌, refl, sym, ap, ◌∙◌, subst, Bool, true, false, Bool-cases, inl, inr, List, [], ◌∷◌, some,
  done,
}
use amqprs.Prelude.Map.{lookup, insert, remove, lookup-insert}
use amqprs.Frame.MethodHeader.{MethodHeader, header_eq, header_beq, header_beq_iff}
use amqprs.Frame.Methods
use amqprs.Frame.Methods.{Method, method_header}
use amqprs.Frame.Frames.{method}
use amqprs.Net.ReaderHandler.{Parties, ConnManagementCommand, deregister_channel_resource}
use amqprs.Api.Dispatcher.{
  Peers, ChannelDispatcher, to_acker, to_responder, register_oneshot_responder,
}
use amqprs.Api.Dispatcher.Frames.{role, handle_role, handle_close_ok, handle_frame}
use amqprs.Api.Dispatcher.Loop.{Event, command, frame, handle_command, step, run, Run}
use amqprs.Api.Call.{
  Attempt, Caller, World, channel_close_error, returned, failed, waits, panics, managed, and_then,
  send_management, Log, commanded, acknowledged, outgoing, received,
}
use amqprs.Api.Channel.{default_close, request_with, close_handshake, close, drop_guard}
use amqprs.Api.Channel.Answers.{for_close_channel}
use amqprs.Api.Channel.Requests.{
  Done, first, later, Hears, register_responder_lem, synchronous_request_lem,
}
use amqprs.Api.Channel.Stages.{caller_of, request_with-Reached, conversation}

module _ {P : Peers} where
  -- What the task of the channel does when the server confirms the closing.
  abbrev closed_run : ChannelDispatcher P → P.Responder → P.Acker → Method → Run P
  closed_run d responder acker m = record {
    last = record d {
      is_open = false;
      responders = remove (method_header m) (insert (method_header m) responder d.responders);
    };
    outputs = to_acker acker ∷ to_responder responder (method m) ∷ [];
    exited = true;
  }

  run-closed :
      (now : ℕ) (responder : P.Responder) (acker : P.Acker) (d : ChannelDispatcher P)
      (es : List (Event P))
      → P.acker_open now acker ≡ true
      → P.responder_open now responder ≡ true
      → let m : Method = Methods.close_channel_ok (record {}) in
        run
          (command now (register_oneshot_responder (method_header m) responder acker)
            ∷ frame now (method m)
            ∷ es)
          d
        ≡ done (closed_run d responder acker m)
  unfolding run step handle_command handle_frame role handle_role handle_close_ok
  run-closed now responder acker d es alive waiting =
      let h : MethodHeader = method_header (Methods.close_channel_ok (record {})) in
      let same : header_beq h h ≡ true = (header_beq_iff h h).1 refl in
      let found : lookup h (insert h responder d.responders) ≡ some responder =
        lookup-insert h h responder d.responders ∙ rw same refl in
      rw (alive, found, waiting) refl

module _ {P : Peers} {Q : Parties} where
  managed-keeps :
      {A : Type 0} (r : Attempt P Q A) (k : ConnManagementCommand Q) (w : World P Q) (b : Bool)
      → (caller_of r).is_open ≡ b
      → (caller_of (and_then r (λ a c. send_management k w c))).is_open ≡ b
  managed-keeps (returned a c) k w b h = elim (Bool-cases (w.takes_management c.log)) [
    | inl t ↦ rw t h
    | inr t ↦ rw t h
  ]
  managed-keeps (failed e c) k w b h = h
  managed-keeps (waits c) k w b h = h
  managed-keeps (panics c) k w b h = h

  handshake-keeps :
      (channel_id : ℕ) (w : World P Q) (c : Caller P Q)
      → (caller_of (close_handshake channel_id w c)).is_open ≡ c.is_open
  unfolding close_handshake
  handshake-keeps channel_id w c =
      let m : Method = Methods.close_channel default_close in
      let reached = request_with-Reached for_close_channel channel_close_error channel_id m w c in
      managed-keeps (request_with channel_close_error channel_id m for_close_channel w c)
        (deregister_channel_resource channel_id) w c.is_open
        (ap (λ (x : Caller P Q). x.is_open) reached.done_so_far)

  -- Whatever becomes of the first close of a channel on an open connection, the channel is closed
  -- behind it, and neither another close nor the guard that is dropped does anything.
  pub close-once :
      (channel_id : ℕ) (connected : Bool) (w later_world : World P Q) (c : Caller P Q)
      → let closed = caller_of (close true channel_id w c) in
        (closed.is_open ≡ false)
        × (close connected channel_id later_world closed ≡ returned tt closed)
        × (drop_guard channel_id later_world closed ≡ returned tt closed)
  unfolding close drop_guard
  close-once channel_id connected w later_world c =
      let closed = caller_of (close true channel_id w c) in
      let flag : closed.is_open ≡ false = elim (Bool-cases c.is_open) [
        | inl open_now ↦ rw open_now (handshake-keeps channel_id w (record c { is_open = false }))
        | inr shut ↦ rw shut refl
      ] in
      (flag, again connected flag, guarded flag)
    where
      again :
          (b : Bool) {x : Caller P Q}
          → x.is_open ≡ false
          → close b channel_id later_world x ≡ returned tt x
      again true e = rw e refl
      again false e = refl

      guarded :
          {x : Caller P Q} → x.is_open ≡ false → drop_guard channel_id later_world x ≡ returned tt x
      guarded e = rw e refl

  -- A channel that is open on an open connection is closed: where the channels of tokio take what
  -- is sent and the halves of the call receive what the task of the channel does to theirs, the
  -- task, given the registration and the confirmation of the server, exits with the channel
  -- closed, and the call returns after it gave up the resource of the channel.
  pub close-answered :
      (channel_id now : ℕ) (d : ChannelDispatcher P) (w : World P Q) (c : Caller P Q)
      (es : List (Event P)) (r : Run P)
      → c.is_open ≡ true
      → P.acker_open now (w.acker c.log) ≡ true
      → P.responder_open now (w.oneshot c.log) ≡ true
      → w.takes_command c.log ≡ true
      → ((log : Log P Q) → w.takes_frame log ≡ true)
      → ((log : Log P Q) → w.takes_management log ≡ true)
      → run
          (command now (
              register_oneshot_responder for_close_channel.header (w.oneshot c.log) (w.acker c.log))
            ∷ frame now (method (Methods.close_channel_ok (record {})))
            ∷ es)
          d
        ≡ done r
      → Hears w r.outputs
      → (r.exited ≡ true)
        × (r.last.is_open ≡ false)
        × (close true channel_id w c
            ≡ returned tt (record {
              is_open = false;
              log =
                  managed (deregister_channel_resource channel_id)
                  ∷ conversation w c for_close_channel.header channel_id
                      (Methods.close_channel default_close)
                      (method (Methods.close_channel_ok (record {})));
            }))
  unfolding close close_handshake request_with method_header
  close-answered channel_id now d w c es r open_now alive waiting taken frames manages ran hears =
      let responder = w.oneshot c.log in
      let acker = w.acker c.log in
      let ok : Method = Methods.close_channel_ok (record {}) in
      let same : done r ≡ done (closed_run d responder acker ok) =
        sym ran ∙ run-closed now responder acker d es alive waiting in
      let whole : r ≡ closed_run d responder acker ok = cc in
      let out : r.outputs ≡ to_acker acker ∷ to_responder responder (method ok) ∷ [] =
        ap (λ (x : Run P). x.outputs) whole in
      let shut : Caller P Q = record c { is_open = false } in
      let acked =
        hears.acks
          (commanded (register_oneshot_responder for_close_channel.header responder acker) ∷ c.log)
          acker (subst (Done (to_acker acker)) (sym out) (first _)) in
      let log' : Log P Q =
        outgoing channel_id (method (Methods.close_channel default_close))
        ∷ acknowledged
        ∷ commanded (register_oneshot_responder for_close_channel.header responder acker)
        ∷ c.log in
      let ready : Caller P Q = record {
        is_open = false;
        log =
            acknowledged
            ∷ commanded (register_oneshot_responder for_close_channel.header responder acker)
            ∷ c.log;
      } in
      let answered =
        hears.answers log' responder (method ok)
          (subst (Done (to_responder responder (method ok))) (sym out) (later _ (first _))) in
      (
        ap (λ (x : Run P). x.exited) whole,
        ap (λ (x : Run P). x.last.is_open) whole,
        rw open_now (
            rw (register_responder_lem for_close_channel.header w shut taken acked) (
              rw
                (synchronous_request_lem channel_id (Methods.close_channel default_close)
                  (λ w' log''. w'.responds log'' responder) for_close_channel.expected
                  channel_close_error w ready (method ok) (record {}) (frames _) answered refl)
                (rw (manages (received (method ok) ∷ log')) refl))),
      )
