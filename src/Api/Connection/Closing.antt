-- ===== src/Api/Connection/Closing.antt =====
-- How a connection is closed in amqprs/src/api/connection.rs, with its reader in
-- amqprs/src/net/reader_handler.rs, which shares the flag of the connection.
use amqprs.Prelude.{
  ℕ, ◌≡◌, refl, sym, ap, subst, ◌∙◌, Bool, true, false, List, [], ◌∷◌, drop, some, is_some, done,
  nat_eq,
}
use amqprs.Prelude.Map.{lookup}
use amqprs.Frame.Methods
use amqprs.Frame.Methods.{Method, method_header}
use amqprs.Frame.Frames.{Frame, method, heart_beat}
use amqprs.Net.ChannelManager.{insert_responder, remove_responder}
use amqprs.Net.ChannelManager.Invariant.{remove_responder-insert_responder}
use amqprs.Net.ReaderHandler.{Parties, register_responder, to_acker, to_responder}
use amqprs.Net.ReaderHandler.Frames.{
  role, handle_close_ok, handle_role, handle_frame, default_conn_channel,
}
use amqprs.Net.ReaderHandler.Loop.{
  Event, command, read, Reading, deadline, handle_command, step, run, Run, shut_down,
}
use amqprs.Api.Dispatcher.{Peers}
use amqprs.Api.Call.{
  synchronous_request, Caller, World, Log, returned, failed, dropped, internal_channel_error,
  managed, outgoing, acknowledged, received,
}
use amqprs.Api.Channel.Answers.{for_close}
use amqprs.Api.Connection.Calls.{
  default_close_connection, register_conn_responder, close_connection_handshake, close_connection,
}
use amqprs.Api.Connection.Channels.{Among, first, later, ConnHears}

abbrev pub closed_ok : Method
closed_ok = Methods.close_ok (record {})

module _ {Q : Parties} where
  abbrev pub registration : ℕ → Q.Responder → Q.Acker → Event Q
  registration now responder acker =
      command now (register_responder default_conn_channel for_close.header responder acker)

  -- The responses of the reader to a closing that is confirmed at once.
  pub run-closing :
      (max_interval now : ℕ) (r : Reading Q) (responder : Q.Responder) (acker : Q.Acker)
      (es : List (Event Q))
      → is_some (lookup default_conn_channel r.handler.channel_manager.resource) ≡ true
      → Q.acker_open now acker ≡ true
      → Q.responder_open now responder ≡ true
      → (last : Reading Q) × (run max_interval
            (registration now responder acker
              ∷ read now default_conn_channel (method closed_ok)
              ∷ es)
            r
          ≡ done (
              shut_down last
                (to_acker acker ∷ to_responder responder (method closed_ok) ∷ [])
                false))
  unfolding run step handle_command handle_frame role handle_role handle_close_ok method_header
  run-closing max_interval now r responder acker es there a alive =
      let manager = r.handler.channel_manager in
      let (taken, _) =
        remove_responder-insert_responder manager default_conn_channel for_close.header responder
          there in
      let m₁ = (insert_responder manager default_conn_channel for_close.header responder).0 in
      let m₂ = (remove_responder m₁ default_conn_channel for_close.header).0 in
      (
        record r {
          handler = record r.handler { is_open = false; channel_manager = m₂ };
          expiration = deadline now max_interval;
        },
        rw (a, taken, alive) refl,
      )

  only_acked :
      (acker : Q.Acker) (responder : Q.Responder) (f : Frame)
      → Among {Q = Q} (to_responder responder f) (to_acker acker ∷ [])
      → ⊥
  only_acked acker responder f (later _ among) = elim among [ ]

  -- The reader leaves its loop at a heartbeat behind the closing, and does not read the confirmation.
  abbrev pub left_run : ℕ → ℕ → Reading Q → Q.Responder → Q.Acker → Run Q
  left_run max_interval now r responder acker =
      shut_down
        (record r {
          handler = record r.handler {
            channel_manager =
                (insert_responder r.handler.channel_manager default_conn_channel for_close.header
                  responder).0;
          };
          expiration = deadline now max_interval;
        })
        (to_acker acker ∷ []) false

  pub run-heart_beat_closing :
      (max_interval now : ℕ) (r : Reading Q) (responder : Q.Responder) (acker : Q.Acker)
      (es : List (Event Q))
      → r.handler.is_open ≡ false
      → Q.acker_open now acker ≡ true
      → run max_interval
          (registration now responder acker
            ∷ read now default_conn_channel heart_beat
            ∷ read now default_conn_channel (method closed_ok)
            ∷ es)
          r
        ≡ done (left_run max_interval now r responder acker)
  unfolding run step handle_command handle_frame
  run-heart_beat_closing max_interval now r responder acker es shut a = rw (a, shut) refl

module _ {P : Peers} {Q : Parties} where
  -- What a whole closing does, newest first.
  abbrev pub closing_log : Log P Q → Q.Responder → Q.Acker → Log P Q
  closing_log log responder acker =
      received (method closed_ok)
      ∷ outgoing default_conn_channel (method (Methods.close default_close_connection))
      ∷ acknowledged
      ∷ managed (register_responder default_conn_channel for_close.header responder acker)
      ∷ log

  -- Where the reader has the resource of the connection, the channels of tokio are open, and the
  -- halves of the call receive what the reader does to theirs, a connection that is open is
  -- closed: the reader, given the registration and the confirmation of the server, leaves its loop
  -- with the notification of a normal shutdown, and the call returns after it registered, was
  -- acknowledged, sent the request and received the confirmation.
  pub close_connection-answered :
      (max_interval now : ℕ) (r : Reading Q) (w : World P Q) (c : Caller P Q) (es : List (Event Q))
      (run_now : Run Q)
      → is_some (lookup default_conn_channel r.handler.channel_manager.resource) ≡ true
      → c.is_open ≡ true
      → Q.acker_open now (w.conn_acker c.log) ≡ true
      → Q.responder_open now (w.conn_oneshot c.log) ≡ true
      → w.takes_management c.log ≡ true
      → ((log : Log P Q) → w.takes_frame log ≡ true)
      → run max_interval
          (registration now (w.conn_oneshot c.log) (w.conn_acker c.log)
            ∷ read now default_conn_channel (method closed_ok)
            ∷ es)
          r
        ≡ done run_now
      → ConnHears w run_now.outputs
      → (run_now.shutdown ≡ some false)
        × (run_now.last.handler.is_open ≡ false)
        × (close_connection w c
            ≡ returned tt (record {
              is_open = false;
              log = closing_log c.log (w.conn_oneshot c.log) (w.conn_acker c.log);
            }))
  unfolding close_connection close_connection_handshake register_conn_responder
  close_connection-answered max_interval now r w c es run_now there o a alive manages frames ran
        hears =
      let responder = w.conn_oneshot c.log in
      let acker = w.conn_acker c.log in
      let (last, closing) = run-closing max_interval now r responder acker es there a alive in
      let same = sym ran ∙ closing in
      let whole : run_now
          ≡ shut_down last (to_acker acker ∷ to_responder responder (method closed_ok) ∷ []) false =
        cc same in
      let out = ap (λ (x : Run Q). x.outputs) whole in
      let log₁ : Log P Q =
        managed (register_responder default_conn_channel for_close.header responder acker)
        ∷ c.log in
      let acked = hears.acks log₁ acker (subst (Among (to_acker acker)) (sym out) (first _)) in
      let log₂ : Log P Q =
        outgoing default_conn_channel (method (Methods.close default_close_connection))
        ∷ acknowledged
        ∷ log₁ in
      let answered =
        hears.answers log₂ responder (method closed_ok) (
          subst (Among (to_responder responder (method closed_ok))) (sym out)
            (later _ (first _))) in
      (
        ap (λ (x : Run Q). x.shutdown) whole,
        ap (λ (x : Run Q). x.last.handler.is_open) whole,
        rw (o, manages, acked)
            (rw (frames (acknowledged ∷ log₁), answered, synchronous_request) refl),
      )

  -- A task that exits drops the responders that it holds, so what is not answered by then fails.
  pub record ConnDrops (w : World P Q) (run_now : Run Q) : Type 0 where
    pub drops :
        (log : Log P Q) (r : Q.Responder) (b : Bool)
        → run_now.shutdown ≡ some b
        → ((f : Frame) → Among (to_responder r f) run_now.outputs → ⊥)
        → w.conn_responds log r ≡ dropped

  -- The flag of an open connection is cleared by its closing, so where a heartbeat of the server
  -- comes before the confirmation, the reader leaves its loop without reading the confirmation,
  -- and, where a task that exits drops its responders, close fails with an error of the internal
  -- channels though the server confirms.
  pub close_connection-interrupted :
      (max_interval now : ℕ) (r : Reading Q) (w : World P Q) (c : Caller P Q) (es : List (Event Q))
      (run_now : Run Q)
      → c.is_open ≡ true
      → r.handler.is_open ≡ false
      → Q.acker_open now (w.conn_acker c.log) ≡ true
      → w.takes_management c.log ≡ true
      → ((log : Log P Q) → w.takes_frame log ≡ true)
      → run max_interval
          (registration now (w.conn_oneshot c.log) (w.conn_acker c.log)
            ∷ read now default_conn_channel heart_beat
            ∷ read now default_conn_channel (method closed_ok)
            ∷ es)
          r
        ≡ done run_now
      → ConnHears w run_now.outputs
      → ConnDrops w run_now
      → close_connection w c
        ≡ failed internal_channel_error (record {
          is_open = false;
          log = drop 1 (closing_log c.log (w.conn_oneshot c.log) (w.conn_acker c.log));
        })
  unfolding close_connection close_connection_handshake register_conn_responder
  close_connection-interrupted max_interval now r w c es run_now o shut a manages frames ran hears
        leaves =
      let responder = w.conn_oneshot c.log in
      let acker = w.conn_acker c.log in
      let same = sym ran ∙ run-heart_beat_closing max_interval now r responder acker es shut a in
      let whole : run_now ≡ left_run max_interval now r responder acker = cc same in
      let out : run_now.outputs ≡ to_acker acker ∷ [] = ap (λ (x : Run Q). x.outputs) whole in
      let log₁ : Log P Q =
        managed (register_responder default_conn_channel for_close.header responder acker)
        ∷ c.log in
      let acked = hears.acks log₁ acker (subst (Among (to_acker acker)) (sym out) (first _)) in
      let log₂ : Log P Q =
        outgoing default_conn_channel (method (Methods.close default_close_connection))
        ∷ acknowledged
        ∷ log₁ in
      let lost =
        leaves.drops log₂ responder false (ap (λ (x : Run Q). x.shutdown) whole) (λ f among.
          only_acked acker responder f (subst (Among (to_responder responder f)) out among)) in
      rw (o, manages, acked) (rw (frames (acknowledged ∷ log₁), lost, synchronous_request) refl)
