-- ===== src/Net/ReaderHandler/Channels.antt =====
-- The registration of a channel, and the end of a connection, in
-- amqprs/src/net/reader_handler.rs.
use amqprs.Prelude.{
  ℕ, ◌≤◌, ◌≡◌, refl, ◌∙◌, Bool, true, false, not, Bool-cases, Option-cases, inl, inr, List, [], ◌∷◌,
  Option, none, some, done, if◌then◌else◌, arith, nat_eq,
}
use amqprs.Prelude.Map.{lookup}
use amqprs.Frame.Methods
use amqprs.Frame.Method.Connection.{Close}
use amqprs.Frame.Frames.{method}
use amqprs.Net.ChannelIdRepo.Laws.{Covers}
use amqprs.Net.ChannelManager.{ChannelResource, new_resource, get_dispatcher}
use amqprs.Net.ChannelManager.Invariant.{Inv, insert_resource-allocated, get_dispatcher_lem}
use amqprs.Net.ReaderHandler.{
  Parties, register_channel_resource, Output, to_acker_id, to_server, call_close,
}
use amqprs.Net.ReaderHandler.Frames.{
  default_conn_channel, role, handle_close, handle_role, handle_frame,
}
use amqprs.Net.ReaderHandler.Loop.{
  Event, command, read, Reading, deadline, shut_down, handle_command, step, run,
}
use amqprs.Net.ReaderHandler.Arrivals.{Arrives, brought_all, run-Arrives}

-- Whether the callback returns an error.
abbrev pub refused : (P : Parties) → ℕ → Option P.Callback → Close → Bool
refused P now none m = false
refused P now (some cb) m = not (P.close_result now cb m)

module _ {P : Parties} where
  pub run-registered :
      (max_interval now : ℕ) (r : Reading P) (acker : P.Acker) (dispatcher : P.Dispatcher)
      (free : ℕ)
      → Inv r.handler.channel_manager
      → Covers r.handler.channel_manager.channel_id_repo free
      → free ≤ 65535
      → lookup free r.handler.channel_manager.resource ≡ none
      → r.handler.is_open ≡ true
      → P.acker_open now acker ≡ true
      → (id : ℕ) × (lookup id r.handler.channel_manager.resource ≡ none)
        × (1 ≤ id)
        × (id ≤ free)
        × ((es : List (Event P))
            → Arrives max_interval id dispatcher r.expiration es
            → (last : Reading P) × (run max_interval
                  (command now
                      (register_channel_resource none acker (new_resource (some dispatcher)))
                    ∷ es)
                  r
                ≡ done (record {
                  last = last;
                  outputs = to_acker_id acker (some id) ∷ brought_all dispatcher es;
                  shutdown = none;
                })))
  unfolding run step handle_command
  run-registered max_interval now r acker dispatcher free v c fits n o acked =
      let resource : ChannelResource P.Responder P.Dispatcher = new_resource (some dispatcher) in
      let (m', id, e, lo, le, fresh, _, i) =
        insert_resource-allocated r.handler.channel_manager v free resource c fits n in
      let found : get_dispatcher m' id ≡ some dispatcher =
        get_dispatcher_lem m' id dispatcher (i.found id ∙ ground arith) in
      let r' : Reading P = record r { handler = record r.handler { channel_manager = m' } } in
      (
        id,
        fresh,
        lo,
        le,
        λ es w.
            let (last, later) = run-Arrives max_interval id dispatcher es r' o found w in
            (last, rw (e, acked, later) refl),
      )

  -- What is done when the server closes the connection.
  abbrev pub close_outputs : ℕ → Option P.Callback → Close → List (Output P)
  close_outputs now none m =
      to_server default_conn_channel (method (Methods.close_ok (record {}))) ∷ []
  close_outputs now (some cb) m =
      call_close cb m
      ∷ (if P.close_result now cb m
          then to_server default_conn_channel (method (Methods.close_ok (record {}))) ∷ []
          else [])

  -- When the server closes the connection and messages to it can be sent, the callback is asked if
  -- there is one, the server gets a response on channel 0 unless the callback returns an error,
  -- the connection is no longer open, no other event is taken, and the notification is of a
  -- failure exactly where the callback returned an error.
  pub run-close_connection :
      (max_interval now channel_id : ℕ) (m : Close) (es : List (Event P)) (r : Reading P)
      → P.outgoing_open now ≡ true
      → run max_interval (read now channel_id (method (Methods.close m)) ∷ es) r
        ≡ done (
            shut_down
              (record r { expiration = deadline now max_interval })
              (close_outputs now r.handler.callback m)
              (refused P now r.handler.callback m))
  unfolding run step handle_frame role handle_role handle_close
  run-close_connection max_interval now channel_id m es r alive =
      elim (Option-cases r.handler.callback) [
        | inl n ↦ rw (n, alive) refl
        | inr (cb, n) ↦ elim (Bool-cases (P.close_result now cb m)) [
          | inl ok ↦ rw (n, ok, alive) refl
          | inr failed ↦ rw (n, failed) refl
        ]
      ]
