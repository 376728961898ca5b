-- ===== src/Net/ReaderHandler/Reachable.antt =====
-- The invariant of the channel resources in every state that the task of
-- amqprs/src/net/reader_handler.rs reaches.
use amqprs.Prelude.{
  ℕ, ◌^◌, ◌<◌, ◌≡◌, inl, inr, Bool, true, false, List, [], ◌∷◌, Option, none, some, Outcome, done,
  panic, assert, unwrap, leb, Keeps, stopped, kept, Keeps-bind, Keeps-then, Keeps-if, keeps_done,
}
use amqprs.Frame.Methods.{Method, method_header}
use amqprs.Frame.Method.Connection.{Close}
use amqprs.Frame.Frames.{Frame, method, heart_beat, content_header, content_body, publish_combo}
use amqprs.Net.ChannelManager.{
  ChannelManager, insert_resource, get_dispatcher, remove_resource, remove_responder,
}
use amqprs.Net.ChannelManager.Sound.{
  Sound, Returns, new-Sound, insert_resource-Sound, remove_resource-Sound, insert_responder-Sound,
  remove_responder-Sound,
}
use amqprs.Net.ReaderHandler.{
  Parties, ReaderHandler, ConnManagementCommand, register_channel_resource,
  deregister_channel_resource, register_responder, register_connection_callback, Output, call_close,
  new,
}
use amqprs.Net.ReaderHandler.Frames.{
  Failure, Role, opens_channel, closed, closing, blocks, unblocks, for_channel, role, sent,
  answer_closed, respond_close, handle_open_channel_ok, handle_close_ok, handle_close, dispatch,
  handle_role, handle_frame,
}
use amqprs.Net.ReaderHandler.Loop.{
  Event, command, read, read_error, timer, Reading, Run, handle_command, after_frame, step, after,
  run, run_until_shutdown,
}

module _ {R D X : Type 0} where
  abbrev OfManager : ChannelManager R D × X → Type 0
  OfManager x = Sound x.0

  Returns-Keeps : (o : Outcome (ChannelManager R D × X)) → Returns o → Keeps OfManager o
  Returns-Keeps o (inl e) = rw e stopped
  Returns-Keeps o (inr (m, x, e, s)) = rw e (kept s)

module _ {P : Parties} where
  abbrev GoodHandler : ReaderHandler P → Type 0
  GoodHandler h = Sound h.channel_manager

  abbrev OfFrame : ReaderHandler P × List (Output P) × Option Failure → Type 0
  OfFrame x = GoodHandler x.0

  abbrev OfCommand : ReaderHandler P × List (Output P) → Type 0
  OfCommand x = GoodHandler x.0

  abbrev OfStep : Reading P × List (Output P) × Option Bool → Type 0
  OfStep x = GoodHandler x.0.handler

  abbrev OfRun : Run P → Type 0
  OfRun x = GoodHandler x.last.handler

  sent-Keeps :
      (b : Bool) (h : ReaderHandler P) (o : Output P) → GoodHandler h → Keeps OfFrame (sent b h o)
  sent-Keeps true h o s = kept s
  sent-Keeps false h o s = kept s

  taken-Sound :
      (channel_id : ℕ) (m : Method) (h : ReaderHandler P)
      → GoodHandler h
      → Sound (remove_responder h.channel_manager channel_id (method_header m)).0
  taken-Sound channel_id m h s =
      remove_responder-Sound h.channel_manager s channel_id (method_header m)

  answer-Keeps :
      (now : ℕ) (m : Method) (o : Option P.Responder) (h : ReaderHandler P)
      → GoodHandler h
      → Keeps OfFrame (answer_closed now m o h)
  answer-Keeps now m none h s = kept s
  answer-Keeps now m (some responder) h s = sent-Keeps (P.responder_open now responder) h _ s

  respond-Keeps :
      (now : ℕ) (out : List (Output P)) (h : ReaderHandler P)
      → GoodHandler h
      → Keeps OfFrame (respond_close now out h)
  respond-Keeps now out h s = Keeps-if (P.outgoing_open now) (kept s) (kept s)

  close-Keeps :
      (now : ℕ) (o : Option P.Callback) (m : Close) (h : ReaderHandler P)
      → GoodHandler h
      → Keeps OfFrame (handle_close now o m h)
  unfolding handle_close
  close-Keeps now none m h s = respond-Keeps now [] h s
  close-Keeps now (some cb) m h s =
      Keeps-if (P.close_result now cb m) (respond-Keeps now (call_close cb m ∷ []) h s) (kept s)

  dispatch-Keeps :
      (now channel_id : ℕ) (frame : Frame) (h : ReaderHandler P)
      → GoodHandler h
      → Keeps OfFrame (dispatch now channel_id frame h)
  unfolding dispatch
  dispatch-Keeps now channel_id frame h s =
      Keeps-bind (unwrap (get_dispatcher h.channel_manager channel_id))
        (λ dispatcher. sent-Keeps (P.dispatcher_open now dispatcher) h _ s)

  role-Keeps :
      (now channel_id : ℕ) (m : Method) (r : Role) (h : ReaderHandler P)
      → GoodHandler h
      → Keeps OfFrame (handle_role now channel_id m r h)
  unfolding handle_role handle_open_channel_ok handle_close_ok
  role-Keeps now channel_id m opens_channel h s =
      Keeps-bind (unwrap (remove_responder h.channel_manager channel_id (method_header m)).1)
        (λ responder.
          sent-Keeps (P.responder_open now responder) _ _ (taken-Sound channel_id m h s))
  role-Keeps now channel_id m closed h s =
      answer-Keeps now m (remove_responder h.channel_manager channel_id (method_header m)).1 _
        (taken-Sound channel_id m h s)
  role-Keeps now channel_id m (closing c) h s = close-Keeps now h.callback c h s
  role-Keeps now channel_id m (blocks reason) h s = kept s
  role-Keeps now channel_id m unblocks h s = kept s
  role-Keeps now channel_id m for_channel h s = dispatch-Keeps now channel_id (method m) h s

  frame-Keeps :
      (now channel_id : ℕ) (frame : Frame) (h : ReaderHandler P)
      → GoodHandler h
      → Keeps OfFrame (handle_frame now channel_id frame h)
  unfolding handle_frame
  frame-Keeps now channel_id heart_beat h s = kept s
  frame-Keeps now channel_id (method m) h s = role-Keeps now channel_id m (role m) h s
  frame-Keeps now channel_id (content_header c) h s =
      dispatch-Keeps now channel_id (content_header c) h s
  frame-Keeps now channel_id (content_body b) h s =
      dispatch-Keeps now channel_id (content_body b) h s
  frame-Keeps now channel_id (publish_combo p c b) h s =
      dispatch-Keeps now channel_id (publish_combo p c b) h s

  command-Keeps :
      (now : ℕ) (c : ConnManagementCommand P) (h : ReaderHandler P)
      → GoodHandler h
      → Keeps OfCommand (handle_command now c h)
  unfolding handle_command
  command-Keeps now (register_channel_resource channel_id acker resource) h s =
      Keeps-then (insert_resource h.channel_manager channel_id resource)
        (Returns-Keeps _ (insert_resource-Sound h.channel_manager s channel_id resource))
        (λ x good. Keeps-bind (assert (P.acker_open now acker)) (λ _. kept good))
  command-Keeps now (deregister_channel_resource channel_id) h s =
      Keeps-then (remove_resource h.channel_manager channel_id)
        (Returns-Keeps _ (remove_resource-Sound h.channel_manager s channel_id))
        (λ x good. kept good)
  command-Keeps now (register_responder channel_id header responder acker) h s =
      Keeps-bind (assert (P.acker_open now acker))
        (λ _. kept (insert_responder-Sound h.channel_manager s channel_id header responder))
  command-Keeps now (register_connection_callback cb) h s = kept s

  keeps_after_frame :
      (r : Reading P) (out : List (Output P)) (o : Option Failure)
      → GoodHandler r.handler
      → OfStep (after_frame r out o)
  keeps_after_frame r out none s = s
  keeps_after_frame r out (some failure) s = s

  step-Keeps :
      (max_interval : ℕ) (e : Event P) (r : Reading P)
      → GoodHandler r.handler
      → Keeps OfStep (step max_interval e r)
  unfolding step
  step-Keeps max_interval (command now c) r s =
      Keeps-then (handle_command now c r.handler) (command-Keeps now c r.handler s)
        (λ x good. kept good)
  step-Keeps max_interval (read now channel_id frame) r s =
      Keeps-then (handle_frame now channel_id frame r.handler)
        (frame-Keeps now channel_id frame r.handler s)
        (λ x good. kept (keeps_after_frame _ x.1 x.2 good))
  step-Keeps max_interval (read_error now) r s = kept s
  step-Keeps max_interval (timer now) r s = Keeps-if (leb r.expiration now) (kept s) (kept s)

  after-Keeps :
      (o : Option Bool) (r : Reading P) (out : List (Output P)) (rest : Outcome (Run P))
      → GoodHandler r.handler
      → Keeps OfRun rest
      → Keeps OfRun (after o r out rest)
  after-Keeps (some failure) r out rest s k = kept s
  after-Keeps none r out panic s k = stopped
  after-Keeps none r out (done x) s (kept g) = kept g

  run-Keeps :
      (max_interval : ℕ) (es : List (Event P)) (r : Reading P)
      → GoodHandler r.handler
      → Keeps OfRun (run max_interval es r)
  unfolding run
  run-Keeps max_interval [] r s = kept s
  run-Keeps max_interval (e ∷ es) r s =
      Keeps-then (step max_interval e r) (step-Keeps max_interval e r s) (λ x good.
        after-Keeps x.2 x.0 x.1 (run max_interval es x.0) good (run-Keeps max_interval es x.0 good))

  -- In every state that the reader of a connection reaches, by any commands, frames, failures and
  -- ends of the timer, from a channel_max of 16 bits, an id of a channel is occupied exactly when
  -- the channel has a resource, and the bitmap has at most 8192 bytes.
  pub run_until_shutdown-Sound :
      (channel_max now heartbeat : ℕ) (es : List (Event P)) (r : Run P)
      → channel_max < 2 ^ 16
      → run_until_shutdown now heartbeat es (new P channel_max) ≡ done r
      → Sound r.last.handler.channel_manager
  unfolding run_until_shutdown new
  run_until_shutdown-Sound channel_max now heartbeat es r h e =
      keeps_done (run_until_shutdown now heartbeat es (new P channel_max)) r e
        (run-Keeps heartbeat es _ (new-Sound channel_max h))
