-- ===== src/Net/ReaderHandler/Frames.antt =====
-- `ReaderHandler::handle_frame` in amqprs/src/net/reader_handler.rs.
use amqprs.Prelude.{
  ℕ, Bool, true, false, List, [], ◌∷◌, ◌++◌, Option, none, some, Outcome, done, ◌>>=◌, unwrap,
  if◌then◌else◌,
}
use amqprs.Frame.Methods.{Method, method_header}
use amqprs.Frame.Methods
use amqprs.Frame.Method.Connection.{Close}
use amqprs.Frame.Frames.{Frame, method, heart_beat, content_header, content_body, publish_combo}
use amqprs.Net.ChannelManager.{get_dispatcher, remove_responder}
use amqprs.Net.ReaderHandler.{
  Parties, Manager, ReaderHandler, Output, to_responder, to_dispatcher, to_server, call_close,
  call_blocked, call_unblocked,
}

abbrev pub default_conn_channel : ℕ
default_conn_channel = 0

-- The variants of the error of `net` that a frame can end in.
pub data Failure : Type 0 where
  sync_channel : Failure
  callback_error : Failure

-- The arms of the match on a method.
pub data Role : Type 0 where
  opens_channel : Role
  closed : Role
  closing : Close → Role
  blocks : List ℕ → Role
  unblocks : Role
  for_channel : Role

unfoldable pub role : Method → Role
role (Methods.open_channel_ok _) = opens_channel
role (Methods.close_ok _) = closed
role (Methods.close m) = closing m
role (Methods.blocked m) = blocks m.reason.text
role (Methods.unblocked _) = unblocks
role _ = for_channel

-- The state behind a frame, what was done, and the error where there is one.
abbrev pub Handled : Parties → Type 0
Handled P = Outcome (ReaderHandler P × List (Output P) × Option Failure)

module _ {P : Parties} where
  -- `send(..).map_err(..)`.
  abbrev pub sent : Bool → ReaderHandler P → Output P → Handled P
  sent true h o = done (h, o ∷ [], none)
  sent false h o = done (h, [], some sync_channel)

  abbrev pub put_manager : Manager P → ReaderHandler P → ReaderHandler P
  put_manager m h = record h { channel_manager = m }

  unfoldable pub handle_open_channel_ok : ℕ → ℕ → Method → ReaderHandler P → Handled P
  handle_open_channel_ok now channel_id m h =
      let (manager, taken) = remove_responder h.channel_manager channel_id (method_header m) in
      do
        responder ← unwrap taken
        sent (P.responder_open now responder) (put_manager manager h)
            (to_responder responder (method m))

  abbrev pub answer_closed : ℕ → Method → Option P.Responder → ReaderHandler P → Handled P
  answer_closed now m none h = done (h, [], none)
  answer_closed now m (some responder) h =
      sent (P.responder_open now responder) h (to_responder responder (method m))

  unfoldable pub handle_close_ok : ℕ → ℕ → Method → ReaderHandler P → Handled P
  handle_close_ok now channel_id m h =
      let (manager, taken) = remove_responder h.channel_manager channel_id (method_header m) in
      answer_closed now m taken (record h { is_open = false; channel_manager = manager })

  abbrev pub respond_close : ℕ → List (Output P) → ReaderHandler P → Handled P
  respond_close now out h =
      let closed_now : ReaderHandler P = record h { is_open = false } in
      if P.outgoing_open now
      then done (
        closed_now,
        out ++ (to_server default_conn_channel (method (Methods.close_ok (record {}))) ∷ []),
        none,
      )
      else done (closed_now, out, some sync_channel)

  unfoldable pub handle_close : ℕ → Option P.Callback → Close → ReaderHandler P → Handled P
  handle_close now none m h = respond_close now [] h
  handle_close now (some cb) m h =
      if P.close_result now cb m
      then respond_close now (call_close cb m ∷ []) h
      else done (h, call_close cb m ∷ [], some callback_error)

  abbrev call_each : Option P.Callback → (P.Callback → Output P) → List (Output P)
  call_each none call = []
  call_each (some cb) call = call cb ∷ []

  -- Without a dispatcher of the channel the line is `unreachable!`.
  unfoldable pub dispatch : ℕ → ℕ → Frame → ReaderHandler P → Handled P
  dispatch now channel_id frame h = do
    dispatcher ← unwrap (get_dispatcher h.channel_manager channel_id)
    sent (P.dispatcher_open now dispatcher) h (to_dispatcher dispatcher frame)

  unfoldable pub handle_role : ℕ → ℕ → Method → Role → ReaderHandler P → Handled P
  unfolding handle_open_channel_ok handle_close_ok handle_close dispatch
  handle_role now channel_id m opens_channel h = handle_open_channel_ok now channel_id m h
  handle_role now channel_id m closed h = handle_close_ok now channel_id m h
  handle_role now channel_id m (closing c) h = handle_close now h.callback c h
  handle_role now channel_id m (blocks reason) h =
      done (h, call_each h.callback (λ cb. call_blocked cb reason), none)
  handle_role now channel_id m unblocks h = done (h, call_each h.callback call_unblocked, none)
  handle_role now channel_id m for_channel h = dispatch now channel_id (method m) h

  unfoldable pub handle_frame : ℕ → ℕ → Frame → ReaderHandler P → Handled P
  unfolding role handle_role
  handle_frame now channel_id heart_beat h = done (h, [], none)
  handle_frame now channel_id (method m) h = handle_role now channel_id m (role m) h
  handle_frame now channel_id (content_header c) h = dispatch now channel_id (content_header c) h
  handle_frame now channel_id (content_body b) h = dispatch now channel_id (content_body b) h
  handle_frame now channel_id (publish_combo p c b) h =
      dispatch now channel_id (publish_combo p c b) h
