-- ===== src/Api/Dispatcher/Loop.antt =====
-- The main loop of amqprs/src/api/channel/dispatcher.rs: commands, frames and the purge timer, in the
-- order in which `select!` takes them.
use amqprs.Prelude.{
  ℕ, Bool, true, false, List, [], ◌∷◌, ◌++◌, some, Outcome, done, ◌>>=◌, ◌>>◌, assert, bytes_eq,
}
use amqprs.Prelude.Map.{insert}
use amqprs.Frame.MethodHeader.{header_eq}
use amqprs.Frame.Frames.{Frame}
use amqprs.Api.Dispatcher.{
  Peers, ConsumerMessage, ChannelDispatcher, DispatcherManagementCommand, register_content_consumer,
  deregister_content_consumer, register_get_content_responder, register_oneshot_responder,
  register_channel_callback, Output, to_consumer, to_acker,
}
use amqprs.Api.Dispatcher.Consumers.{
  register_tx, get_or_new_consumer_resource, put_consumer_resource, purge_consumer_resource,
  remove_consumer_resource,
}
use amqprs.Api.Dispatcher.Frames.{Handled, Next, proceed, exit, handle_frame}

-- What `select!` takes: a command, a frame, the end of the frames, or a tick of the purge timer.
pub data Event (P : Peers) : Type 0 where
  command : ℕ → DispatcherManagementCommand P → Event P
  frame : ℕ → Frame → Event P
  frames_end : Event P
  purge_tick : ℕ → Event P

-- A task that has exited has taken no event behind the one at which it did.
pub record Run (P : Peers) : Type 0 where
  pub last : ChannelDispatcher P
  pub outputs : List (Output P)
  pub exited : Bool

module _ {P : Peers} where
  -- `while !consumer.fifo.is_empty()`: each message is taken off the front and sent.
  abbrev pub drain : P.ConsumerTx → List ConsumerMessage → List (Output P)
  drain tx [] = []
  drain tx (message ∷ messages) = to_consumer tx message ∷ drain tx messages

  unfoldable pub handle_command :
      ℕ
      → DispatcherManagementCommand P
      → ChannelDispatcher P
      → Outcome (ChannelDispatcher P × List (Output P))
  handle_command now (register_content_consumer consumer_tag tx) d =
      let consumer = register_tx tx (get_or_new_consumer_resource now consumer_tag d) in
      done (
        put_consumer_resource consumer_tag (record consumer { fifo = [] }) d,
        drain tx consumer.fifo,
      )
  handle_command now (deregister_content_consumer consumer_tag) d =
      done (remove_consumer_resource consumer_tag d, [])
  handle_command now (register_get_content_responder tx) d =
      done (record d { get_content_responder = some tx }, [])
  handle_command now (register_oneshot_responder header responder acker) d = do
    assert (P.acker_open now acker)
    done (record d { responders = insert header responder d.responders }, to_acker acker ∷ [])
  handle_command now (register_channel_callback cb) d = done (record d { callback = some cb }, [])

  unfoldable pub step : Event P → ChannelDispatcher P → Handled P
  unfolding handle_command purge_consumer_resource handle_frame
  step (command now c) d = handle_command now c d >>= λ (d', out). done (d', out, proceed)
  step (frame now f) d = handle_frame now f d
  step frames_end d = done (d, [], exit)
  step (purge_tick now) d = done (purge_consumer_resource now d, [], proceed)

  abbrev exit_of : ChannelDispatcher P → List (Output P) → Run P
  exit_of d out = record { last = record d { is_open = false }; outputs = out; exited = true }

  abbrev pub before : List (Output P) → Run P → Run P
  before out r = record r { outputs = out ++ r.outputs }

  abbrev pub after :
      Next → ChannelDispatcher P → List (Output P) → Outcome (Run P) → Outcome (Run P)
  after exit d out rest = done (exit_of d out)
  after proceed d out rest = rest >>= λ r. done (before out r)

  -- A task that is left without an event waits.
  unfoldable pub run : List (Event P) → ChannelDispatcher P → Outcome (Run P)
  unfolding step
  run [] d = done (record { last = d; outputs = []; exited = false })
  run (e ∷ es) d = step e d >>= λ (d', out, next). after next d' out (run es d')
