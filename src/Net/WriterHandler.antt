-- ===== src/Net/WriterHandler.antt =====
-- amqprs/src/net/writer_handler.rs: the task that writes the frames of a connection, and a heartbeat
-- where nothing was written for half of the timeout. Of the socket, the bytes that were handed over,
-- and whether a write succeeds. Times are in milliseconds.
pub mod Sent
pub mod Order
mod Tests
use amqprs.Prelude.{ℕ, ◌+◌, ◌*◌, ◌/◌, Bool, true, false, List, [], ◌∷◌, ◌++◌, leb, if◌then◌else◌}
use amqprs.Frame.Frames.{Frame, heart_beat}
use amqprs.Frame.Decode.{Try, ok, ◌>>=◌}
use amqprs.Net.SplitConnection.{write_frame}
use amqprs.Net.ReaderHandler.Frames.{default_conn_channel}

-- What `select!` takes: a message for the server, with whether the socket takes its bytes, the end of
-- the messages, the end of `sleep_until`, or the notification of a shutdown.
pub data Event : Type 0 where
  outgoing : (now channel_id : ℕ) → Frame → (io : Bool) → Event
  outgoing_end : Event
  timer : (now : ℕ) → (io : Bool) → Event
  shutdown : Event

-- The flag of the connection, the local variable of the loop, and the bytes that the socket took.
pub record WriterHandler : Type 0 where
  pub is_open : Bool
  pub expiration : ℕ
  pub written : List ℕ

pub record Run : Type 0 where
  pub last : WriterHandler
  pub exited : Bool

abbrev pub deadline : ℕ → ℕ → ℕ
deadline now interval = now + 1000 * interval

abbrev pub wrote : Bool → List ℕ → ℕ → WriterHandler → WriterHandler × Bool
wrote true bytes expiration w =
    (record w { expiration = expiration; written = w.written ++ bytes }, false)
wrote false bytes expiration w = (w, true)

-- The state behind an event, and whether the loop is left.
unfoldable pub step : ℕ → ℕ → Event → WriterHandler → Try (WriterHandler × Bool)
step interval frame_max (outgoing now channel_id frame io) w = do
  bytes ← write_frame [] channel_id frame frame_max
  ok (wrote io bytes (deadline now interval) w)
step interval frame_max outgoing_end w = ok (w, true)
step interval frame_max (timer now io) w =
    if leb w.expiration now
    then (do
      bytes ← write_frame [] default_conn_channel heart_beat frame_max
      ok (wrote io bytes (deadline now interval) w))
    else ok (w, false)
step interval frame_max shutdown w = ok (w, true)

abbrev pub after : Bool → WriterHandler → Try Run → Try Run
after true w rest = ok (record { last = record w { is_open = false }; exited = true })
after false w rest = rest

-- A task that is left without an event waits.
unfoldable pub run : ℕ → ℕ → List Event → WriterHandler → Try Run
unfolding step
run interval frame_max [] w = ok (record { last = w; exited = false })
run interval frame_max (e ∷ es) w =
    step interval frame_max e w >>= λ (w', left). after left w' (run interval frame_max es w')

-- A heartbeat is due after half of the timeout.
unfoldable pub run_until_shutdown : ℕ → ℕ → ℕ → List Event → Try Run
unfolding run
run_until_shutdown now heartbeat frame_max es =
    run (heartbeat / 2) frame_max es
      (record { is_open = true; expiration = deadline now (heartbeat / 2); written = [] })
