-- ===== src/Net/ReaderHandler/Loop.antt =====
-- `ReaderHandler::run_until_shutdown` in amqprs/src/net/reader_handler.rs: commands, frames and the
-- timer of heartbeats, in the order in which `select!` takes them. Times are in milliseconds.
use amqprs.Prelude.{
  ℕ, ◌+◌, ◌*◌, Bool, true, false, List, [], ◌∷◌, ◌++◌, Option, none, some, Outcome, done, ◌>>=◌,
  ◌>>◌, assert, leb, if◌then◌else◌,
}
use amqprs.Frame.Frames.{Frame}
use amqprs.Net.ChannelManager.{insert_resource, remove_resource, insert_responder}
use amqprs.Net.ReaderHandler.{
  Parties, ReaderHandler, ConnManagementCommand, register_channel_resource,
  deregister_channel_resource, register_responder, register_connection_callback, Output, to_acker,
  to_acker_id,
}
use amqprs.Net.ReaderHandler.Frames.{Failure, put_manager, handle_frame}

abbrev pub max_heartbeat_miss : ℕ
max_heartbeat_miss = 3

-- What `select!` takes: a command, a frame with its channel, a failure of the stream, or the end of
-- `sleep_until`.
pub data Event (P : Parties) : Type 0 where
  command : ℕ → ConnManagementCommand P → Event P
  read : ℕ → ℕ → Frame → Event P
  read_error : ℕ → Event P
  timer : ℕ → Event P

-- The handler and the local variables of the loop.
pub record Reading (P : Parties) : Type 0 where
  pub handler : ReaderHandler P
  pub expiration : ℕ
  pub heartbeat_miss : ℕ

-- `shutdown` is the notification that is sent at the end: whether it was a failure of the network.
pub record Run (P : Parties) : Type 0 where
  pub last : Reading P
  pub outputs : List (Output P)
  pub shutdown : Option Bool

abbrev pub deadline : ℕ → ℕ → ℕ
deadline now max_interval = now + 1000 * max_interval

module _ {P : Parties} where
  unfoldable pub handle_command :
      ℕ → ConnManagementCommand P → ReaderHandler P → Outcome (ReaderHandler P × List (Output P))
  handle_command now (register_channel_resource channel_id acker resource) h = do
    (manager, id) ← insert_resource h.channel_manager channel_id resource
    assert (P.acker_open now acker)
    done (put_manager manager h, to_acker_id acker id ∷ [])
  handle_command now (deregister_channel_resource channel_id) h = do
    (manager, resource) ← remove_resource h.channel_manager channel_id
    done (put_manager manager h, [])
  handle_command now (register_responder channel_id header responder acker) h =
      let (manager, replaced) = insert_responder h.channel_manager channel_id header responder in
      do assert (P.acker_open now acker); done (put_manager manager h, to_acker acker ∷ [])
  handle_command now (register_connection_callback cb) h =
      done (record h { callback = some cb }, [])

  -- The state behind an event, what was done, and the notification where the loop is left.
  abbrev pub after_frame :
      Reading P → List (Output P) → Option Failure → Reading P × List (Output P) × Option Bool
  after_frame r out (some failure) = (r, out, some true)
  after_frame r out none = (r, out, if r.handler.is_open then none else some false)

  unfoldable pub step :
      ℕ → Event P → Reading P → Outcome (Reading P × List (Output P) × Option Bool)
  unfolding handle_command handle_frame
  step max_interval (command now c) r = do
    (h, out) ← handle_command now c r.handler
    done (record r { handler = h }, out, none)
  step max_interval (read now channel_id frame) r = do
    (h, out, failed) ← handle_frame now channel_id frame r.handler
    done (after_frame (record r { handler = h; expiration = deadline now max_interval }) out failed)
  step max_interval (read_error now) r =
      done (record r { expiration = deadline now max_interval }, [], some true)
  step max_interval (timer now) r =
      if leb r.expiration now
      then done (
        record r { expiration = deadline now max_interval; heartbeat_miss = r.heartbeat_miss + 1 },
        [],
        if leb max_heartbeat_miss (r.heartbeat_miss + 1) then some true else none,
      )
      else done (r, [], none)

  abbrev pub shut_down : Reading P → List (Output P) → Bool → Run P
  shut_down r out is_network_failure = record {
    last = record r { handler = record r.handler { is_open = false } };
    outputs = out;
    shutdown = some is_network_failure;
  }

  abbrev pub after : Option Bool → Reading P → List (Output P) → Outcome (Run P) → Outcome (Run P)
  after (some is_network_failure) r out rest = done (shut_down r out is_network_failure)
  after none r out rest = rest >>= λ x. done (record x { outputs = out ++ x.outputs })

  -- A task that is left without an event waits.
  unfoldable pub run : ℕ → List (Event P) → Reading P → Outcome (Run P)
  unfolding step
  run max_interval [] r = done (record { last = r; outputs = []; shutdown = none })
  run max_interval (e ∷ es) r =
      step max_interval e r >>= λ (r', out, end). after end r' out (run max_interval es r')

  unfoldable pub run_until_shutdown : ℕ → ℕ → List (Event P) → ReaderHandler P → Outcome (Run P)
  unfolding run
  run_until_shutdown now heartbeat es h =
      run heartbeat es
        (record { handler = h; expiration = deadline now heartbeat; heartbeat_miss = 0 })
