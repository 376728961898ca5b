-- ===== src/Net/ReaderHandler/Arrivals.antt =====
-- The frames of a channel that arrive while its dispatcher is alive, in
-- amqprs/src/net/reader_handler.rs.
use amqprs.Prelude.{
  ℕ, ◌⊎◌, ◌<◌, ◌≡◌, refl, true, inl, inr, List, [], ◌∷◌, ◌++◌, none, some, done, nat_eq,
}
use amqprs.Frame.Frames.{Frame, method, heart_beat, content_header, content_body, publish_combo}
use amqprs.Net.ChannelManager.{get_dispatcher}
use amqprs.Net.ReaderHandler.{
  ConnManagementCommand, Parties, ReaderHandler, register_connection_callback, Output,
  to_dispatcher,
}
use amqprs.Net.ReaderHandler.Frames.{for_channel, role, dispatch, handle_role, handle_frame}
use amqprs.Net.ReaderHandler.Loop.{
  Event, command, read, read_error, timer, Reading, deadline, handle_command, step, run,
}
use amqprs.Net.ReaderHandler.Heartbeat.{beat_step, early_step}

-- The frames that are not handled at the connection.
abbrev pub ForChannel : Frame → Type 0
ForChannel (method m) = role m ≡ for_channel
ForChannel heart_beat = ⊥
ForChannel (content_header h) = Unit {0}
ForChannel (content_body b) = Unit {0}
ForChannel (publish_combo p h b) = Unit {0}

module _ {P : Parties} where
  dispatched :
      (now channel_id : ℕ) (frame : Frame) (h : ReaderHandler P)
      → ForChannel frame
      → handle_frame now channel_id frame h ≡ dispatch now channel_id frame h
  unfolding handle_frame handle_role
  dispatched now channel_id (method m) h w = rw w refl
  dispatched now channel_id heart_beat h w = elim w [ ]
  dispatched now channel_id (content_header c) h w = refl
  dispatched now channel_id (content_body b) h w = refl
  dispatched now channel_id (publish_combo p c b) h w = refl

  dispatch_lem :
      (now channel_id : ℕ) (frame : Frame) (dispatcher : P.Dispatcher) (h : ReaderHandler P)
      → get_dispatcher h.channel_manager channel_id ≡ some dispatcher
      → P.dispatcher_open now dispatcher ≡ true
      → dispatch now channel_id frame h ≡ done (h, to_dispatcher dispatcher frame ∷ [], none)
  unfolding dispatch
  dispatch_lem now channel_id frame dispatcher h e alive = rw (e, alive) refl

  frame_step :
      (max_interval now channel_id : ℕ) (frame : Frame) (dispatcher : P.Dispatcher) (r : Reading P)
      → ForChannel frame
      → get_dispatcher r.handler.channel_manager channel_id ≡ some dispatcher
      → P.dispatcher_open now dispatcher ≡ true
      → r.handler.is_open ≡ true
      → step max_interval (read now channel_id frame) r
        ≡ done (
          record r { expiration = deadline now max_interval },
          to_dispatcher dispatcher frame ∷ [],
          none,
        )
  unfolding step
  frame_step max_interval now channel_id frame dispatcher r w found alive o =
      rw
        (
          dispatched now channel_id frame r.handler w,
          dispatch_lem now channel_id frame dispatcher r.handler found alive,
          o,
        )
        refl

  callback_step :
      (max_interval now : ℕ) (c : ConnManagementCommand P) (cb : P.Callback) (r : Reading P)
      → c ≡ register_connection_callback cb
      → step max_interval (command now c) r
        ≡ done (record r { handler = record r.handler { callback = some cb } }, [], none)
  unfolding step handle_command
  callback_step max_interval now c cb r same = rw same refl

  -- What the dispatcher of a channel gets of a frame.
  abbrev pub brought : P.Dispatcher → Frame → List (Output P)
  brought dispatcher (method m) = to_dispatcher dispatcher (method m) ∷ []
  brought dispatcher heart_beat = []
  brought dispatcher (content_header h) = to_dispatcher dispatcher (content_header h) ∷ []
  brought dispatcher (content_body b) = to_dispatcher dispatcher (content_body b) ∷ []
  brought dispatcher (publish_combo p h b) = to_dispatcher dispatcher (publish_combo p h b) ∷ []

  brought_lem :
      (dispatcher : P.Dispatcher) (frame : Frame)
      → ForChannel frame
      → brought dispatcher frame ≡ to_dispatcher dispatcher frame ∷ []
  brought_lem dispatcher (method m) w = refl
  brought_lem dispatcher heart_beat w = elim w [ ]
  brought_lem dispatcher (content_header h) w = refl
  brought_lem dispatcher (content_body b) w = refl
  brought_lem dispatcher (publish_combo p h b) w = refl

  -- What the dispatcher of a channel gets of the events.
  abbrev pub brought_all : P.Dispatcher → List (Event P) → List (Output P)
  brought_all dispatcher [] = []
  brought_all dispatcher (read now channel_id frame ∷ es) =
      brought dispatcher frame ++ brought_all dispatcher es
  brought_all dispatcher (command now c ∷ es) = brought_all dispatcher es
  brought_all dispatcher (read_error now ∷ es) = brought_all dispatcher es
  brought_all dispatcher (timer now ∷ es) = brought_all dispatcher es

  -- Frames for the channel of this id while its dispatcher is alive, heartbeats, ends of the timer
  -- that come before the deadline of the last frame, and new callbacks of the connection.
  abbrev pub Arrives : ℕ → ℕ → P.Dispatcher → ℕ → List (Event P) → Type 0
  Arrives max_interval id dispatcher expiration [] = Unit {0}
  Arrives max_interval id dispatcher expiration (read now channel_id frame ∷ es) =
      ((frame ≡ heart_beat)
        ⊎ ((channel_id ≡ id) × ForChannel frame × (P.dispatcher_open now dispatcher ≡ true)))
      × Arrives max_interval id dispatcher (deadline now max_interval) es
  Arrives max_interval id dispatcher expiration (timer now ∷ es) =
      (now < expiration) × Arrives max_interval id dispatcher expiration es
  Arrives max_interval id dispatcher expiration (command now c ∷ es) =
      ((cb : P.Callback) × (c ≡ register_connection_callback cb))
      × Arrives max_interval id dispatcher expiration es
  Arrives max_interval id dispatcher expiration (read_error now ∷ es) = ⊥

  -- The channel's frames go to its dispatcher, in their order.
  abbrev pub Brings : ℕ → P.Dispatcher → List (Event P) → Reading P → Type 0
  Brings max_interval dispatcher es r =
      (last : Reading P) × (run max_interval es r
        ≡ done (record { last = last; outputs = brought_all dispatcher es; shutdown = none }))

  -- On an open connection, the dispatcher gets the frames of its channel, in their order.
  pub run-Arrives :
      (max_interval id : ℕ) (dispatcher : P.Dispatcher) (es : List (Event P)) (r : Reading P)
      → r.handler.is_open ≡ true
      → get_dispatcher r.handler.channel_manager id ≡ some dispatcher
      → Arrives max_interval id dispatcher r.expiration es
      → Brings max_interval dispatcher es r
  unfolding run
  run-Arrives max_interval id dispatcher [] r o found w = (r, refl)
  run-Arrives max_interval id dispatcher (read now channel_id frame ∷ es) r o found (inl beat, w) =
      let r' : Reading P = record r { expiration = deadline now max_interval } in
      let (last, e) = run-Arrives max_interval id dispatcher es r' o found w in
      (last, rw (beat_step max_interval now channel_id frame r o beat, e, beat) refl)
  run-Arrives max_interval id dispatcher (read now channel_id frame ∷ es) r o found
        (inr (same, at, alive), w) =
      let r' : Reading P = record r { expiration = deadline now max_interval } in
      let (last, e) = run-Arrives max_interval id dispatcher es r' o found w in
      (
        last,
        rw
            (
              same,
              frame_step max_interval now id frame dispatcher r at found alive o,
              e,
              brought_lem dispatcher frame at,
            )
            refl,
      )
  run-Arrives max_interval id dispatcher (timer now ∷ es) r o found (early, w) =
      let (last, e) = run-Arrives max_interval id dispatcher es r o found w in
      (last, rw (early_step max_interval now r early, e) refl)
  run-Arrives max_interval id dispatcher (command now c ∷ es) r o found ((cb, same), w) =
      let r' : Reading P = record r { handler = record r.handler { callback = some cb } } in
      let (last, e) = run-Arrives max_interval id dispatcher es r' o found w in
      (last, rw (callback_step max_interval now c cb r same, e) refl)
  run-Arrives max_interval id dispatcher (read_error now ∷ es) r o found w = elim w [ ]
