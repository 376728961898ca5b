-- ===== src/Net/ReaderHandler/Heartbeat.antt =====
-- The timer of heartbeats in amqprs/src/net/reader_handler.rs.
use amqprs.Prelude.{
  ℕ, ◌+◌, ◌≤◌, ◌<◌, ◌≡◌, refl, ◌∙◌, true, false, List, [], ◌∷◌, ◌++◌, none, some, Outcome, done,
  panic, ◌>>=◌, leb, if◌then◌else◌, arith,
}
use amqprs.Frame.Frames.{Frame, heart_beat}
use amqprs.Net.ReaderHandler.{Parties}
use amqprs.Net.ReaderHandler.Frames.{handle_frame}
use amqprs.Net.ReaderHandler.Loop.{
  Event, command, read, read_error, timer, Reading, Run, deadline, step, shut_down, run,
}

-- The deadline behind frames at these times.
abbrev pub latest : ℕ → ℕ → List ℕ → ℕ
latest max_interval expiration [] = expiration
latest max_interval expiration (now ∷ times) = latest max_interval (deadline now max_interval) times

module _ {P : Parties} where
  pub beat_step :
      (max_interval now channel_id : ℕ) (frame : Frame) (r : Reading P)
      → r.handler.is_open ≡ true
      → frame ≡ heart_beat
      → step max_interval (read now channel_id frame) r
        ≡ done (record r { expiration = deadline now max_interval }, [], none)
  unfolding step handle_frame
  beat_step max_interval now channel_id frame r e beat = rw (beat, e) refl

  pub early_step :
      (max_interval now : ℕ) (r : Reading P)
      → now < r.expiration
      → step max_interval (timer now) r ≡ done (r, [], none)
  unfolding step
  early_step max_interval now r h =
      let early : leb r.expiration now ≡ false = ground arith in rw early refl

  -- Heartbeats of the server, and ends of the timer that come before the deadline of the last frame.
  abbrev pub Punctual : ℕ → ℕ → List (Event P) → Type 0
  Punctual max_interval expiration [] = Unit {0}
  Punctual max_interval expiration (read now channel_id frame ∷ es) =
      (frame ≡ heart_beat) × Punctual max_interval (deadline now max_interval) es
  Punctual max_interval expiration (timer now ∷ es) =
      (now < expiration) × Punctual max_interval expiration es
  Punctual max_interval expiration (command now c ∷ es) = ⊥
  Punctual max_interval expiration (read_error now ∷ es) = ⊥

  -- On an open connection, heartbeats of the server with ends of the timer that come before the
  -- deadline of the last frame keep the task going: it counts no miss, and does nothing.
  pub run-Punctual :
      (max_interval : ℕ) (es : List (Event P)) (r : Reading P)
      → r.handler.is_open ≡ true
      → Punctual max_interval r.expiration es
      → (expiration : ℕ) × (run max_interval es r
          ≡ done (record {
            last = record r { expiration = expiration };
            outputs = [];
            shutdown = none;
          }))
  unfolding run
  run-Punctual max_interval [] r o p = (r.expiration, refl)
  run-Punctual max_interval (read now channel_id frame ∷ es) r o (beat, p) =
      let r' : Reading P = record r { expiration = deadline now max_interval } in
      let (expiration, e) = run-Punctual max_interval es r' o p in
      (expiration, rw (beat_step max_interval now channel_id frame r o beat, e) refl)
  run-Punctual max_interval (timer now ∷ es) r o (early, p) =
      let (expiration, e) = run-Punctual max_interval es r o p in
      (expiration, rw (early_step max_interval now r early, e) refl)
  run-Punctual max_interval (command now c ∷ es) r o p = elim p [ ]
  run-Punctual max_interval (read_error now ∷ es) r o p = elim p [ ]

  quiet_lem : (o : Outcome (Run P)) → (o >>= λ x. done (record x { outputs = [] ++ x.outputs })) ≡ o
  quiet_lem panic = refl
  quiet_lem (done x) = refl

  quiet_step :
      (max_interval : ℕ) (e : Event P) (es : List (Event P)) (r r' : Reading P)
      → step max_interval e r ≡ done (r', [], none)
      → run max_interval (e ∷ es) r ≡ run max_interval es r'
  unfolding run
  quiet_step max_interval e es r r' p = rw p (quiet_lem (run max_interval es r'))

  -- Heartbeats of the server at these times.
  abbrev pub beats : List ℕ → List (Event P)
  beats [] = []
  beats (now ∷ times) = read now 0 heart_beat ∷ beats times

  run-beats :
      (max_interval : ℕ) (times : List ℕ) (es : List (Event P)) (r : Reading P)
      → r.handler.is_open ≡ true
      → run max_interval (beats times ++ es) r
        ≡ run max_interval es (record r { expiration = latest max_interval r.expiration times })
  run-beats max_interval [] es r o = refl
  run-beats max_interval (now ∷ times) es r o =
      let r' : Reading P = record r { expiration = deadline now max_interval } in
      quiet_step max_interval (read now 0 heart_beat) (beats times ++ es) r r'
        (beat_step max_interval now 0 heart_beat r o refl)
      ∙ run-beats max_interval times es r' o

  miss_step :
      (max_interval now : ℕ) (r : Reading P)
      → r.expiration ≤ now
      → step max_interval (timer now) r
        ≡ done (
          record r {
            expiration = deadline now max_interval;
            heartbeat_miss = r.heartbeat_miss + 1;
          },
          [],
          if leb 3 (r.heartbeat_miss + 1) then some true else none,
        )
  unfolding step
  miss_step max_interval now r h =
      let due : leb r.expiration now ≡ true = ground arith in rw due refl

  -- On an open connection that has counted no miss, the third end of the timer at or behind a
  -- deadline ends the task with the notification of a network failure, whatever heartbeats of the
  -- server came between the three.
  pub run-missed :
      (max_interval : ℕ) (r : Reading P) (t₁ t₂ t₃ : ℕ) (beats₁ beats₂ : List ℕ)
      (es : List (Event P))
      → r.handler.is_open ≡ true
      → r.heartbeat_miss ≡ 0
      → r.expiration ≤ t₁
      → latest max_interval (deadline t₁ max_interval) beats₁ ≤ t₂
      → latest max_interval (deadline t₂ max_interval) beats₂ ≤ t₃
      → run max_interval
          (timer t₁ ∷ (beats beats₁ ++ (timer t₂ ∷ (beats beats₂ ++ (timer t₃ ∷ es)))))
          r
        ≡ done (
            shut_down
              (record r { expiration = deadline t₃ max_interval; heartbeat_miss = 3 })
              []
              true)
  unfolding run
  run-missed max_interval r t₁ t₂ t₃ beats₁ beats₂ es o none_yet h₁ h₂ h₃ =
      let es₃ : List (Event P) = timer t₃ ∷ es in
      let es₂ : List (Event P) = timer t₂ ∷ (beats beats₂ ++ es₃) in
      let r₁ : Reading P = record r { expiration = deadline t₁ max_interval; heartbeat_miss = 1 } in
      let r₁' : Reading P = record r₁ {
        expiration = latest max_interval (deadline t₁ max_interval) beats₁;
      } in
      let r₂ : Reading P = record r { expiration = deadline t₂ max_interval; heartbeat_miss = 2 } in
      let r₂' : Reading P = record r₂ {
        expiration = latest max_interval (deadline t₂ max_interval) beats₂;
      } in
      quiet_step max_interval (timer t₁) (beats beats₁ ++ es₂) r r₁
        (miss_step max_interval t₁ r h₁ ∙ rw none_yet refl)
      ∙ run-beats max_interval beats₁ es₂ r₁ o
      ∙ quiet_step max_interval (timer t₂) (beats beats₂ ++ es₃) r₁' r₂
          (miss_step max_interval t₂ r₁' h₂)
      ∙ run-beats max_interval beats₂ es₃ r₂ o
      ∙ rw (miss_step max_interval t₃ r₂' h₃) refl
