-- ===== src/Net/ReaderHandler/Tests.antt =====
-- The theorems on amqprs/src/net/reader_handler.rs at a new connection. Senders and callbacks are
-- numbers here, receiving halves stay alive, and callbacks succeed.
use amqprs.Prelude.{
  ℕ, ◌≡◌, refl, true, inl, inr, List, [], ◌∷◌, ◌++◌, none, some, done, arith, nat_eq,
}
use amqprs.Prelude.Map.{lookup}
use amqprs.Serde.Types.{ShortStr}
use amqprs.Frame.Methods
use amqprs.Frame.Method.Connection.{Close}
use amqprs.Frame.Frames.{Frame, method, heart_beat, content_body}
use amqprs.Net.ChannelIdRepo.Laws.{Covers}
use amqprs.Net.ChannelIdRepo.Fresh.{new_lem}
use amqprs.Net.ChannelManager
use amqprs.Net.ChannelManager.{ChannelResource, new_resource}
use amqprs.Net.ChannelManager.Invariant.{Inv, new-Inv}
use amqprs.Net.ChannelManager.Sound.{Sound}
use amqprs.Net.ReaderHandler.{Parties, register_channel_resource, to_acker_id, new}
use amqprs.Net.ReaderHandler.Loop.{
  Event, command, read, timer, Reading, Run, deadline, shut_down, run, run_until_shutdown,
}
use amqprs.Net.ReaderHandler.Reachable.{run_until_shutdown-Sound}
use amqprs.Net.ReaderHandler.Heartbeat.{beats, run-missed}
use amqprs.Net.ReaderHandler.Arrivals.{Arrives, brought_all}
use amqprs.Net.ReaderHandler.Channels.{close_outputs, refused, run-registered, run-close_connection}

abbrev alive : Parties
alive = record {
  Responder = ℕ;
  Dispatcher = ℕ;
  Acker = ℕ;
  Callback = ℕ;
  responder_open = λ now responder. true;
  dispatcher_open = λ now dispatcher. true;
  acker_open = λ now acker. true;
  outgoing_open = λ now. true;
  close_result = λ now cb m. true;
}

abbrev start : Reading alive
start = record {
  handler = record { is_open = true; callback = some 4; channel_manager = ChannelManager.new 10 };
  expiration = 60000;
  heartbeat_miss = 0;
}

run-missed_example :
    run 60
      (timer 60000 ∷ (beats (61000 ∷ []) ++ (timer 121000 ∷ (beats [] ++ (timer 181000 ∷ [])))))
      start
    ≡ done
        (shut_down (record start { expiration = deadline 181000 60; heartbeat_miss = 3 }) [] true)
run-missed_example =
    run-missed 60 start 60000 121000 181000 (61000 ∷ []) [] [] refl refl (omega arith) (omega arith)
      (omega arith)

new-Covers : Covers start.handler.channel_manager.channel_id_repo 3
unfolding ChannelManager.new
new-Covers = let (_, _, lo, _) = new_lem 10 in (omega arith, omega arith)

new-lookup : lookup 3 start.handler.channel_manager.resource ≡ none
unfolding ChannelManager.new
new-lookup = refl

abbrev text : ShortStr
text = record { len = 1; text = 99 ∷ [] }

abbrev closing : Close
closing = record { reply_code = 320; reply_text = text; class_id = 0; method_id = 0 }

run-close_connection_example :
    run 60 (read 5 0 (method (Methods.close closing)) ∷ []) start
    ≡ done (
        shut_down
          (record start { expiration = deadline 5 60 })
          (close_outputs 5 start.handler.callback closing)
          (refused alive 5 start.handler.callback closing))
run-close_connection_example = run-close_connection 60 5 0 closing [] start refl

fresh-Covers : Covers (new alive 10).channel_manager.channel_id_repo 3
unfolding new
fresh-Covers = new-Covers

fresh-lookup : lookup 3 (new alive 10).channel_manager.resource ≡ none
unfolding new
fresh-lookup = new-lookup

fresh-Inv : Inv (new alive 10).channel_manager
unfolding new
fresh-Inv = new-Inv 10

fresh_open : (new alive 10).is_open ≡ true
unfolding new
fresh_open = refl

abbrev fresh : Reading alive
fresh = record { handler = new alive 10; expiration = deadline 0 60; heartbeat_miss = 0 }

abbrev body : Frame
body = content_body (record { inner = [] })

-- Two frames for the channel, with a heartbeat and a timer that is early between them.
abbrev arrivals : ℕ → List (Event alive)
arrivals id = read 10 id body ∷ read 20 0 heart_beat ∷ timer 60000 ∷ read 60005 id body ∷ []

arrivals-Arrives : (id : ℕ) → Arrives 60 id 7 60000 (arrivals id)
arrivals-Arrives id = (inr (refl, tt, refl), (inl refl, (omega arith, (inr (refl, tt, refl), tt))))

registered :
    (es : List (Event alive)) × (r : Run alive) × (run_until_shutdown 0 60 es (new alive 10)
      ≡ done r)
unfolding run_until_shutdown
registered =
    let (id, _, _, _, reads) =
      run-registered 60 5 fresh 8 7 3 fresh-Inv fresh-Covers (omega arith) fresh-lookup fresh_open
        refl in
    let (last, e) = reads (arrivals id) (arrivals-Arrives id) in
    (
      command 5 (register_channel_resource none 8 (new_resource (some 7))) ∷ arrivals id,
      record {
        last = last;
        outputs = to_acker_id 8 (some id) ∷ brought_all 7 (arrivals id);
        shutdown = none;
      },
      e,
    )

run_until_shutdown-Sound_example : Sound registered.1.last.handler.channel_manager
run_until_shutdown-Sound_example =
    run_until_shutdown-Sound 10 0 60 registered.0 registered.1 (omega arith) registered.2
