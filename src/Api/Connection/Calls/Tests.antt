-- ===== src/Api/Connection/Calls/Tests.antt =====
-- The calls of a connection in amqprs/src/api/connection.rs, with a reader that is new. The ends of
-- the channels of tokio are numbers here, and receiving halves stay alive.
use amqprs.Prelude.{
  ℕ, ◌≡◌, refl, true, false, List, [], ◌∷◌, drop, ◌⊎◌, inl, inr, is_some, Option, none, some, done,
  arith, nat_eq,
}
use amqprs.Prelude.Map.{lookup}
use amqprs.Frame.Method.Channel.{OpenChannelOk}
use amqprs.Frame.Methods
use amqprs.Frame.Methods.{Method, method_header}
use amqprs.Frame.Frames.{Frame, method}
use amqprs.Net.ChannelIdRepo.Laws.{Covers}
use amqprs.Net.ChannelIdRepo.Fresh.{new_lem}
use amqprs.Net.ChannelManager
use amqprs.Net.ChannelManager.{ChannelManager, new_resource}
use amqprs.Net.ChannelManager.Invariant.{Inv, new-Inv, insert_resource-requested}
use amqprs.Net.ReaderHandler.{
  Parties, Output, register_channel_resource, to_acker_id, to_acker, to_responder,
}
use amqprs.Net.ReaderHandler.Frames.{default_conn_channel}
use amqprs.Net.ReaderHandler.Loop.{read, Reading, run, shut_down}
use amqprs.Api.Dispatcher.{Peers}
use amqprs.Api.Call.{
  World, Caller, returned, failed, managed, Receipt, arrives, dropped, pending, channel_open_error,
  internal_channel_error,
}
use amqprs.Api.Connection.Calls.{open_channel, close_connection}
use amqprs.Api.Connection.Channels.{
  Among, first, later, ConnHears, run-opening, opening_log, opened_events, open_channel-answered,
}
use amqprs.Api.Connection.Closing.{
  closed_ok, registration, closing_log, run-closing, left_run, run-heart_beat_closing,
  close_connection-answered, close_connection-interrupted,
}
use amqprs.Api.Connection.Refused.{run-refused, open_channel-refused}

abbrev peers : Peers
peers = record {
  ConsumerTx = ℕ;
  GetTx = ℕ;
  Responder = ℕ;
  Acker = ℕ;
  Callback = ℕ;
  get_open = λ now tx. true;
  responder_open = λ now tx. true;
  acker_open = λ now tx. true;
  outgoing_open = λ now. true;
  close_result = λ now cb m. true;
  flow_result = λ now cb active. some active;
  cancel_result = λ now cb m. true;
}

abbrev alive : Parties
alive = record {
  Responder = ℕ;
  Dispatcher = ℕ;
  Acker = ℕ;
  Callback = ℕ;
  responder_open = λ now responder. true;
  dispatcher_open = λ now dispatcher. true;
  acker_open = λ now acker. true;
  outgoing_open = λ now. true;
  close_result = λ now cb m. true;
}

-- Everything that is sent arrives; what the reader answers is given.
abbrev world : Option ℕ → Receipt Frame → World peers alive
world granted response = record {
  oneshot = λ log. 4;
  acker = λ log. 9;
  getter = λ log. 5;
  consumer = λ log. 7;
  conn_oneshot = λ log. 4;
  conn_acker = λ log. 9;
  dispatcher = λ log. 6;
  takes_command = λ log. true;
  takes_management = λ log. true;
  takes_frame = λ log. true;
  acknowledges = λ log a. arrives tt;
  conn_acknowledges = λ log a. arrives tt;
  grants_id = λ log a. arrives granted;
  responds = λ log r. pending;
  conn_responds = λ log r. response;
  gets = λ log tx. pending;
}

abbrev caller : Caller peers alive
caller = record { is_open = true; log = [] }

abbrev start : Reading alive
start = record {
  handler = record { is_open = true; callback = none; channel_manager = ChannelManager.new 10 };
  expiration = 60000;
  heartbeat_miss = 0;
}

Among-cases :
    (o x : Output alive) (os : List (Output alive)) → Among o (x ∷ os) → (o ≡ x) ⊎ Among o os
Among-cases o x os (first _) = inl refl
Among-cases o x os (later _ d) = inr d

Among-none : (o : Output alive) → Among o [] → ⊥
Among-none o d = elim d [ ]

-- What the reader does for one that is opened: an id, an acknowledgement, and a response.
opening-ConnHears :
    (id : Option ℕ) (f : Frame)
    → ConnHears (world id (arrives f)) (to_acker_id 9 id ∷ to_acker 9 ∷ to_responder 4 f ∷ [])
opening-ConnHears id f = record {
  ids = λ log a id' d. elim (Among-cases _ _ _ d) [
    | inl e ↦ cc e
    | inr d' ↦ elim (Among-cases _ _ _ d') [
      | inl e ↦ absurd (cc e)
      | inr d'' ↦ elim (Among-cases _ _ _ d'') [
        | inl e ↦ absurd (cc e)
        | inr d₃ ↦ absurd (Among-none _ d₃)
      ]
    ]
  ];
  acks = λ log a d. refl;
  answers = λ log r g d. elim (Among-cases _ _ _ d) [
    | inl e ↦ absurd (cc e)
    | inr d' ↦ elim (Among-cases _ _ _ d') [
      | inl e ↦ absurd (cc e)
      | inr d'' ↦ elim (Among-cases _ _ _ d'') [ inl e ↦ cc e | inr d₃ ↦ absurd (Among-none _ d₃) ]
    ]
  ];
}

new-Covers : Covers start.handler.channel_manager.channel_id_repo 3
unfolding ChannelManager.new
new-Covers = let (_, _, lo, _) = new_lem 10 in (omega arith, omega arith)

new-lookup : lookup 3 start.handler.channel_manager.resource ≡ none
unfolding ChannelManager.new
new-lookup = refl

abbrev open_channel_ok : OpenChannelOk
open_channel_ok = record { channel_id = record { len = 0; text = [] } }

abbrev opening_world : World peers alive
opening_world = world (some 3) (arrives (method (Methods.open_channel_ok open_channel_ok)))

abbrev Opened : Reading alive → Type 0
Opened last =
    run 60 (opened_events 0 3 opening_world [] open_channel_ok) start
    ≡ done (record {
      last = last;
      outputs =
          to_acker_id 9 (some 3)
          ∷ to_acker 9
          ∷ to_responder 4 (method (Methods.open_channel_ok open_channel_ok))
          ∷ [];
      shutdown = none;
    })

opened : (last : Reading alive) × Opened last
opened =
    run-opening 60 0 3 start 9 9 6 4 open_channel_ok (new-Inv 10) new-Covers new-lookup refl refl
      refl refl

open_channel-answered_example :
    open_channel (some 3) opening_world caller
    ≡ returned 3 (record caller { log = opening_log [] 3 9 6 4 9 open_channel_ok })
open_channel-answered_example =
    open_channel-answered 0 60 3 start opening_world caller _ open_channel_ok (new-Inv 10)
      new-Covers new-lookup refl (λ a. refl) (λ x. refl) (λ log. refl) (λ log. refl) opened.1
      (opening-ConnHears _ _)

-- The reader with the resource of the connection.
abbrev ready : Reading alive
ready = record start {
  handler = record start.handler {
    channel_manager = record start.handler.channel_manager {
      resource = (0, new_resource none) ∷ [];
    };
  };
}

abbrev closing_world : World peers alive
closing_world = world none (arrives (method closed_ok))

abbrev Closed : Reading alive → Type 0
Closed last =
    run 60 (registration 0 4 9 ∷ read 0 default_conn_channel (method closed_ok) ∷ []) ready
    ≡ done (shut_down last (to_acker 9 ∷ to_responder 4 (method closed_ok) ∷ []) false)

closed : (last : Reading alive) × Closed last
closed = run-closing 60 0 ready 4 9 [] refl refl refl

closing-ConnHears :
    (f : Frame) → ConnHears (world none (arrives f)) (to_acker 9 ∷ to_responder 4 f ∷ [])
closing-ConnHears f =
    let h = opening-ConnHears none f in
    record {
      ids = λ log a id d. h.ids log a id (later _ d);
      acks = λ log a d. h.acks log a (later _ d);
      answers = λ log r g d. h.answers log r g (later _ d);
    }

close_connection-answered_example :
    (some false ≡ some false)
    × (false ≡ false)
    × (close_connection closing_world caller
        ≡ returned tt (record { is_open = false; log = closing_log [] 4 9 }))
close_connection-answered_example =
    close_connection-answered 60 0 ready closing_world caller [] _ refl refl refl refl refl
      (λ log. refl) closed.1 (closing-ConnHears _)

abbrev shut_start : Reading alive
shut_start = record ready { handler = record ready.handler { is_open = false } }

abbrev silent_world : World peers alive
silent_world = world none dropped

silent-ConnHears : ConnHears silent_world (to_acker 9 ∷ [])
silent-ConnHears = record {
  ids = λ log a id d. elim (Among-cases _ _ _ d) [
    | inl e ↦ absurd (cc e)
    | inr d' ↦ absurd (Among-none _ d')
  ];
  acks = λ log a d. refl;
  answers = λ log r g d. elim (Among-cases _ _ _ d) [
    | inl e ↦ absurd (cc e)
    | inr d' ↦ absurd (Among-none _ d')
  ];
}

close_connection-interrupted_example :
    close_connection silent_world caller
    ≡ failed internal_channel_error (record { is_open = false; log = drop 1 (closing_log [] 4 9) })
close_connection-interrupted_example =
    close_connection-interrupted 60 0 shut_start silent_world caller []
      (left_run 60 0 shut_start 4 9) refl refl refl refl (λ log. refl)
      (run-heart_beat_closing 60 0 shut_start 4 9 [] refl refl) silent-ConnHears
      (record { drops = λ log r b e none_sent. refl })

-- Channel 3 is open.
abbrev Busy : ChannelManager ℕ ℕ → Type 0
Busy m = Inv m × Covers m.channel_id_repo 3 × (is_some (lookup 3 m.resource) ≡ true)

busy : (m : ChannelManager ℕ ℕ) × Busy m
busy =
    elim (insert_resource-requested start.handler.channel_manager (new-Inv 10) 3 (new_resource none)
      new-Covers) [
        | inl (there, e) ↦ absurd (cc (there, new-lookup))
        | inr (m, free, e, i) ↦
            (m, (i.inv, (omega arith, omega (arith, i.size, new-Covers.1)), rw (i.found 3) refl))
      ]

busy-Inv : Inv busy.0
busy-Inv = let (v, _, _) = busy.1 in v

busy-Covers : Covers busy.0.channel_id_repo 3
busy-Covers = let (_, c, _) = busy.1 in c

busy-is_some : is_some (lookup 3 busy.0.resource) ≡ true
busy-is_some = let (_, _, b) = busy.1 in b

abbrev taken_start : Reading alive
taken_start = record start { handler = record start.handler { channel_manager = busy.0 } }

abbrev refusing_world : World peers alive
refusing_world = world none pending

refusing-ConnHears : ConnHears refusing_world (to_acker_id 9 none ∷ [])
refusing-ConnHears = record {
  ids =
      λ log a id d. elim (Among-cases _ _ _ d) [ inl e ↦ cc e | inr d' ↦ absurd (Among-none _ d') ];
  acks = λ log a d. refl;
  answers = λ log r g d. elim (Among-cases _ _ _ d) [
    | inl e ↦ absurd (cc e)
    | inr d' ↦ absurd (Among-none _ d')
  ];
}

open_channel-refused_example :
    (taken_start ≡ taken_start)
    × (open_channel (some 3) refusing_world caller
        ≡ failed channel_open_error (record caller {
          log = managed (register_channel_resource (some 3) 9 (new_resource (some 6))) ∷ [];
        }))
open_channel-refused_example =
    open_channel-refused 60 0 3 taken_start refusing_world caller _ busy-Inv busy-Covers
      busy-is_some refl refl
      (run-refused 60 0 3 taken_start 9 6 busy-Inv busy-Covers busy-is_some refl) refusing-ConnHears
