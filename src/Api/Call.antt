-- ===== src/Api/Call.antt =====
-- What a call of a channel or of a connection does: the macro `synchronous_request` of
-- amqprs/src/api/mod.rs, the errors of amqprs/src/api/error.rs, and the effects of a call, newest
-- first. The ends of the channels of tokio are values of the interfaces of the two tasks, and what
-- the other tasks answer is a `World` that may look at all that the call has done.
use amqprs.Prelude.{ℕ, Bool, List, ◌∷◌, Option, none, some, Outcome, done, panic, if◌then◌else◌}
use amqprs.Frame.MethodHeader.{MethodHeader}
use amqprs.Frame.Methods.{Method}
use amqprs.Frame.Frames.{Frame, method, heart_beat, content_header, content_body, publish_combo}
use amqprs.Net.ReaderHandler.{Parties, ConnManagementCommand}
use amqprs.Api.Dispatcher.{Peers, DispatcherManagementCommand}

-- The messages of the errors are left out.
pub data Error : Type 0 where
  uri_error : Error
  connection_open_error : Error
  connection_close_error : Error
  connection_use_error : Error
  channel_open_error : Error
  channel_close_error : Error
  channel_use_error : Error
  network_error : Error
  internal_channel_error : Error

-- A value is received, the sender is dropped, or the call waits for ever.
pub data Receipt (A : Type 0) : Type 0 where
  arrives : A → Receipt A
  dropped : Receipt A
  pending : Receipt A

pub data Effect (P : Peers) (Q : Parties) : Type 0 where
  commanded : DispatcherManagementCommand P → Effect P Q
  managed : ConnManagementCommand Q → Effect P Q
  outgoing : ℕ → Frame → Effect P Q
  acknowledged : Effect P Q
  received : Frame → Effect P Q
  spawned : List ℕ → Effect P Q
  dispatching : ℕ → Effect P Q

abbrev pub Log : Peers → Parties → Type 0
Log P Q = List (Effect P Q)

-- The ends that `channel()` makes, whether a receiving half is alive when something is sent to it,
-- and what a receiving half of the call gets.
pub record World (P : Peers) (Q : Parties) : Type 0 where
  pub oneshot : Log P Q → P.Responder
  pub acker : Log P Q → P.Acker
  pub getter : Log P Q → P.GetTx
  pub consumer : Log P Q → P.ConsumerTx
  pub conn_oneshot : Log P Q → Q.Responder
  pub conn_acker : Log P Q → Q.Acker
  pub dispatcher : Log P Q → Q.Dispatcher
  pub takes_command : Log P Q → Bool
  pub takes_management : Log P Q → Bool
  pub takes_frame : Log P Q → Bool
  pub acknowledges : Log P Q → P.Acker → Receipt (Unit {0})
  pub conn_acknowledges : Log P Q → Q.Acker → Receipt (Unit {0})
  pub grants_id : Log P Q → Q.Acker → Receipt (Option ℕ)
  pub responds : Log P Q → P.Responder → Receipt Frame
  pub conn_responds : Log P Q → Q.Responder → Receipt Frame
  pub gets : Log P Q → P.GetTx → Receipt Frame

-- What a call sees and changes: the flag of the object that it is made on, and the log.
pub record Caller (P : Peers) (Q : Parties) : Type 0 where
  pub is_open : Bool
  pub log : Log P Q

pub data Attempt (P : Peers) (Q : Parties) (A : Type 0) : Type 0 where
  returned : A → Caller P Q → Attempt P Q A
  failed : Error → Caller P Q → Attempt P Q A
  waits : Caller P Q → Attempt P Q A
  panics : Caller P Q → Attempt P Q A

abbrev pub Call : Peers → Parties → Type 0 → Type 0
Call P Q A = World P Q → Caller P Q → Attempt P Q A

module _ {P : Peers} {Q : Parties} where
  abbrev pub and_then :
      {A B : Type 0} → Attempt P Q A → (A → Caller P Q → Attempt P Q B) → Attempt P Q B
  and_then (returned a c) f = f a c
  and_then (failed e c) f = failed e c
  and_then (waits c) f = waits c
  and_then (panics c) f = panics c

  infixl 5 ◌>>=◌ ◌>>◌
  abbrev pub ◌>>=◌ : {A B : Type 0} → Call P Q A → (A → Call P Q B) → Call P Q B
  (m >>= f) w c = and_then (m w c) (λ a. f a w)

  abbrev pub ◌>>◌ : {B : Type 0} → Call P Q (Unit {0}) → Call P Q B → Call P Q B
  m >> k = m >>= λ _. k

  abbrev pub return : {A : Type 0} → A → Call P Q A
  return a w c = returned a c

  abbrev pub fail : {A : Type 0} → Error → Call P Q A
  fail e w c = failed e c

  abbrev pub lift_outcome : {A : Type 0} → Outcome A → Call P Q A
  lift_outcome (done a) w c = returned a c
  lift_outcome panic w c = panics c

  abbrev pub record_effect : Effect P Q → Caller P Q → Caller P Q
  record_effect e c = record c { log = e ∷ c.log }

  -- `send(..)?`.
  abbrev pub send : Bool → Effect P Q → Caller P Q → Attempt P Q (Unit {0})
  send taken e c =
      if taken then returned tt (record_effect e c) else failed internal_channel_error c

  abbrev pub send_command : DispatcherManagementCommand P → Call P Q (Unit {0})
  send_command command w c = send (w.takes_command c.log) (commanded command) c

  abbrev pub send_management : ConnManagementCommand Q → Call P Q (Unit {0})
  send_management command w c = send (w.takes_management c.log) (managed command) c

  abbrev pub send_frame : ℕ → Frame → Call P Q (Unit {0})
  send_frame channel_id frame w c = send (w.takes_frame c.log) (outgoing channel_id frame) c

  abbrev pub send_method : ℕ → Method → Call P Q (Unit {0})
  send_method channel_id m = send_frame channel_id (method m)

  -- `rx.await?`, with what is recorded of the value.
  abbrev pub receive :
      {A : Type 0} → (A → Caller P Q → Caller P Q) → Receipt A → Caller P Q → Attempt P Q A
  receive note (arrives a) c = returned a (note a c)
  receive note dropped c = failed internal_channel_error c
  receive note pending c = waits c

  abbrev pub await_ack : Receipt (Unit {0}) → Caller P Q → Attempt P Q (Unit {0})
  await_ack r c = receive (λ _ c'. record_effect acknowledged c') r c

  abbrev pub await_frame : Receipt Frame → Caller P Q → Attempt P Q Frame
  await_frame r c = receive (λ f c'. record_effect (received f) c') r c

-- The pattern `$response(_, method)`.
abbrev pub expected_method : {A : Type 0} → (Method → Option A) → Frame → Option A
expected_method expected (method m) = expected m
expected_method expected heart_beat = none
expected_method expected (content_header _) = none
expected_method expected (content_body _) = none
expected_method expected (publish_combo _ _ _) = none

-- A response that a call waits for: the header of its static `header()`, and the pattern.
pub record Answer (A : Type 0) : Type 0 where
  pub header : MethodHeader
  pub expected : Method → Option A

module _ {P : Peers} {Q : Parties} where
  abbrev pub or_fail : {A : Type 0} → Error → Option A → Call P Q A
  or_fail e none w c = failed e c
  or_fail e (some a) w c = returned a c

  -- `synchronous_request!`, with the receiving half of a channel's or of a connection's responder.
  abbrev pub synchronous_request :
      {A : Type 0}
      → ℕ
      → Method
      → (World P Q → Log P Q → Receipt Frame)
      → (Method → Option A)
      → Error
      → Call P Q A
  synchronous_request channel_id m response expected e = do
    send_method channel_id m
    f ← (λ w c. await_frame (response w c.log) c)
    or_fail e (expected_method expected f)
