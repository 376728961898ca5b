-- ===== src/Api/Connection/Handshake.antt =====
-- The handshake of `Connection::open` in amqprs/src/api/connection.rs, up to the point where the tasks
-- are spawned, with the header of amqprs/src/frame/protocol_header.rs. Of the stream, the frames that
-- are read, and what is written; a write succeeds.
use amqprs.Prelude.{
  ℕ, Bool, true, false, ◌||◌, List, [], ◌∷◌, ◌++◌, Option, none, some, Outcome, done, panic, unwrap,
  ◌==◌, leb, if◌then◌else◌, bytes_beq,
}
use amqprs.Prelude
use amqprs.Serde.Types.{FieldTable, short_str, long_str}
use amqprs.Serde.Ser.{serialize_u8}
use amqprs.Frame.Method.Connection.{Start, StartOk, Tune, Open, OpenOk}
use amqprs.Frame.Methods
use amqprs.Frame.Methods.{Method}
use amqprs.Frame.Frames.{Frame, method}
use amqprs.Net.ReaderHandler.Frames.{default_conn_channel}
use amqprs.Api.Call.{Error, uri_error, connection_open_error, network_error, expected_method}
use amqprs.Api.Security.{SecurityCredentials, get_mechanism_name, get_response}
use amqprs.Api.Connection.{OpenConnectionArguments}
use amqprs.Api.Connection.ServerProperties.{
  ServerProperties, server_properties_of, client_properties_of,
}

pub record ProtocolHeader : Type 0 where
  pub name : List ℕ
  pub id : ℕ
  pub major : ℕ
  pub minor : ℕ
  pub revision : ℕ

abbrev pub protocol_default : ProtocolHeader
protocol_default = record {
  name = 65 ∷ 77 ∷ 81 ∷ 80 ∷ [];
  id = 0;
  major = 0;
  minor = 9;
  revision = 1;
}

abbrev pub ser_protocol : ProtocolHeader → List ℕ
ser_protocol h =
    h.name
    ++ (serialize_u8 h.id
        ++ (serialize_u8 h.major ++ (serialize_u8 h.minor ++ serialize_u8 h.revision)))

-- The stream: the frames that come, after which a read fails, and the bytes and frames written.
pub data Written : Type 0 where
  raw : List ℕ → Written
  frame : ℕ → Frame → Written

pub record Stream : Type 0 where
  pub incoming : List Frame
  pub written : List Written

-- What a step of the handshake returns: a value, an error, or a panic.
pub data Attempt (A : Type 0) : Type 0 where
  succeeded : A → Stream → Attempt A
  failed : Error → Stream → Attempt A
  panics : Attempt A

abbrev and_then : {A B : Type 0} → Attempt A → (A → Stream → Attempt B) → Attempt B
and_then (succeeded a io) f = f a io
and_then (failed e io) f = failed e io
and_then panics f = panics

infixl 5 ◌>>=◌ ◌>>◌
abbrev pub ◌>>=◌ :
    {A B : Type 0} → (Stream → Attempt A) → (A → Stream → Attempt B) → Stream → Attempt B
(m >>= f) io = and_then (m io) f

abbrev pub ◌>>◌ : {A B : Type 0} → (Stream → Attempt A) → (Stream → Attempt B) → Stream → Attempt B
m >> k = m >>= λ _. k

abbrev pub return : {A : Type 0} → A → Stream → Attempt A
return a io = succeeded a io

abbrev pub lift_outcome : {A : Type 0} → Outcome A → Stream → Attempt A
lift_outcome (done a) io = succeeded a io
lift_outcome panic io = panics

abbrev pub write : Written → Stream → Attempt (Unit {0})
write w io = succeeded tt (record io { written = io.written ++ (w ∷ []) })

abbrev pub send_method : Method → Stream → Attempt (Unit {0})
send_method m io = write (frame default_conn_channel (method m)) io

-- `unwrap_expected_method!` on the next frame.
abbrev expect_some : {A : Type 0} → Option A → Stream → Attempt A
expect_some none io = failed connection_open_error io
expect_some (some a) io = succeeded a io

abbrev pub read_expected : {A : Type 0} → (Method → Option A) → Stream → Attempt A
read_expected expected io = elim io.incoming [
  | [] ↦ failed network_error io
  | ◌∷◌ f rest ↦ expect_some (expected_method expected f) (record io { incoming = rest })
]

abbrev pub as_start : Method → Option Start
as_start (Methods.start m) = some m
as_start _ = none

abbrev pub as_tune : Method → Option Tune
as_tune (Methods.tune m) = some m
as_tune _ = none

abbrev pub as_open_ok : Method → Option OpenOk
as_open_ok (Methods.open_ok m) = some m
as_open_ok _ = none

-- `split(' ')`.
abbrev push_front : ℕ → List (List ℕ) → List (List ℕ)
push_front b [] = (b ∷ []) ∷ []
push_front b (w ∷ ws) = (b ∷ w) ∷ ws

abbrev pub split : ℕ → List ℕ → List (List ℕ)
split sep [] = [] ∷ []
split sep (b ∷ bs) = let words = split sep bs in if b == sep then [] ∷ words else push_front b words

-- `any(|v| name == v)`.
abbrev pub any_is : List ℕ → List (List ℕ) → Bool
any_is name [] = false
any_is name (w ∷ ws) = bytes_beq name w || any_is name ws

-- "en_US" and "amqps".
abbrev pub default_locale : List ℕ
default_locale = 101 ∷ 110 ∷ 95 ∷ 85 ∷ 83 ∷ []

abbrev amqps_scheme : List ℕ
amqps_scheme = 97 ∷ 109 ∷ 113 ∷ 112 ∷ 115 ∷ []

abbrev pub is_amqps : Option (List ℕ) → Bool
is_amqps none = false
is_amqps (some scheme) = bytes_beq scheme amqps_scheme

-- Without TLS.
abbrev pub check_scheme : OpenConnectionArguments → Stream → Attempt (Unit {0})
check_scheme args io = if is_amqps args.scheme then failed uri_error io else succeeded tt io

abbrev pub negotiate_protocol : Stream → Attempt (Unit {0})
negotiate_protocol io = write (raw (ser_protocol protocol_default)) io

-- `ok_or(..)` of a test.
abbrev pub require : Bool → Stream → Attempt (Unit {0})
require ok io = if ok then succeeded tt io else failed connection_open_error io

unfoldable pub make_start_ok : SecurityCredentials → FieldTable → Outcome StartOk
make_start_ok credentials properties = Prelude.◌>>=◌ (get_response credentials) (λ text.
    Prelude.◌>>=◌ (unwrap (long_str text)) (λ response.
      Prelude.◌>>=◌ (unwrap (short_str (get_mechanism_name credentials))) (λ mechanism.
        Prelude.◌>>=◌ (unwrap (short_str default_locale)) (λ locale. done (record {
          client_properties = properties;
          machanisms = mechanism;
          response = response;
          locale = locale;
        })))))

-- What comes behind the two tests of `start_connection_negotiation`.
abbrev pub answer_start :
    SecurityCredentials → FieldTable → FieldTable → Stream → Attempt ServerProperties
answer_start credentials properties server_table = do
  server_properties ← lift_outcome (server_properties_of server_table)
  start_ok ← lift_outcome (make_start_ok credentials properties)
  send_method (Methods.start_ok start_ok)
  return server_properties

unfoldable pub start_connection_negotiation :
    FieldTable → OpenConnectionArguments → Stream → Attempt ServerProperties
start_connection_negotiation properties args = do
  start ← read_expected as_start
  require (any_is default_locale (split 32 start.locales.text))
  require (any_is (get_mechanism_name args.credentials) (split 32 start.mechanisms.text))
  answer_start args.credentials properties start.server_properties

abbrev min : ℕ → ℕ → ℕ
min m n = if leb m n then m else n

abbrev max : ℕ → ℕ → ℕ
max m n = if leb m n then n else m

unfoldable pub tuned_heartbeat : ℕ → ℕ → ℕ
tuned_heartbeat server client =
    if server == 0 || client == 0 then max server client else min server client

unfoldable pub tuning_parameters : ℕ → Stream → Attempt (ℕ × ℕ × ℕ)
tuning_parameters heartbeat = do
  tune ← read_expected as_tune
  let new_heartbeat = tuned_heartbeat tune.heartbeat heartbeat
  send_method (
      Methods.tune_ok (record {
        channel_max = tune.channel_max;
        frame_max = tune.frame_max;
        heartbeat = new_heartbeat;
      }))
  return (tune.channel_max, tune.frame_max, new_heartbeat)

abbrev pub open_of : List ℕ → Outcome Open
open_of virtual_host = Prelude.◌>>=◌ (unwrap (short_str virtual_host)) (λ host.
    Prelude.◌>>=◌ (unwrap (short_str [])) (λ capabilities.
      done (record { virtual_host = host; capabilities = capabilities; insist = 0 })))

-- Of the connection, what the handshake finds.
pub record Negotiated : Type 0 where
  pub server_properties : ServerProperties
  pub connection_name : List ℕ
  pub channel_max : ℕ
  pub frame_max : ℕ
  pub heartbeat : ℕ

abbrev pub name_or : Option (List ℕ) → List ℕ → List ℕ
name_or none generated = generated
name_or (some given) generated = given

-- `generated` is the name that `generate_connection_name` gives, with a counter of the process.
unfoldable pub handshake : List ℕ → OpenConnectionArguments → Stream → Attempt Negotiated
handshake generated args = do
  check_scheme args
  negotiate_protocol
  properties ← lift_outcome (client_properties_of (name_or args.connection_name generated))
  server_properties ← start_connection_negotiation properties args
  (channel_max, frame_max, heartbeat) ← tuning_parameters args.heartbeat
  open_method ← lift_outcome (open_of args.virtual_host)
  send_method (Methods.open_connection open_method)
  open_ok ← read_expected as_open_ok
  return (record {
    server_properties = server_properties;
    connection_name = name_or args.connection_name generated;
    channel_max = channel_max;
    frame_max = frame_max;
    heartbeat = heartbeat;
  })
