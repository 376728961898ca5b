-- ===== src/Api/Channel/Exchange.antt =====
-- amqprs/src/api/channel/exchange.rs: the arguments of the requests on exchanges, and the requests.
use amqprs.Prelude.{ℕ, Bool, false, List}
use amqprs.Serde.Types.{FieldTable, table_new}
use amqprs.Frame.Methods
use amqprs.Frame.Methods.{Method}
use amqprs.Frame.Method.Exchange.{
  Declare, declare_set_passive, declare_set_durable, declare_set_auto_delete, declare_set_internal,
  declare_set_no_wait, Delete, delete_set_if_unused, delete_set_no_wait,
}
use amqprs.Net.ReaderHandler.{Parties}
use amqprs.Api.Dispatcher.{Peers}
use amqprs.Api.Call.{Call, ◌>>=◌}
use amqprs.Api.Channel.{short, send_or_request, ignore, request_with}
use amqprs.Api.Channel.Answers.{for_declare, for_delete, for_bind, for_unbind}

pub record ExchangeDeclareArguments : Type 0 where
  pub exchange : List ℕ
  pub exchange_type : List ℕ
  pub passive : Bool
  pub durable : Bool
  pub auto_delete : Bool
  pub internal : Bool
  pub no_wait : Bool
  pub arguments : FieldTable

abbrev pub new_exchange_declare : List ℕ → List ℕ → ExchangeDeclareArguments
new_exchange_declare exchange exchange_type = record {
  exchange = exchange;
  exchange_type = exchange_type;
  passive = false;
  durable = false;
  auto_delete = false;
  internal = false;
  no_wait = false;
  arguments = table_new;
}

pub record ExchangeDeleteArguments : Type 0 where
  pub exchange : List ℕ
  pub if_unused : Bool
  pub no_wait : Bool

abbrev pub new_exchange_delete : List ℕ → ExchangeDeleteArguments
new_exchange_delete exchange = record { exchange = exchange; if_unused = false; no_wait = false }

pub record ExchangeBindArguments : Type 0 where
  pub destination : List ℕ
  pub source : List ℕ
  pub routing_key : List ℕ
  pub no_wait : Bool
  pub arguments : FieldTable

abbrev pub new_exchange_bind : List ℕ → List ℕ → List ℕ → ExchangeBindArguments
new_exchange_bind destination source routing_key = record {
  destination = destination;
  source = source;
  routing_key = routing_key;
  no_wait = false;
  arguments = table_new;
}

pub record ExchangeUnbindArguments : Type 0 where
  pub destination : List ℕ
  pub source : List ℕ
  pub routing_key : List ℕ
  pub no_wait : Bool
  pub arguments : FieldTable

abbrev pub new_exchange_unbind : List ℕ → List ℕ → List ℕ → ExchangeUnbindArguments
new_exchange_unbind destination source routing_key = record {
  destination = destination;
  source = source;
  routing_key = routing_key;
  no_wait = false;
  arguments = table_new;
}

abbrev pub declare_flags : ExchangeDeclareArguments → Declare → Declare
declare_flags args m₀ =
    let m₁ = declare_set_passive m₀ args.passive in
    let m₂ = declare_set_durable m₁ args.durable in
    let m₃ = declare_set_auto_delete m₂ args.auto_delete in
    let m₄ = declare_set_internal m₃ args.internal in declare_set_no_wait m₄ args.no_wait

abbrev pub delete_flags : ExchangeDeleteArguments → Delete → Delete
delete_flags args m = delete_set_no_wait (delete_set_if_unused m args.if_unused) args.no_wait

module _ {P : Peers} {Q : Parties} where
  unfoldable pub exchange_declare : ℕ → ExchangeDeclareArguments → Call P Q (Unit {0})
  unfolding request_with
  exchange_declare channel_id args = do
    exchange ← short args.exchange
    typ ← short args.exchange_type
    let m = declare_flags args (record {
      ticket = 0;
      exchange = exchange;
      typ = typ;
      bits = 0;
      arguments = args.arguments;
    })
    ignore (send_or_request args.no_wait channel_id (Methods.declare m) for_declare)

  unfoldable pub exchange_delete : ℕ → ExchangeDeleteArguments → Call P Q (Unit {0})
  unfolding request_with
  exchange_delete channel_id args = do
    exchange ← short args.exchange
    let m = delete_flags args (record { ticket = 0; exchange = exchange; bits = 0 })
    ignore (send_or_request args.no_wait channel_id (Methods.delete m) for_delete)

  unfoldable pub exchange_bind : ℕ → ExchangeBindArguments → Call P Q (Unit {0})
  unfolding request_with
  exchange_bind channel_id args = do
    destination ← short args.destination
    source ← short args.source
    routing_key ← short args.routing_key
    let m = Methods.bind (record {
      ticket = 0;
      destination = destination;
      source = source;
      routing_key = routing_key;
      nowait = args.no_wait;
      arguments = args.arguments;
    })
    ignore (send_or_request args.no_wait channel_id m for_bind)

  unfoldable pub exchange_unbind : ℕ → ExchangeUnbindArguments → Call P Q (Unit {0})
  unfolding request_with
  exchange_unbind channel_id args = do
    destination ← short args.destination
    source ← short args.source
    routing_key ← short args.routing_key
    let m = Methods.unbind (record {
      ticket = 0;
      destination = destination;
      source = source;
      routing_key = routing_key;
      nowait = args.no_wait;
      arguments = args.arguments;
    })
    ignore (send_or_request args.no_wait channel_id m for_unbind)
