-- ===== src/Api/Channel/Queue.antt =====
-- amqprs/src/api/channel/queue.rs: the arguments of the requests on queues, and the requests.
use amqprs.Prelude.{ℕ, Bool, true, false, List, [], Option, none, some}
use amqprs.Serde.Types.{FieldTable, table_new}
use amqprs.Frame.Methods
use amqprs.Frame.Methods.{Method}
use amqprs.Frame.Method.Queue.{
  DeclareQueue, declare_queue_set_passive, declare_queue_set_durable, declare_queue_set_exclusive,
  declare_queue_set_auto_delete, declare_queue_set_no_wait, DeclareQueueOk, DeleteQueue,
  delete_queue_set_if_unused, delete_queue_set_if_empty, delete_queue_set_no_wait, DeleteQueueOk,
  PurgeQueueOk,
}
use amqprs.Net.ReaderHandler.{Parties}
use amqprs.Api.Dispatcher.{Peers}
use amqprs.Api.Call.{Call, ◌>>=◌, return}
use amqprs.Api.Channel.{short, request, send_or_request, ignore, request_with}
use amqprs.Api.Channel.Answers.{
  for_declare_queue, for_bind_queue, for_purge_queue, for_delete_queue, for_unbind_queue,
}

pub record QueueDeclareArguments : Type 0 where
  pub queue : List ℕ
  pub passive : Bool
  pub durable : Bool
  pub exclusive : Bool
  pub auto_delete : Bool
  pub no_wait : Bool
  pub arguments : FieldTable

abbrev pub new_queue_declare : List ℕ → QueueDeclareArguments
new_queue_declare queue = record {
  queue = queue;
  passive = false;
  durable = false;
  exclusive = false;
  auto_delete = false;
  no_wait = false;
  arguments = table_new;
}

pub record QueueBindArguments : Type 0 where
  pub queue : List ℕ
  pub exchange : List ℕ
  pub routing_key : List ℕ
  pub no_wait : Bool
  pub arguments : FieldTable

abbrev pub new_queue_bind : List ℕ → List ℕ → List ℕ → QueueBindArguments
new_queue_bind queue exchange routing_key = record {
  queue = queue;
  exchange = exchange;
  routing_key = routing_key;
  no_wait = false;
  arguments = table_new;
}

pub record QueuePurgeArguments : Type 0 where
  pub queue : List ℕ
  pub no_wait : Bool

abbrev pub new_queue_purge : List ℕ → QueuePurgeArguments
new_queue_purge queue = record { queue = queue; no_wait = false }

pub record QueueDeleteArguments : Type 0 where
  pub queue : List ℕ
  pub if_unused : Bool
  pub if_empty : Bool
  pub no_wait : Bool

abbrev pub new_queue_delete : List ℕ → QueueDeleteArguments
new_queue_delete queue = record {
  queue = queue;
  if_unused = false;
  if_empty = false;
  no_wait = false;
}

pub record QueueUnbindArguments : Type 0 where
  pub queue : List ℕ
  pub exchange : List ℕ
  pub routing_key : List ℕ
  pub arguments : FieldTable

abbrev pub new_queue_unbind : List ℕ → List ℕ → List ℕ → QueueUnbindArguments
new_queue_unbind queue exchange routing_key = record {
  queue = queue;
  exchange = exchange;
  routing_key = routing_key;
  arguments = table_new;
}

abbrev pub durable_client_named : List ℕ → QueueDeclareArguments
durable_client_named queue = record {
  queue = queue;
  passive = false;
  durable = true;
  exclusive = false;
  auto_delete = false;
  no_wait = false;
  arguments = table_new;
}

abbrev pub exclusive_server_named : QueueDeclareArguments
exclusive_server_named = record {
  queue = [];
  passive = false;
  durable = false;
  exclusive = true;
  auto_delete = false;
  no_wait = false;
  arguments = table_new;
}

abbrev pub transient_autodelete : List ℕ → QueueDeclareArguments
transient_autodelete queue = record {
  queue = queue;
  passive = false;
  durable = false;
  exclusive = false;
  auto_delete = true;
  no_wait = false;
  arguments = table_new;
}

-- What is returned of a response.
abbrev pub declared : Option DeclareQueueOk → Option (List ℕ × ℕ × ℕ)
declared none = none
declared (some m) = some (m.queue.text, m.message_count, m.consumer_count)

abbrev pub purged : Option PurgeQueueOk → Option ℕ
purged none = none
purged (some m) = some m.message_count

abbrev pub deleted : Option DeleteQueueOk → Option ℕ
deleted none = none
deleted (some m) = some m.message_count

abbrev pub declare_queue_flags : QueueDeclareArguments → DeclareQueue → DeclareQueue
declare_queue_flags args m₀ =
    let m₁ = declare_queue_set_passive m₀ args.passive in
    let m₂ = declare_queue_set_durable m₁ args.durable in
    let m₃ = declare_queue_set_exclusive m₂ args.exclusive in
    let m₄ = declare_queue_set_auto_delete m₃ args.auto_delete in
    declare_queue_set_no_wait m₄ args.no_wait

abbrev pub delete_queue_flags : QueueDeleteArguments → DeleteQueue → DeleteQueue
delete_queue_flags args m₀ =
    let m₁ = delete_queue_set_if_unused m₀ args.if_unused in
    let m₂ = delete_queue_set_if_empty m₁ args.if_empty in delete_queue_set_no_wait m₂ args.no_wait

module _ {P : Peers} {Q : Parties} where
  unfoldable pub queue_declare : ℕ → QueueDeclareArguments → Call P Q (Option (List ℕ × ℕ × ℕ))
  unfolding request_with
  queue_declare channel_id args = do
    queue ← short args.queue
    let m =
        declare_queue_flags args
          (record { ticket = 0; queue = queue; bits = 0; arguments = args.arguments })
    declare_ok ← send_or_request args.no_wait channel_id (Methods.declare_queue m) for_declare_queue
    return (declared declare_ok)

  unfoldable pub queue_bind : ℕ → QueueBindArguments → Call P Q (Unit {0})
  unfolding request_with
  queue_bind channel_id args = do
    queue ← short args.queue
    exchange ← short args.exchange
    routing_key ← short args.routing_key
    let m = Methods.bind_queue (record {
      ticket = 0;
      queue = queue;
      exchange = exchange;
      routing_key = routing_key;
      nowait = args.no_wait;
      arguments = args.arguments;
    })
    ignore (send_or_request args.no_wait channel_id m for_bind_queue)

  unfoldable pub queue_purge : ℕ → QueuePurgeArguments → Call P Q (Option ℕ)
  unfolding request_with
  queue_purge channel_id args = do
    queue ← short args.queue
    let m = Methods.purge_queue (record { ticket = 0; queue = queue; nowait = args.no_wait })
    purge_ok ← send_or_request args.no_wait channel_id m for_purge_queue
    return (purged purge_ok)

  unfoldable pub queue_delete : ℕ → QueueDeleteArguments → Call P Q (Option ℕ)
  unfolding request_with
  queue_delete channel_id args = do
    queue ← short args.queue
    let m = delete_queue_flags args (record { ticket = 0; queue = queue; bits = 0 })
    delete_ok ← send_or_request args.no_wait channel_id (Methods.delete_queue m) for_delete_queue
    return (deleted delete_ok)

  unfoldable pub queue_unbind : ℕ → QueueUnbindArguments → Call P Q (Unit {0})
  unfolding request_with
  queue_unbind channel_id args = do
    queue ← short args.queue
    exchange ← short args.exchange
    routing_key ← short args.routing_key
    let m = Methods.unbind_queue (record {
      ticket = 0;
      queue = queue;
      exchange = exchange;
      routing_key = routing_key;
      arguments = args.arguments;
    })
    ignore (request channel_id m for_unbind_queue)
