-- ===== src/Api/Channel/Basic.antt =====
-- amqprs/src/api/channel/basic.rs: the requests on messages, but for those of consumers.
use amqprs.Prelude.{ℕ, Bool, true, false, List, Option, none, some, length}
use amqprs.Frame.Methods
use amqprs.Frame.Methods.{Method}
use amqprs.Frame.Method.Basic.{
  GetOk, Nack, nack_set_multiple, nack_set_requeue, Publish, publish_set_mandatory,
  publish_set_immediate,
}
use amqprs.Frame.ContentHeader.{BasicProperties}
use amqprs.Frame.Frames.{Frame, method, heart_beat, content_header, content_body, publish_combo}
use amqprs.Net.ReaderHandler.{Parties}
use amqprs.Api.Dispatcher.{Peers, register_get_content_responder}
use amqprs.Api.Call.{
  Call, ◌>>=◌, ◌>>◌, return, returned, panics, send_command, send_frame, send_method, await_frame,
}
use amqprs.Api.Channel.{short, request, ignore, request_with}
use amqprs.Api.Channel.Answers.{for_qos, for_recover}

pub record BasicQosArguments : Type 0 where
  pub prefetch_size : ℕ
  pub prefetch_count : ℕ
  pub global : Bool

abbrev pub new_basic_qos : ℕ → ℕ → Bool → BasicQosArguments
new_basic_qos prefetch_size prefetch_count global = record {
  prefetch_size = prefetch_size;
  prefetch_count = prefetch_count;
  global = global;
}

pub record BasicGetArguments : Type 0 where
  pub queue : List ℕ
  pub no_ack : Bool

abbrev pub new_basic_get : List ℕ → BasicGetArguments
new_basic_get queue = record { queue = queue; no_ack = false }

pub record BasicAckArguments : Type 0 where
  pub delivery_tag : ℕ
  pub multiple : Bool

abbrev pub new_basic_ack : ℕ → Bool → BasicAckArguments
new_basic_ack delivery_tag multiple = record { delivery_tag = delivery_tag; multiple = multiple }

pub record BasicNackArguments : Type 0 where
  pub delivery_tag : ℕ
  pub multiple : Bool
  pub requeue : Bool

abbrev pub new_basic_nack : ℕ → Bool → Bool → BasicNackArguments
new_basic_nack delivery_tag multiple requeue = record {
  delivery_tag = delivery_tag;
  multiple = multiple;
  requeue = requeue;
}

pub record BasicRejectArguments : Type 0 where
  pub delivery_tag : ℕ
  pub requeue : Bool

abbrev pub new_basic_reject : ℕ → Bool → BasicRejectArguments
new_basic_reject delivery_tag requeue = record { delivery_tag = delivery_tag; requeue = requeue }

pub record BasicPublishArguments : Type 0 where
  pub exchange : List ℕ
  pub routing_key : List ℕ
  pub mandatory : Bool
  pub immediate : Bool

abbrev pub new_basic_publish : List ℕ → List ℕ → BasicPublishArguments
new_basic_publish exchange routing_key = record {
  exchange = exchange;
  routing_key = routing_key;
  mandatory = false;
  immediate = false;
}

abbrev pub default_nack : BasicNackArguments
default_nack = record { delivery_tag = 0; multiple = false; requeue = true }

abbrev pub default_reject : BasicRejectArguments
default_reject = record { delivery_tag = 0; requeue = true }

-- The first answer to a request of a message.
pub data Got : Type 0 where
  got_empty : Got
  got_ok : GetOk → Got
  unreachable : Got

abbrev got_method : Method → Got
got_method (Methods.get_empty _) = got_empty
got_method (Methods.get_ok m) = got_ok m
got_method _ = unreachable

abbrev pub got : Frame → Got
got (method m) = got_method m
got heart_beat = unreachable
got (content_header _) = unreachable
got (content_body _) = unreachable
got (publish_combo _ _ _) = unreachable

abbrev pub nack_flags : BasicNackArguments → Nack → Nack
nack_flags args m = nack_set_requeue (nack_set_multiple m args.multiple) args.requeue

abbrev pub publish_flags : BasicPublishArguments → Publish → Publish
publish_flags args m = publish_set_immediate (publish_set_mandatory m args.mandatory) args.immediate

module _ {P : Peers} {Q : Parties} where
  unfoldable pub basic_qos : ℕ → BasicQosArguments → Call P Q (Unit {0})
  unfolding request_with
  basic_qos channel_id args = ignore (
      request channel_id
        (Methods.qos (record {
          prefetch_size = args.prefetch_size;
          prefetch_count = args.prefetch_count;
          global = args.global;
        }))
        for_qos)

  -- The blocking call does the same.
  unfoldable pub basic_ack : ℕ → BasicAckArguments → Call P Q (Unit {0})
  basic_ack channel_id args =
      send_method channel_id
        (Methods.ack (record { delivery_tag = args.delivery_tag; mutiple = args.multiple }))

  unfoldable pub basic_nack : ℕ → BasicNackArguments → Call P Q (Unit {0})
  basic_nack channel_id args =
      send_method channel_id
        (Methods.nack (nack_flags args (record { delivery_tag = args.delivery_tag; bits = 0 })))

  unfoldable pub basic_reject : ℕ → BasicRejectArguments → Call P Q (Unit {0})
  basic_reject channel_id args =
      send_method channel_id
        (Methods.reject (record { delivery_tag = args.delivery_tag; requeue = args.requeue }))

  unfoldable pub basic_recover : ℕ → Bool → Call P Q (Unit {0})
  unfolding request_with
  basic_recover channel_id requeue =
      ignore (request channel_id (Methods.recover (record { requeue = requeue })) for_recover)

  -- `rx.recv().await.ok_or_else(..)?`, where a pattern that does not match is `unreachable!`.
  abbrev pub recv : P.GetTx → Call P Q Frame
  recv tx w c = await_frame (w.gets c.log tx) c

  abbrev pub got_header : Frame → Call P Q BasicProperties
  got_header (content_header h) w c = returned h.basic_properties c
  got_header _ w c = panics c

  abbrev pub got_body : Frame → Call P Q (List ℕ)
  got_body (content_body b) w c = returned b.inner c
  got_body _ w c = panics c

  abbrev pub get_rest : P.GetTx → Got → Call P Q (Option (GetOk × BasicProperties × List ℕ))
  get_rest tx got_empty = return none
  get_rest tx (got_ok m) = do
    h ← recv tx
    basic_properties ← got_header h
    b ← recv tx
    content ← got_body b
    return (some (m, basic_properties, content))
  get_rest tx unreachable = λ w c. panics c

  unfoldable pub basic_get :
      ℕ → BasicGetArguments → Call P Q (Option (GetOk × BasicProperties × List ℕ))
  basic_get channel_id args = do
    queue ← short args.queue
    tx ← (λ w c. returned (w.getter c.log) c)
    send_command (register_get_content_responder tx)
    send_method channel_id
        (Methods.get (record { ticket = 0; queue = queue; no_ack = args.no_ack }))
    f ← recv tx
    get_rest tx (got f)

  unfoldable pub basic_publish :
      ℕ → BasicProperties → List ℕ → BasicPublishArguments → Call P Q (Unit {0})
  basic_publish channel_id basic_properties content args = do
    exchange ← short args.exchange
    routing_key ← short args.routing_key
    let m =
        publish_flags args
          (record { ticket = 0; exchange = exchange; routing_key = routing_key; bits = 0 })
    send_frame channel_id (
        publish_combo m
          (record {
            common = record { class = 60; weight = 0; body_size = length content };
            basic_properties = basic_properties;
          })
          (record { inner = content }))
