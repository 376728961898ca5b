-- ===== src/Frame/Method/Basic.antt =====
-- amqprs/src/frame/method/basic.rs: the arguments of the methods, in the order in which they are
-- written.
use amqprs.Prelude.{ℕ, Bool, refl}
use amqprs.Serde.Types.{FieldTable, ShortStr}
use amqprs.Serde.Wire
use amqprs.Serde.Wire.{Wire, ◌then◌, struct, unit_struct}
use amqprs.Frame.Flags.{set_flag}

pub record Qos : Type 0 where
  pub prefetch_size : ℕ
  pub prefetch_count : ℕ
  pub global : Bool

unfoldable pub qos_wire : Wire Qos
qos_wire =
    struct (Wire.long_uint then Wire.short_uint then Wire.boolean)
      (λ a. (a.prefetch_size, (a.prefetch_count, a.global)))
      (λ p. record { prefetch_size = p.0; prefetch_count = p.1.0; global = p.1.1 }) (λ a. refl)

pub record QosOk : Type 0 where

unfoldable pub qos_ok_wire : Wire QosOk
qos_ok_wire = Wire.unit_struct (record {}) (λ a. refl)

pub record Consume : Type 0 where
  pub ticket : ℕ
  pub queue : ShortStr
  pub consumer_tag : ShortStr
  pub bits : ℕ
  pub arguments : FieldTable

unfoldable pub consume_wire : Wire Consume
consume_wire =
    struct
      (Wire.short_uint then Wire.short_str then Wire.short_str then Wire.octect
        then Wire.field_table)
      (λ a. (a.ticket, (a.queue, (a.consumer_tag, (a.bits, a.arguments)))))
      (λ p. record {
        ticket = p.0;
        queue = p.1.0;
        consumer_tag = p.1.1.0;
        bits = p.1.1.1.0;
        arguments = p.1.1.1.1;
      })
      (λ a. refl)

unfoldable pub consume_set_no_local : Consume → Bool → Consume
unfolding set_flag
consume_set_no_local m value = record m { bits = set_flag m.bits 1 value }

unfoldable pub consume_set_no_ack : Consume → Bool → Consume
unfolding set_flag
consume_set_no_ack m value = record m { bits = set_flag m.bits 2 value }

unfoldable pub consume_set_exclusive : Consume → Bool → Consume
unfolding set_flag
consume_set_exclusive m value = record m { bits = set_flag m.bits 4 value }

unfoldable pub consume_set_nowait : Consume → Bool → Consume
unfolding set_flag
consume_set_nowait m value = record m { bits = set_flag m.bits 8 value }

pub record ConsumeOk : Type 0 where
  pub consumer_tag : ShortStr

unfoldable pub consume_ok_wire : Wire ConsumeOk
consume_ok_wire =
    struct (Wire.short_str) (λ a. a.consumer_tag) (λ p. record { consumer_tag = p }) (λ a. refl)

pub record Cancel : Type 0 where
  pub consumer_tag : ShortStr
  pub no_wait : Bool

unfoldable pub cancel_wire : Wire Cancel
cancel_wire =
    struct (Wire.short_str then Wire.boolean) (λ a. (a.consumer_tag, a.no_wait))
      (λ p. record { consumer_tag = p.0; no_wait = p.1 }) (λ a. refl)

pub record CancelOk : Type 0 where
  pub consumer_tag : ShortStr

unfoldable pub cancel_ok_wire : Wire CancelOk
cancel_ok_wire =
    struct (Wire.short_str) (λ a. a.consumer_tag) (λ p. record { consumer_tag = p }) (λ a. refl)

pub record Publish : Type 0 where
  pub ticket : ℕ
  pub exchange : ShortStr
  pub routing_key : ShortStr
  pub bits : ℕ

unfoldable pub publish_wire : Wire Publish
publish_wire =
    struct (Wire.short_uint then Wire.short_str then Wire.short_str then Wire.octect)
      (λ a. (a.ticket, (a.exchange, (a.routing_key, a.bits))))
      (λ p. record { ticket = p.0; exchange = p.1.0; routing_key = p.1.1.0; bits = p.1.1.1 })
      (λ a. refl)

unfoldable pub publish_set_mandatory : Publish → Bool → Publish
unfolding set_flag
publish_set_mandatory m value = record m { bits = set_flag m.bits 1 value }

unfoldable pub publish_set_immediate : Publish → Bool → Publish
unfolding set_flag
publish_set_immediate m value = record m { bits = set_flag m.bits 2 value }

pub record Return : Type 0 where
  pub reply_code : ℕ
  pub reply_text : ShortStr
  pub exchange : ShortStr
  pub routing_key : ShortStr

unfoldable pub return_wire : Wire Return
return_wire =
    struct (Wire.short_uint then Wire.short_str then Wire.short_str then Wire.short_str)
      (λ a. (a.reply_code, (a.reply_text, (a.exchange, a.routing_key))))
      (λ p. record {
        reply_code = p.0;
        reply_text = p.1.0;
        exchange = p.1.1.0;
        routing_key = p.1.1.1;
      })
      (λ a. refl)

pub record Deliver : Type 0 where
  pub consumer_tag : ShortStr
  pub delivery_tag : ℕ
  pub redelivered : Bool
  pub exchange : ShortStr
  pub routing_key : ShortStr

unfoldable pub deliver_wire : Wire Deliver
deliver_wire =
    struct
      (Wire.short_str then Wire.long_long_uint then Wire.boolean then Wire.short_str
        then Wire.short_str)
      (λ a. (a.consumer_tag, (a.delivery_tag, (a.redelivered, (a.exchange, a.routing_key)))))
      (λ p. record {
        consumer_tag = p.0;
        delivery_tag = p.1.0;
        redelivered = p.1.1.0;
        exchange = p.1.1.1.0;
        routing_key = p.1.1.1.1;
      })
      (λ a. refl)

pub record Get : Type 0 where
  pub ticket : ℕ
  pub queue : ShortStr
  pub no_ack : Bool

unfoldable pub get_wire : Wire Get
get_wire =
    struct (Wire.short_uint then Wire.short_str then Wire.boolean)
      (λ a. (a.ticket, (a.queue, a.no_ack)))
      (λ p. record { ticket = p.0; queue = p.1.0; no_ack = p.1.1 }) (λ a. refl)

pub record GetOk : Type 0 where
  pub delivery_tag : ℕ
  pub redelivered : Bool
  pub exchange : ShortStr
  pub routing_key : ShortStr
  pub message_count : ℕ

unfoldable pub get_ok_wire : Wire GetOk
get_ok_wire =
    struct
      (Wire.long_long_uint then Wire.boolean then Wire.short_str then Wire.short_str
        then Wire.long_uint)
      (λ a. (a.delivery_tag, (a.redelivered, (a.exchange, (a.routing_key, a.message_count)))))
      (λ p. record {
        delivery_tag = p.0;
        redelivered = p.1.0;
        exchange = p.1.1.0;
        routing_key = p.1.1.1.0;
        message_count = p.1.1.1.1;
      })
      (λ a. refl)

pub record GetEmpty : Type 0 where
  pub cluster_id : ShortStr

unfoldable pub get_empty_wire : Wire GetEmpty
get_empty_wire =
    struct (Wire.short_str) (λ a. a.cluster_id) (λ p. record { cluster_id = p }) (λ a. refl)

pub record Ack : Type 0 where
  pub delivery_tag : ℕ
  pub mutiple : Bool

unfoldable pub ack_wire : Wire Ack
ack_wire =
    struct (Wire.long_long_uint then Wire.boolean) (λ a. (a.delivery_tag, a.mutiple))
      (λ p. record { delivery_tag = p.0; mutiple = p.1 }) (λ a. refl)

pub record Reject : Type 0 where
  pub delivery_tag : ℕ
  pub requeue : Bool

unfoldable pub reject_wire : Wire Reject
reject_wire =
    struct (Wire.long_long_uint then Wire.boolean) (λ a. (a.delivery_tag, a.requeue))
      (λ p. record { delivery_tag = p.0; requeue = p.1 }) (λ a. refl)

pub record Recover : Type 0 where
  pub requeue : Bool

unfoldable pub recover_wire : Wire Recover
recover_wire = struct (Wire.boolean) (λ a. a.requeue) (λ p. record { requeue = p }) (λ a. refl)

pub record RecoverOk : Type 0 where

unfoldable pub recover_ok_wire : Wire RecoverOk
recover_ok_wire = Wire.unit_struct (record {}) (λ a. refl)

pub record Nack : Type 0 where
  pub delivery_tag : ℕ
  pub bits : ℕ

unfoldable pub nack_wire : Wire Nack
nack_wire =
    struct (Wire.long_long_uint then Wire.octect) (λ a. (a.delivery_tag, a.bits))
      (λ p. record { delivery_tag = p.0; bits = p.1 }) (λ a. refl)

unfoldable pub nack_set_multiple : Nack → Bool → Nack
unfolding set_flag
nack_set_multiple m value = record m { bits = set_flag m.bits 1 value }

unfoldable pub nack_set_requeue : Nack → Bool → Nack
unfolding set_flag
nack_set_requeue m value = record m { bits = set_flag m.bits 2 value }
