-- ===== src/Frame/Method/Queue.antt =====
-- amqprs/src/frame/method/queue.rs: the arguments of the methods, in the order in which they are
-- written.
use amqprs.Prelude.{ℕ, Bool, refl}
use amqprs.Serde.Types.{FieldTable, ShortStr}
use amqprs.Serde.Wire
use amqprs.Serde.Wire.{Wire, ◌then◌, struct, unit_struct}
use amqprs.Frame.Flags.{set_flag}

pub record DeclareQueue : Type 0 where
  pub ticket : ℕ
  pub queue : ShortStr
  pub bits : ℕ
  pub arguments : FieldTable

unfoldable pub declare_queue_wire : Wire DeclareQueue
declare_queue_wire =
    struct (Wire.short_uint then Wire.short_str then Wire.octect then Wire.field_table)
      (λ a. (a.ticket, (a.queue, (a.bits, a.arguments))))
      (λ p. record { ticket = p.0; queue = p.1.0; bits = p.1.1.0; arguments = p.1.1.1 }) (λ a. refl)

unfoldable pub declare_queue_set_passive : DeclareQueue → Bool → DeclareQueue
unfolding set_flag
declare_queue_set_passive m value = record m { bits = set_flag m.bits 1 value }

unfoldable pub declare_queue_set_durable : DeclareQueue → Bool → DeclareQueue
unfolding set_flag
declare_queue_set_durable m value = record m { bits = set_flag m.bits 2 value }

unfoldable pub declare_queue_set_auto_delete : DeclareQueue → Bool → DeclareQueue
unfolding set_flag
declare_queue_set_auto_delete m value = record m { bits = set_flag m.bits 8 value }

unfoldable pub declare_queue_set_exclusive : DeclareQueue → Bool → DeclareQueue
unfolding set_flag
declare_queue_set_exclusive m value = record m { bits = set_flag m.bits 4 value }

unfoldable pub declare_queue_set_no_wait : DeclareQueue → Bool → DeclareQueue
unfolding set_flag
declare_queue_set_no_wait m value = record m { bits = set_flag m.bits 16 value }

pub record DeclareQueueOk : Type 0 where
  pub queue : ShortStr
  pub message_count : ℕ
  pub consumer_count : ℕ

unfoldable pub declare_queue_ok_wire : Wire DeclareQueueOk
declare_queue_ok_wire =
    struct (Wire.short_str then Wire.long_uint then Wire.long_uint)
      (λ a. (a.queue, (a.message_count, a.consumer_count)))
      (λ p. record { queue = p.0; message_count = p.1.0; consumer_count = p.1.1 }) (λ a. refl)

pub record BindQueue : Type 0 where
  pub ticket : ℕ
  pub queue : ShortStr
  pub exchange : ShortStr
  pub routing_key : ShortStr
  pub nowait : Bool
  pub arguments : FieldTable

unfoldable pub bind_queue_wire : Wire BindQueue
bind_queue_wire =
    struct
      (Wire.short_uint then Wire.short_str then Wire.short_str then Wire.short_str then Wire.boolean
        then Wire.field_table)
      (λ a. (a.ticket, (a.queue, (a.exchange, (a.routing_key, (a.nowait, a.arguments))))))
      (λ p. record {
        ticket = p.0;
        queue = p.1.0;
        exchange = p.1.1.0;
        routing_key = p.1.1.1.0;
        nowait = p.1.1.1.1.0;
        arguments = p.1.1.1.1.1;
      })
      (λ a. refl)

pub record BindQueueOk : Type 0 where

unfoldable pub bind_queue_ok_wire : Wire BindQueueOk
bind_queue_ok_wire = Wire.unit_struct (record {}) (λ a. refl)

pub record UnbindQueue : Type 0 where
  pub ticket : ℕ
  pub queue : ShortStr
  pub exchange : ShortStr
  pub routing_key : ShortStr
  pub arguments : FieldTable

unfoldable pub unbind_queue_wire : Wire UnbindQueue
unbind_queue_wire =
    struct
      (Wire.short_uint then Wire.short_str then Wire.short_str then Wire.short_str
        then Wire.field_table)
      (λ a. (a.ticket, (a.queue, (a.exchange, (a.routing_key, a.arguments)))))
      (λ p. record {
        ticket = p.0;
        queue = p.1.0;
        exchange = p.1.1.0;
        routing_key = p.1.1.1.0;
        arguments = p.1.1.1.1;
      })
      (λ a. refl)

pub record UnbindQueueOk : Type 0 where

unfoldable pub unbind_queue_ok_wire : Wire UnbindQueueOk
unbind_queue_ok_wire = Wire.unit_struct (record {}) (λ a. refl)

pub record DeleteQueue : Type 0 where
  pub ticket : ℕ
  pub queue : ShortStr
  pub bits : ℕ

unfoldable pub delete_queue_wire : Wire DeleteQueue
delete_queue_wire =
    struct (Wire.short_uint then Wire.short_str then Wire.octect)
      (λ a. (a.ticket, (a.queue, a.bits)))
      (λ p. record { ticket = p.0; queue = p.1.0; bits = p.1.1 }) (λ a. refl)

unfoldable pub delete_queue_set_if_unused : DeleteQueue → Bool → DeleteQueue
unfolding set_flag
delete_queue_set_if_unused m value = record m { bits = set_flag m.bits 1 value }

unfoldable pub delete_queue_set_if_empty : DeleteQueue → Bool → DeleteQueue
unfolding set_flag
delete_queue_set_if_empty m value = record m { bits = set_flag m.bits 2 value }

unfoldable pub delete_queue_set_no_wait : DeleteQueue → Bool → DeleteQueue
unfolding set_flag
delete_queue_set_no_wait m value = record m { bits = set_flag m.bits 4 value }

pub record DeleteQueueOk : Type 0 where
  pub message_count : ℕ

unfoldable pub delete_queue_ok_wire : Wire DeleteQueueOk
delete_queue_ok_wire =
    struct (Wire.long_uint) (λ a. a.message_count) (λ p. record { message_count = p }) (λ a. refl)

pub record PurgeQueue : Type 0 where
  pub ticket : ℕ
  pub queue : ShortStr
  pub nowait : Bool

unfoldable pub purge_queue_wire : Wire PurgeQueue
purge_queue_wire =
    struct (Wire.short_uint then Wire.short_str then Wire.boolean)
      (λ a. (a.ticket, (a.queue, a.nowait)))
      (λ p. record { ticket = p.0; queue = p.1.0; nowait = p.1.1 }) (λ a. refl)

pub record PurgeQueueOk : Type 0 where
  pub message_count : ℕ

unfoldable pub purge_queue_ok_wire : Wire PurgeQueueOk
purge_queue_ok_wire =
    struct (Wire.long_uint) (λ a. a.message_count) (λ p. record { message_count = p }) (λ a. refl)
