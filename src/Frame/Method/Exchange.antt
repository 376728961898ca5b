-- ===== src/Frame/Method/Exchange.antt =====
-- amqprs/src/frame/method/exchange.rs: the arguments of the methods, in the order in which they are
-- written.
use amqprs.Prelude.{ℕ, Bool, refl}
use amqprs.Serde.Types.{FieldTable, ShortStr}
use amqprs.Serde.Wire
use amqprs.Serde.Wire.{Wire, ◌then◌, struct, unit_struct}
use amqprs.Frame.Flags.{set_flag}

pub record Declare : Type 0 where
  pub ticket : ℕ
  pub exchange : ShortStr
  pub typ : ShortStr
  pub bits : ℕ
  pub arguments : FieldTable

unfoldable pub declare_wire : Wire Declare
declare_wire =
    struct
      (Wire.short_uint then Wire.short_str then Wire.short_str then Wire.octect
        then Wire.field_table)
      (λ a. (a.ticket, (a.exchange, (a.typ, (a.bits, a.arguments)))))
      (λ p. record {
        ticket = p.0;
        exchange = p.1.0;
        typ = p.1.1.0;
        bits = p.1.1.1.0;
        arguments = p.1.1.1.1;
      })
      (λ a. refl)

unfoldable pub declare_set_passive : Declare → Bool → Declare
unfolding set_flag
declare_set_passive m value = record m { bits = set_flag m.bits 1 value }

unfoldable pub declare_set_durable : Declare → Bool → Declare
unfolding set_flag
declare_set_durable m value = record m { bits = set_flag m.bits 2 value }

unfoldable pub declare_set_auto_delete : Declare → Bool → Declare
unfolding set_flag
declare_set_auto_delete m value = record m { bits = set_flag m.bits 4 value }

unfoldable pub declare_set_internal : Declare → Bool → Declare
unfolding set_flag
declare_set_internal m value = record m { bits = set_flag m.bits 8 value }

unfoldable pub declare_set_no_wait : Declare → Bool → Declare
unfolding set_flag
declare_set_no_wait m value = record m { bits = set_flag m.bits 16 value }

pub record DeclareOk : Type 0 where

unfoldable pub declare_ok_wire : Wire DeclareOk
declare_ok_wire = Wire.unit_struct (record {}) (λ a. refl)

pub record Delete : Type 0 where
  pub ticket : ℕ
  pub exchange : ShortStr
  pub bits : ℕ

unfoldable pub delete_wire : Wire Delete
delete_wire =
    struct (Wire.short_uint then Wire.short_str then Wire.octect)
      (λ a. (a.ticket, (a.exchange, a.bits)))
      (λ p. record { ticket = p.0; exchange = p.1.0; bits = p.1.1 }) (λ a. refl)

unfoldable pub delete_set_if_unused : Delete → Bool → Delete
unfolding set_flag
delete_set_if_unused m value = record m { bits = set_flag m.bits 1 value }

unfoldable pub delete_set_no_wait : Delete → Bool → Delete
unfolding set_flag
delete_set_no_wait m value = record m { bits = set_flag m.bits 2 value }

pub record DeleteOk : Type 0 where

unfoldable pub delete_ok_wire : Wire DeleteOk
delete_ok_wire = Wire.unit_struct (record {}) (λ a. refl)

pub record Bind : Type 0 where
  pub ticket : ℕ
  pub destination : ShortStr
  pub source : ShortStr
  pub routing_key : ShortStr
  pub nowait : Bool
  pub arguments : FieldTable

unfoldable pub bind_wire : Wire Bind
bind_wire =
    struct
      (Wire.short_uint then Wire.short_str then Wire.short_str then Wire.short_str then Wire.boolean
        then Wire.field_table)
      (λ a. (a.ticket, (a.destination, (a.source, (a.routing_key, (a.nowait, a.arguments))))))
      (λ p. record {
        ticket = p.0;
        destination = p.1.0;
        source = p.1.1.0;
        routing_key = p.1.1.1.0;
        nowait = p.1.1.1.1.0;
        arguments = p.1.1.1.1.1;
      })
      (λ a. refl)

pub record BindOk : Type 0 where

unfoldable pub bind_ok_wire : Wire BindOk
bind_ok_wire = Wire.unit_struct (record {}) (λ a. refl)

pub record Unbind : Type 0 where
  pub ticket : ℕ
  pub destination : ShortStr
  pub source : ShortStr
  pub routing_key : ShortStr
  pub nowait : Bool
  pub arguments : FieldTable

unfoldable pub unbind_wire : Wire Unbind
unbind_wire =
    struct
      (Wire.short_uint then Wire.short_str then Wire.short_str then Wire.short_str then Wire.boolean
        then Wire.field_table)
      (λ a. (a.ticket, (a.destination, (a.source, (a.routing_key, (a.nowait, a.arguments))))))
      (λ p. record {
        ticket = p.0;
        destination = p.1.0;
        source = p.1.1.0;
        routing_key = p.1.1.1.0;
        nowait = p.1.1.1.1.0;
        arguments = p.1.1.1.1.1;
      })
      (λ a. refl)

pub record UnbindOk : Type 0 where

unfoldable pub unbind_ok_wire : Wire UnbindOk
unbind_ok_wire = Wire.unit_struct (record {}) (λ a. refl)
