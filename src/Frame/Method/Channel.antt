-- ===== src/Frame/Method/Channel.antt =====
-- amqprs/src/frame/method/channel.rs: the arguments of the methods, in the order in which they are
-- written.
use amqprs.Prelude.{ℕ, Bool, refl}
use amqprs.Serde.Types.{LongStr, ShortStr}
use amqprs.Serde.Wire
use amqprs.Serde.Wire.{Wire, ◌then◌, struct, unit_struct}

pub record OpenChannel : Type 0 where
  pub out_of_band : ShortStr

unfoldable pub open_channel_wire : Wire OpenChannel
open_channel_wire =
    struct (Wire.short_str) (λ a. a.out_of_band) (λ p. record { out_of_band = p }) (λ a. refl)

pub record OpenChannelOk : Type 0 where
  pub channel_id : LongStr

unfoldable pub open_channel_ok_wire : Wire OpenChannelOk
open_channel_ok_wire =
    struct (Wire.long_str) (λ a. a.channel_id) (λ p. record { channel_id = p }) (λ a. refl)

pub record CloseChannel : Type 0 where
  pub reply_code : ℕ
  pub reply_text : ShortStr
  pub class_id : ℕ
  pub method_id : ℕ

unfoldable pub close_channel_wire : Wire CloseChannel
close_channel_wire =
    struct (Wire.short_uint then Wire.short_str then Wire.short_uint then Wire.short_uint)
      (λ a. (a.reply_code, (a.reply_text, (a.class_id, a.method_id))))
      (λ p. record {
        reply_code = p.0;
        reply_text = p.1.0;
        class_id = p.1.1.0;
        method_id = p.1.1.1;
      })
      (λ a. refl)

pub record CloseChannelOk : Type 0 where

unfoldable pub close_channel_ok_wire : Wire CloseChannelOk
close_channel_ok_wire = Wire.unit_struct (record {}) (λ a. refl)

pub record Flow : Type 0 where
  pub active : Bool

unfoldable pub flow_wire : Wire Flow
flow_wire = struct (Wire.boolean) (λ a. a.active) (λ p. record { active = p }) (λ a. refl)

pub record FlowOk : Type 0 where
  pub active : Bool

unfoldable pub flow_ok_wire : Wire FlowOk
flow_ok_wire = struct (Wire.boolean) (λ a. a.active) (λ p. record { active = p }) (λ a. refl)
