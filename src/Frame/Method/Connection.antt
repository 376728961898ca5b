-- ===== src/Frame/Method/Connection.antt =====
-- amqprs/src/frame/method/connection.rs: the arguments of the methods, in the order in which they are
-- written.
use amqprs.Prelude.{ℕ, refl}
use amqprs.Serde.Types.{FieldTable, LongStr, ShortStr}
use amqprs.Serde.Wire
use amqprs.Serde.Wire.{Wire, ◌then◌, struct, unit_struct}

pub record Start : Type 0 where
  pub version_major : ℕ
  pub version_minor : ℕ
  pub server_properties : FieldTable
  pub mechanisms : LongStr
  pub locales : LongStr

unfoldable pub start_wire : Wire Start
start_wire =
    struct
      (Wire.octect then Wire.octect then Wire.field_table then Wire.long_str then Wire.long_str)
      (λ a. (a.version_major, (a.version_minor, (a.server_properties, (a.mechanisms, a.locales)))))
      (λ p. record {
        version_major = p.0;
        version_minor = p.1.0;
        server_properties = p.1.1.0;
        mechanisms = p.1.1.1.0;
        locales = p.1.1.1.1;
      })
      (λ a. refl)

pub record StartOk : Type 0 where
  pub client_properties : FieldTable
  pub machanisms : ShortStr
  pub response : LongStr
  pub locale : ShortStr

unfoldable pub start_ok_wire : Wire StartOk
start_ok_wire =
    struct (Wire.field_table then Wire.short_str then Wire.long_str then Wire.short_str)
      (λ a. (a.client_properties, (a.machanisms, (a.response, a.locale))))
      (λ p. record {
        client_properties = p.0;
        machanisms = p.1.0;
        response = p.1.1.0;
        locale = p.1.1.1;
      })
      (λ a. refl)

pub record Tune : Type 0 where
  pub channel_max : ℕ
  pub frame_max : ℕ
  pub heartbeat : ℕ

unfoldable pub tune_wire : Wire Tune
tune_wire =
    struct (Wire.short_uint then Wire.long_uint then Wire.short_uint)
      (λ a. (a.channel_max, (a.frame_max, a.heartbeat)))
      (λ p. record { channel_max = p.0; frame_max = p.1.0; heartbeat = p.1.1 }) (λ a. refl)

pub record TuneOk : Type 0 where
  pub channel_max : ℕ
  pub frame_max : ℕ
  pub heartbeat : ℕ

unfoldable pub tune_ok_wire : Wire TuneOk
tune_ok_wire =
    struct (Wire.short_uint then Wire.long_uint then Wire.short_uint)
      (λ a. (a.channel_max, (a.frame_max, a.heartbeat)))
      (λ p. record { channel_max = p.0; frame_max = p.1.0; heartbeat = p.1.1 }) (λ a. refl)

pub record Open : Type 0 where
  pub virtual_host : ShortStr
  pub capabilities : ShortStr
  pub insist : ℕ

unfoldable pub open_wire : Wire Open
open_wire =
    struct (Wire.short_str then Wire.short_str then Wire.octect)
      (λ a. (a.virtual_host, (a.capabilities, a.insist)))
      (λ p. record { virtual_host = p.0; capabilities = p.1.0; insist = p.1.1 }) (λ a. refl)

pub record OpenOk : Type 0 where
  pub know_hosts : ShortStr

unfoldable pub open_ok_wire : Wire OpenOk
open_ok_wire =
    struct (Wire.short_str) (λ a. a.know_hosts) (λ p. record { know_hosts = p }) (λ a. refl)

pub record Close : Type 0 where
  pub reply_code : ℕ
  pub reply_text : ShortStr
  pub class_id : ℕ
  pub method_id : ℕ

unfoldable pub close_wire : Wire Close
close_wire =
    struct (Wire.short_uint then Wire.short_str then Wire.short_uint then Wire.short_uint)
      (λ a. (a.reply_code, (a.reply_text, (a.class_id, a.method_id))))
      (λ p. record {
        reply_code = p.0;
        reply_text = p.1.0;
        class_id = p.1.1.0;
        method_id = p.1.1.1;
      })
      (λ a. refl)

pub record CloseOk : Type 0 where

unfoldable pub close_ok_wire : Wire CloseOk
close_ok_wire = Wire.unit_struct (record {}) (λ a. refl)

pub record Secure : Type 0 where
  pub challenge : LongStr

unfoldable pub secure_wire : Wire Secure
secure_wire = struct (Wire.long_str) (λ a. a.challenge) (λ p. record { challenge = p }) (λ a. refl)

pub record SecureOk : Type 0 where
  pub response : LongStr

unfoldable pub secure_ok_wire : Wire SecureOk
secure_ok_wire = struct (Wire.long_str) (λ a. a.response) (λ p. record { response = p }) (λ a. refl)

pub record Blocked : Type 0 where
  pub reason : ShortStr

unfoldable pub blocked_wire : Wire Blocked
blocked_wire = struct (Wire.short_str) (λ a. a.reason) (λ p. record { reason = p }) (λ a. refl)

pub record Unblocked : Type 0 where

unfoldable pub unblocked_wire : Wire Unblocked
unblocked_wire = Wire.unit_struct (record {}) (λ a. refl)

pub record UpdateSecret : Type 0 where
  pub new_secret : LongStr
  pub reason : ShortStr

unfoldable pub update_secret_wire : Wire UpdateSecret
update_secret_wire =
    struct (Wire.long_str then Wire.short_str) (λ a. (a.new_secret, a.reason))
      (λ p. record { new_secret = p.0; reason = p.1 }) (λ a. refl)

pub record UpdateSecretOk : Type 0 where

unfoldable pub update_secret_ok_wire : Wire UpdateSecretOk
update_secret_ok_wire = Wire.unit_struct (record {}) (λ a. refl)
