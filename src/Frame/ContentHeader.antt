-- ===== src/Frame/ContentHeader.antt =====
-- amqprs/src/frame/content_header.rs: the content header, and the message properties, each of which
-- has a bit in one of two bytes of flags. A `&str` is its UTF-8 bytes.
pub mod Flags
pub mod Wires
pub mod RoundTrip
pub mod New
pub mod Setters
use amqprs.Prelude.{
  ℕ, ◌^◌, List, [], ◌∷◌, Bool, Option, none, some, bit_or, is_some, Outcome, done, panic, ◌>>=◌,
  unwrap, if◌then◌else◌,
}
use amqprs.Serde.Types.{ShortStr, FieldTable, short_str}

pub record ContentHeaderCommon : Type 0 where
  pub class : ℕ
  pub weight : ℕ
  pub body_size : ℕ

pub record BasicProperties : Type 0 where
  pub property_flags : ℕ × ℕ
  pub content_type : Option ShortStr
  pub content_encoding : Option ShortStr
  pub headers : Option FieldTable
  pub delivery_mode : Option ℕ
  pub priority : Option ℕ
  pub correlation_id : Option ShortStr
  pub reply_to : Option ShortStr
  pub expiration : Option ShortStr
  pub message_id : Option ShortStr
  pub timestamp : Option ℕ
  pub message_type : Option ShortStr
  pub user_id : Option ShortStr
  pub app_id : Option ShortStr
  pub cluster_id : Option ShortStr

pub record ContentHeader : Type 0 where
  pub common : ContentHeaderCommon
  pub basic_properties : BasicProperties

-- The derived `Default`.
abbrev pub basic_default : BasicProperties
basic_default = record {
  property_flags = (0, 0);
  content_type = none;
  content_encoding = none;
  headers = none;
  delivery_mode = none;
  priority = none;
  correlation_id = none;
  reply_to = none;
  expiration = none;
  message_id = none;
  timestamp = none;
  message_type = none;
  user_id = none;
  app_id = none;
  cluster_id = none;
}

-- `1 << k`.
abbrev pub bit : ℕ → ℕ
bit k = 2 ^ k

unfoldable pub set_content_type_flag : ℕ × ℕ → ℕ × ℕ
set_content_type_flag flags = (bit_or flags.0 (bit 7), flags.1)

unfoldable pub set_content_encoding_flag : ℕ × ℕ → ℕ × ℕ
set_content_encoding_flag flags = (bit_or flags.0 (bit 6), flags.1)

unfoldable pub set_headers_flag : ℕ × ℕ → ℕ × ℕ
set_headers_flag flags = (bit_or flags.0 (bit 5), flags.1)

unfoldable pub set_delivery_mode_flag : ℕ × ℕ → ℕ × ℕ
set_delivery_mode_flag flags = (bit_or flags.0 (bit 4), flags.1)

unfoldable pub set_priority_flag : ℕ × ℕ → ℕ × ℕ
set_priority_flag flags = (bit_or flags.0 (bit 3), flags.1)

unfoldable pub set_correlation_id_flag : ℕ × ℕ → ℕ × ℕ
set_correlation_id_flag flags = (bit_or flags.0 (bit 2), flags.1)

unfoldable pub set_reply_to_flag : ℕ × ℕ → ℕ × ℕ
set_reply_to_flag flags = (bit_or flags.0 (bit 1), flags.1)

unfoldable pub set_expiration_flag : ℕ × ℕ → ℕ × ℕ
set_expiration_flag flags = (bit_or flags.0 (bit 0), flags.1)

unfoldable pub set_message_id_flag : ℕ × ℕ → ℕ × ℕ
set_message_id_flag flags = (flags.0, bit_or flags.1 (bit 7))

unfoldable pub set_timestamp_flag : ℕ × ℕ → ℕ × ℕ
set_timestamp_flag flags = (flags.0, bit_or flags.1 (bit 6))

unfoldable pub set_message_type_flag : ℕ × ℕ → ℕ × ℕ
set_message_type_flag flags = (flags.0, bit_or flags.1 (bit 5))

unfoldable pub set_user_id_flag : ℕ × ℕ → ℕ × ℕ
set_user_id_flag flags = (flags.0, bit_or flags.1 (bit 4))

unfoldable pub set_app_id_flag : ℕ × ℕ → ℕ × ℕ
set_app_id_flag flags = (flags.0, bit_or flags.1 (bit 3))

unfoldable pub set_cluster_id_flag : ℕ × ℕ → ℕ × ℕ
set_cluster_id_flag flags = (flags.0, bit_or flags.1 (bit 2))

abbrev pub delivery_mode_transient : ℕ
delivery_mode_transient = 1

abbrev pub delivery_mode_persistent : ℕ
delivery_mode_persistent = 2
