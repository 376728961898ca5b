-- ===== src/Frame/ContentHeader/RoundTrip.antt =====
-- The properties of amqprs/src/frame/content_header.rs are read back, if they are thirteen at most.
use amqprs.Prelude.{ℕ, ◌-◌, ◌≤◌, ◌<◌, ◌≡◌, refl, sym, List, [], none, append-nil}
use amqprs.Serde.Wire
use amqprs.Serde.Wire.{Wire}
use amqprs.Serde.RoundTrip.{from_bytes-Parses}
use amqprs.Serde.De.{M, ◌>>=◌, return, message, value_read, error_read, from_bytes}
use amqprs.Serde.Parses.{Parses, Parses-bind, Parses-map}
use amqprs.Frame.ContentHeader.{BasicProperties}
use amqprs.Frame.ContentHeader.Flags.{IsFlagged}
use amqprs.Frame.ContentHeader.Wires.{
  Properties, properties, row, of_row, fields_len, flags_wire, visit_seq, ser_properties,
  FitsOption, Fails, Fails-later, Fails-return,
}

-- What is set fits its type.
pub record ContentsFit (p : BasicProperties) : Type 0 where
  pub content_type : FitsOption Wire.short_str p.content_type
  pub content_encoding : FitsOption Wire.short_str p.content_encoding
  pub headers : FitsOption Wire.field_table p.headers
  pub delivery_mode : FitsOption Wire.octect p.delivery_mode
  pub priority : FitsOption Wire.octect p.priority
  pub correlation_id : FitsOption Wire.short_str p.correlation_id
  pub reply_to : FitsOption Wire.short_str p.reply_to
  pub expiration : FitsOption Wire.short_str p.expiration
  pub message_id : FitsOption Wire.short_str p.message_id
  pub timestamp : FitsOption Wire.long_long_uint p.timestamp
  pub message_type : FitsOption Wire.short_str p.message_type
  pub user_id : FitsOption Wire.short_str p.user_id
  pub app_id : FitsOption Wire.short_str p.app_id
  pub cluster_id : FitsOption Wire.short_str p.cluster_id

-- The number of properties that are set.
abbrev pub number_set : BasicProperties → ℕ
number_set p = Properties.number properties (row p)

fits :
    (p : BasicProperties)
    → IsFlagged p
    → ContentsFit p
    → Properties.Fits properties p.property_flags (row p)
unfolding properties
fits p v h = (
  (v.first_agrees.0, h.content_type),
  (
    (v.first_agrees.1.0, h.content_encoding),
    (
      (v.first_agrees.1.1.0, h.headers),
      (
        (v.first_agrees.1.1.1.0, h.delivery_mode),
        (
          (v.first_agrees.1.1.1.1.0, h.priority),
          (
            (v.first_agrees.1.1.1.1.1.0, h.correlation_id),
            (
              (v.first_agrees.1.1.1.1.1.1.0, h.reply_to),
              (
                (v.first_agrees.1.1.1.1.1.1.1.0, h.expiration),
                (
                  (v.second_agrees.0, h.message_id),
                  (
                    (v.second_agrees.1.0, h.timestamp),
                    (
                      (v.second_agrees.1.1.0, h.message_type),
                      (
                        (v.second_agrees.1.1.1.0, h.user_id),
                        (
                          (v.second_agrees.1.1.1.1.0, h.app_id),
                          ((v.second_agrees.1.1.1.1.1.0, h.cluster_id)),
                        ),
                      ),
                    ),
                  ),
                ),
              ),
            ),
          ),
        ),
      ),
    ),
  ),
)

pub Parses-properties :
    (p : BasicProperties)
    → IsFlagged p
    → ContentsFit p
    → number_set p ≤ 13
    → Parses visit_seq (ser_properties p) p
unfolding visit_seq ser_properties
Parses-properties p v h few =
    Parses-bind (Wire.de flags_wire)
      (λ flags. Properties.de properties flags (fields_len - 1) >>= λ r. return (of_row flags r.0))
      (Wire.ser flags_wire p.property_flags) (Properties.ser properties (row p)) p.property_flags p
      (Wire.parses flags_wire p.property_flags (v.first_byte, v.second_byte))
      (Parses-map (Properties.de properties p.property_flags (fields_len - 1))
        (λ r. of_row p.property_flags r.0) (Properties.ser properties (row p))
        (row p, 13 - number_set p)
        (Properties.parses properties p.property_flags 13 (row p) (fits p v h) few))

Fails-properties :
    (p : BasicProperties)
    → IsFlagged p
    → ContentsFit p
    → 13 < number_set p
    → Fails visit_seq (ser_properties p)
unfolding visit_seq ser_properties
Fails-properties p v h many =
    Fails-later (Wire.de flags_wire)
      (λ flags. Properties.de properties flags (fields_len - 1) >>= λ r. return (of_row flags r.0))
      (Wire.ser flags_wire p.property_flags) (Properties.ser properties (row p)) p.property_flags
      (Wire.parses flags_wire p.property_flags (v.first_byte, v.second_byte))
      (Fails-return (Properties.de properties p.property_flags (fields_len - 1))
        (λ r. of_row p.property_flags r.0) (Properties.ser properties (row p))
        (Properties.fails properties p.property_flags 13 (row p) (fits p v h) many))

from_bytes-Fails :
    {A : Type 0} (m : M A) (bs : List ℕ) → Fails m bs → from_bytes m bs ≡ error_read message
unfolding from_bytes
from_bytes-Fails m bs q = let (d, e) = q [] none 0 in rw (sym (append-nil bs)) (rw e refl)

-- Message properties whose flags agree with what is set and whose contents fit are read back from
-- their bytes if thirteen at most are set; with all fourteen set, reading ends in an error of
-- serde.
pub from_bytes-ser_properties :
    (p : BasicProperties)
    → IsFlagged p
    → ContentsFit p
    → ((number_set p ≤ 13) → from_bytes visit_seq (ser_properties p) ≡ value_read p)
      × ((13 < number_set p) → from_bytes visit_seq (ser_properties p) ≡ error_read message)
from_bytes-ser_properties p v h = (
  (λ few. from_bytes-Parses visit_seq (ser_properties p) p (Parses-properties p v h few)),
  λ many. from_bytes-Fails visit_seq (ser_properties p) (Fails-properties p v h many),
)
