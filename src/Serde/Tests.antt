-- ===== src/Serde/Tests.antt =====
-- The theorems on amqp_serde/src at small values.
use amqprs.Prelude.{◌+◌, ◌≡◌, refl, true, [], ◌∷◌, none, length, arith}
use amqprs.Prelude.Bytes.{to_be_bytes}
use amqprs.Serde.Utf8.{from_utf8}
use amqprs.Serde.Types.{
  ShortStr, FieldValue, FieldValues, FieldTable, boolean, short_uint, field_array, no_values, value,
  no_entries, entry, value_len, tag_size,
}
use amqprs.Serde.Ser.{ser_value, ser_values, serialize_bool, serialize_u16, serialize_u32}
use amqprs.Serde.De.{Deserializer, value_read, from_bytes, de_value}
use amqprs.Serde.WellFormed.{
  IsShortStr, IsWire, AreWire, w_boolean, w_short_uint, w_field_array, w_no_values, w_value,
}
use amqprs.Serde.RoundTrip.{from_bytes-ser_value}
use amqprs.Serde.Lengths.{length-ser_value}
use amqprs.Serde.Takes.{Takes}

abbrev two_values : FieldValues
two_values = value (boolean true) (value (short_uint 300) no_values)

abbrev array : FieldValue
array = field_array 5 two_values

two_values-AreWire : AreWire two_values
two_values-AreWire =
    w_value (boolean true) (value (short_uint 300) no_values) (w_boolean true)
      (w_value (short_uint 300) no_values (w_short_uint 300 (omega arith)) w_no_values)

array-IsWire : IsWire array
unfolding ser_values ser_value serialize_bool serialize_u16 to_be_bytes
array-IsWire = w_field_array 5 two_values (omega arith) refl two_values-AreWire

from_bytes-ser_value_example : from_bytes (de_value 20) (ser_value array) ≡ value_read array
unfolding ser_value ser_values serialize_bool serialize_u16 serialize_u32 to_be_bytes
from_bytes-ser_value_example = from_bytes-ser_value array 20 array-IsWire (omega arith)

length-ser_value_example : length (ser_value array) ≡ tag_size + value_len array
length-ser_value_example = length-ser_value array array-IsWire

-- "k" and "j".
abbrev k : ShortStr
k = record { len = 1; text = 107 ∷ [] }

abbrev j : ShortStr
j = record { len = 1; text = 106 ∷ [] }

k-IsShortStr : IsShortStr k
unfolding from_utf8
k-IsShortStr = record { counted = refl; fits = omega arith; utf8 = refl }

abbrev table : FieldTable
table = record { len = 4; entries = entry k (boolean true) no_entries }

-- The bytes of an array of two truth values, which do not read as a table.
abbrev truths : Deserializer
truths = record {
  input = 65 ∷ 0 ∷ 0 ∷ 0 ∷ 4 ∷ 116 ∷ 1 ∷ 116 ∷ 0 ∷ [];
  last_parsed_len = none;
  cursor = 0;
}
