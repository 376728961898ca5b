-- ===== src/Serde/WellFormed.antt =====
-- The field values of types.rs that the wire format can carry: numbers within their width, lengths
-- that are those of the content, texts in UTF-8, and the names of a table distinct.
use amqprs.Prelude.{ℕ, ◌^◌, ◌<◌, ◌≡◌, Bool, true, none, length}
use amqprs.Serde.Utf8.{from_utf8}
use amqprs.Serde.Types.{
  ShortStr, LongStr, DecimalValue, ByteArray, FieldValue, FieldValues, FieldEntries, FieldTable,
  boolean, short_short_int, short_short_uint, short_int, short_uint, long_int, long_uint,
  long_long_int, float, double, decimal, long_string, field_array, timestamp, field_table, void,
  bytes, no_values, value, no_entries, entry, insert_entry, find_entry,
}
use amqprs.Serde.Ser.{ser_values, ser_entries}

pub record IsShortStr (s : ShortStr) : Type 0 where
  pub counted : length s.text ≡ s.len
  pub fits : s.len < 2 ^ 8
  pub utf8 : from_utf8 s.text ≡ true

pub record IsLongStr (s : LongStr) : Type 0 where
  pub counted : length s.text ≡ s.len
  pub fits : s.len < 2 ^ 32
  pub utf8 : from_utf8 s.text ≡ true

pub record IsDecimal (d : DecimalValue) : Type 0 where
  pub scale_fits : d.scale < 2 ^ 8
  pub value_fits : d.value < 2 ^ 32

pub record IsByteArray (b : ByteArray) : Type 0 where
  pub counted : length b.bytes ≡ b.len
  pub fits : b.len < 2 ^ 32

-- No name of `es` is in `acc`, and none comes twice.
abbrev pub NewNames : FieldEntries → FieldEntries → Type 0
NewNames acc no_entries = Unit
NewNames acc (entry k v es) = (find_entry k acc ≡ none) × NewNames (insert_entry k v acc) es

mutual
  pub data IsWire : FieldValue → Type 0 where
    w_boolean : (v : Bool) → IsWire (boolean v)
    w_short_short_int : (v : ℕ) → v < 2 ^ 8 → IsWire (short_short_int v)
    w_short_short_uint : (v : ℕ) → v < 2 ^ 8 → IsWire (short_short_uint v)
    w_short_int : (v : ℕ) → v < 2 ^ 16 → IsWire (short_int v)
    w_short_uint : (v : ℕ) → v < 2 ^ 16 → IsWire (short_uint v)
    w_long_int : (v : ℕ) → v < 2 ^ 32 → IsWire (long_int v)
    w_long_uint : (v : ℕ) → v < 2 ^ 32 → IsWire (long_uint v)
    w_long_long_int : (v : ℕ) → v < 2 ^ 64 → IsWire (long_long_int v)
    w_float : (v : ℕ) → v < 2 ^ 32 → IsWire (float v)
    w_double : (v : ℕ) → v < 2 ^ 64 → IsWire (double v)
    w_decimal : (v : DecimalValue) → IsDecimal v → IsWire (decimal v)
    w_long_string : (v : LongStr) → IsLongStr v → IsWire (long_string v)
    w_field_array :
        (n : ℕ) (vs : FieldValues)
        → n < 2 ^ 32
        → length (ser_values vs) ≡ n
        → AreWire vs
        → IsWire (field_array n vs)
    w_timestamp : (v : ℕ) → v < 2 ^ 64 → IsWire (timestamp v)
    w_field_table :
        (n : ℕ) (es : FieldEntries)
        → n < 2 ^ 32
        → length (ser_entries es) ≡ n
        → NewNames no_entries es
        → EntriesWire es
        → IsWire (field_table n es)
    w_void : IsWire void
    w_bytes : (v : ByteArray) → IsByteArray v → IsWire (bytes v)

  pub data AreWire : FieldValues → Type 0 where
    w_no_values : AreWire no_values
    w_value : (v : FieldValue) (vs : FieldValues) → IsWire v → AreWire vs → AreWire (value v vs)

  pub data EntriesWire : FieldEntries → Type 0 where
    w_no_entries : EntriesWire no_entries
    w_entry :
        (k : ShortStr) (v : FieldValue) (es : FieldEntries)
        → IsShortStr k
        → IsWire v
        → EntriesWire es
        → EntriesWire (entry k v es)

pub record IsTable (t : FieldTable) : Type 0 where
  pub fits : t.len < 2 ^ 32
  pub counted : length (ser_entries t.entries) ≡ t.len
  pub names : NewNames no_entries t.entries
  pub wire : EntriesWire t.entries
