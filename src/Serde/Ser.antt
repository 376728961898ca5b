-- ===== src/Serde/Ser.antt =====
-- amqp_serde/src/ser.rs: what each call of the serializer appends to its buffer, and what the
-- derived `Serialize` of the field types makes of these calls (struct fields in order, a variant's
-- name before its value).
use amqprs.Prelude.{
  ℕ, ◌+◌, ◌-◌, ◌%◌, ◌^◌, Bool, true, false, List, [], ◌∷◌, ◌++◌, length, take, drop, if◌then◌else◌,
}
use amqprs.Prelude.Bytes.{to_be_bytes}
use amqprs.Serde.Types.{
  ShortStr, LongStr, DecimalValue, ByteArray, FieldValue, FieldValues, FieldEntries, FieldTable,
  boolean, short_short_int, short_short_uint, short_int, short_uint, long_int, long_uint,
  long_long_int, float, double, decimal, long_string, field_array, timestamp, field_table, void,
  bytes, no_values, value, no_entries, entry,
}

unfoldable pub serialize_bool : Bool → List ℕ
serialize_bool v = (if v then 1 else 0) ∷ []

unfoldable pub serialize_u8 : ℕ → List ℕ
serialize_u8 v = v ∷ []

-- `v as u8` of a bit pattern.
unfoldable pub serialize_i8 : ℕ → List ℕ
serialize_i8 v = v ∷ []

unfoldable pub serialize_u16 : ℕ → List ℕ
serialize_u16 v = to_be_bytes 2 v

unfoldable pub serialize_i16 : ℕ → List ℕ
serialize_i16 v = to_be_bytes 2 v

unfoldable pub serialize_u32 : ℕ → List ℕ
serialize_u32 v = to_be_bytes 4 v

unfoldable pub serialize_i32 : ℕ → List ℕ
serialize_i32 v = to_be_bytes 4 v

unfoldable pub serialize_u64 : ℕ → List ℕ
serialize_u64 v = to_be_bytes 8 v

unfoldable pub serialize_i64 : ℕ → List ℕ
serialize_i64 v = to_be_bytes 8 v

unfoldable pub serialize_f32 : ℕ → List ℕ
serialize_f32 v = to_be_bytes 4 v

unfoldable pub serialize_f64 : ℕ → List ℕ
serialize_f64 v = to_be_bytes 8 v

unfoldable pub serialize_str : List ℕ → List ℕ
serialize_str v = v

unfoldable pub serialize_bytes : List ℕ → List ℕ
serialize_bytes v = v

-- The first part of `serialize_map`, on the whole buffer: where the map starts, and four bytes kept
-- for its length where that is not known. `HashMap` passes its length.
unfoldable pub serialize_map : Bool → List ℕ → List ℕ × ℕ
serialize_map is_len_known output =
    (if is_len_known then output else output ++ to_be_bytes 4 0, length output)

-- `end` of `MapSerializer`: the four bytes are written over.
unfoldable pub map_end : Bool → ℕ → List ℕ → List ℕ
map_end true start output = output
map_end false start output =
    take start output
    ++ (to_be_bytes 4 ((length output - start - 4) % 2 ^ 32) ++ drop (start + 4) output)

unfoldable pub ser_short_str : ShortStr → List ℕ
unfolding serialize_u8 serialize_str
ser_short_str s = serialize_u8 s.len ++ serialize_str s.text

unfoldable pub ser_long_str : LongStr → List ℕ
unfolding serialize_u32 serialize_str
ser_long_str s = serialize_u32 s.len ++ serialize_str s.text

unfoldable pub ser_decimal : DecimalValue → List ℕ
unfolding serialize_u8 serialize_i32
ser_decimal d = serialize_u8 d.scale ++ serialize_i32 d.value

unfoldable pub ser_byte_array : ByteArray → List ℕ
unfolding serialize_u32 serialize_bytes
ser_byte_array b = serialize_u32 b.len ++ serialize_bytes b.bytes

-- `serialize_newtype_variant` and `serialize_unit_variant`: the variant's name is one letter.
unfoldable mutual
  unfolding serialize_bool serialize_i8 serialize_u8 serialize_i16 serialize_u16 serialize_i32
      serialize_u32 serialize_i64 serialize_u64 serialize_f32 serialize_f64 ser_long_str ser_decimal
      ser_byte_array ser_short_str

  pub ser_value : FieldValue → List ℕ
  ser_value (boolean v) = b't' ∷ serialize_bool v
  ser_value (short_short_int v) = b'b' ∷ serialize_i8 v
  ser_value (short_short_uint v) = b'B' ∷ serialize_u8 v
  ser_value (short_int v) = b's' ∷ serialize_i16 v
  ser_value (short_uint v) = b'u' ∷ serialize_u16 v
  ser_value (long_int v) = b'I' ∷ serialize_i32 v
  ser_value (long_uint v) = b'i' ∷ serialize_u32 v
  ser_value (long_long_int v) = b'l' ∷ serialize_i64 v
  ser_value (float v) = b'f' ∷ serialize_f32 v
  ser_value (double v) = b'd' ∷ serialize_f64 v
  ser_value (decimal v) = b'D' ∷ ser_decimal v
  ser_value (long_string v) = b'S' ∷ ser_long_str v
  ser_value (field_array n vs) = b'A' ∷ (serialize_u32 n ++ ser_values vs)
  ser_value (timestamp v) = b'T' ∷ serialize_u64 v
  ser_value (field_table n es) = b'F' ∷ (serialize_u32 n ++ ser_entries es)
  ser_value void = b'V' ∷ []
  ser_value (bytes v) = b'x' ∷ ser_byte_array v

  pub ser_values : FieldValues → List ℕ
  ser_values no_values = []
  ser_values (value v vs) = ser_value v ++ ser_values vs

  pub ser_entries : FieldEntries → List ℕ
  ser_entries no_entries = []
  ser_entries (entry k v es) = ser_short_str k ++ (ser_value v ++ ser_entries es)

unfoldable pub ser_field_table : FieldTable → List ℕ
unfolding serialize_u32
ser_field_table t = serialize_u32 t.len ++ ser_entries t.entries
