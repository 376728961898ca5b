-- ===== src/Serde/Types.antt =====
-- amqp_serde/src/types.rs. An unsigned integer of w bits is a number below 2 ^ w; a signed one and a
-- float are their bit patterns. A `String` is its UTF-8 bytes, and a `HashMap` the list of its
-- entries in an order of iteration.
use amqprs.Prelude.{
  ℕ, ◌+◌, ◌-◌, ◌^◌, Bool, List, Option, none, some, Outcome, done, panic, ◌>>=◌, ltb, leb,
  if◌then◌else◌, length, bytes_beq, ◌==◌, ◌&&◌,
}

-- The length byte and the text.
pub record ShortStr : Type 0 where
  pub len : ℕ
  pub text : List ℕ

pub record LongStr : Type 0 where
  pub len : ℕ
  pub text : List ℕ

-- `TryFrom<String>`; `none` is the error.
unfoldable pub short_str : List ℕ → Option ShortStr
short_str s = if ltb (length s) (2 ^ 8) then some (record { len = length s; text = s }) else none

unfoldable pub long_str : List ℕ → Option LongStr
long_str s = if ltb (length s) (2 ^ 32) then some (record { len = length s; text = s }) else none

pub record DecimalValue : Type 0 where
  pub scale : ℕ
  pub value : ℕ

pub record ByteArray : Type 0 where
  pub len : ℕ
  pub bytes : List ℕ

unfoldable pub byte_array : List ℕ → Option ByteArray
byte_array b = if ltb (length b) (2 ^ 32) then some (record { len = length b; bytes = b }) else none

-- The variants of the source by their types: t b B s u I i l f d D S A T F V x.
mutual
  pub data FieldValue : Type 0 where
    boolean : Bool → FieldValue
    short_short_int short_short_uint short_int short_uint long_int long_uint : ℕ → FieldValue
    long_long_int float double : ℕ → FieldValue
    decimal : DecimalValue → FieldValue
    long_string : LongStr → FieldValue
    -- The length in bytes and the values.
    field_array : ℕ → FieldValues → FieldValue
    timestamp : ℕ → FieldValue
    -- The length in bytes and the entries.
    field_table : ℕ → FieldEntries → FieldValue
    void : FieldValue
    bytes : ByteArray → FieldValue

  pub data FieldValues : Type 0 where
    no_values : FieldValues
    value : FieldValue → FieldValues → FieldValues

  pub data FieldEntries : Type 0 where
    no_entries : FieldEntries
    entry : ShortStr → FieldValue → FieldEntries → FieldEntries

pub record FieldArray : Type 0 where
  pub len : ℕ
  pub values : FieldValues

pub record FieldTable : Type 0 where
  pub len : ℕ
  pub entries : FieldEntries

-- `FieldValue::len`: the size without the tag.
unfoldable pub value_len : FieldValue → ℕ
value_len void = 0
value_len (boolean _) = 1
value_len (short_short_int _) = 1
value_len (short_short_uint _) = 1
value_len (short_int _) = 2
value_len (short_uint _) = 2
value_len (long_int _) = 4
value_len (long_uint _) = 4
value_len (long_long_int _) = 8
value_len (float _) = 4
value_len (double _) = 8
value_len (timestamp _) = 8
value_len (decimal _) = 1 + 4
value_len (long_string s) = 4 + s.len
value_len (field_array n _) = 4 + n
value_len (field_table n _) = 4 + n
value_len (bytes b) = 4 + b.len

abbrev pub tag_size : ℕ
tag_size = 1

-- `TryFrom<Vec<FieldValue>> for FieldArray`.
unfoldable pub total_bytes : ℕ → FieldValues → ℕ
total_bytes acc no_values = acc
total_bytes acc (value v vs) = total_bytes (acc + tag_size + value_len v) vs

unfoldable pub field_array_of : FieldValues → Option FieldArray
unfolding total_bytes value_len
field_array_of vs =
    let n = total_bytes 0 vs in
    if ltb n (2 ^ 32) then some (record { len = n; values = vs }) else none

abbrev pub same_name : ShortStr → ShortStr → Bool
same_name j k = (j.len == k.len) && bytes_beq j.text k.text

-- `HashMap::insert`, `get` and `remove`.
unfoldable pub insert_entry : ShortStr → FieldValue → FieldEntries → FieldEntries
insert_entry k v no_entries = entry k v no_entries
insert_entry k v (entry j w es) =
    if same_name j k then entry k v es else entry j w (insert_entry k v es)

unfoldable pub find_entry : ShortStr → FieldEntries → Option FieldValue
find_entry k no_entries = none
find_entry k (entry j w es) = if same_name j k then some w else find_entry k es

unfoldable pub remove_entry : ShortStr → FieldEntries → FieldEntries
remove_entry k no_entries = no_entries
remove_entry k (entry j w es) = if same_name j k then es else entry j w (remove_entry k es)

unfoldable pub table_new : FieldTable
table_new = record { len = 0; entries = no_entries }

-- `LongUint::try_from(size_of_val(&k.0) + k.0 + TAG_SIZE + v.len()).unwrap()`.
unfoldable pub entry_size : ShortStr → FieldValue → Outcome ℕ
unfolding value_len
entry_size k v =
    let n = 1 + k.len + tag_size + value_len v in if ltb n (2 ^ 32) then done n else panic

-- The length grows by the new entry also where the name was there before. u32 arithmetic with the
-- overflow check of a build with debug assertions.
unfoldable pub table_insert :
    FieldTable → ShortStr → FieldValue → Outcome (FieldTable × Option FieldValue)
unfolding entry_size insert_entry find_entry
table_insert t k v = do
  n ← entry_size k v
  if ltb (t.len + n) (2 ^ 32)
      then done
          (record { len = t.len + n; entries = insert_entry k v t.entries }, find_entry k t.entries)
      else panic

unfoldable pub table_remove : FieldTable → ShortStr → Outcome (FieldTable × Option FieldValue)
unfolding entry_size remove_entry find_entry
table_remove t k = elim (find_entry k t.entries) [
  | none ↦ done (t, none)
  | some v ↦ do
    n ← entry_size k v
    if leb n t.len
        then done (record { len = t.len - n; entries = remove_entry k t.entries }, some v)
        else panic
]

unfoldable pub table_get : FieldTable → ShortStr → Option FieldValue
unfolding find_entry
table_get t k = find_entry k t.entries
