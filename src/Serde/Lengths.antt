-- ===== src/Serde/Lengths.antt =====
-- The lengths that types.rs keeps: `FieldValue::len`, and the length of a field array and of a field
-- table under `insert` and `remove`.
use amqprs.Prelude.{
  ℕ, ◌+◌, ◌^◌, ◌<◌, ◌≡◌, refl, sym, ◌∙◌, ap, ap₂, inl, inr, true, List, ◌++◌, none, some, length,
  arith, length-append, ltb, leb, subst, done, ◌>>=◌, bytes_beq, bytes_beq_iff, Bool-cases,
}
use amqprs.Prelude.Bytes.{to_be_bytes, length-to_be_bytes}
use amqprs.Serde.Types.{
  ShortStr, FieldValue, FieldValues, FieldEntries, FieldTable, FieldArray, field_array, no_entries,
  entry, insert_entry, find_entry, remove_entry, same_name, value_len, total_bytes, field_array_of,
  entry_size, table_insert, table_remove, tag_size,
}
use amqprs.Serde.Ser.{
  serialize_bool, serialize_u8, serialize_i8, serialize_u16, serialize_i16, serialize_u32,
  serialize_i32, serialize_u64, serialize_i64, serialize_f32, serialize_f64, serialize_str,
  serialize_bytes, ser_short_str, ser_long_str, ser_decimal, ser_byte_array, ser_value, ser_values,
  ser_entries,
}
use amqprs.Serde.WellFormed.{
  IsShortStr, NewNames, IsWire, AreWire, EntriesWire, IsTable, w_boolean, w_short_short_int,
  w_short_short_uint, w_short_int, w_short_uint, w_long_int, w_long_uint, w_long_long_int, w_float,
  w_double, w_decimal, w_long_string, w_field_array, w_timestamp, w_field_table, w_void, w_bytes,
  w_no_values, w_value, w_no_entries, w_entry,
}
use amqprs.Serde.Entries.{join, insert_entry-new, insert_all, insert_all_new}

length-sized : (n : ℕ) (bs : List ℕ) → length bs ≡ n → length (to_be_bytes 4 n ++ bs) ≡ 4 + n
length-sized n bs e =
    omega (arith, length-append {0} {A = ℕ} (to_be_bytes 4 n) bs, length-to_be_bytes 4 n)

-- For a value of the wire format, FieldValue::len and the size of the tag together are the number
-- of bytes written for it.
pub length-ser_value : (v : FieldValue) → IsWire v → length (ser_value v) ≡ tag_size + value_len v
unfolding ser_value value_len serialize_bool serialize_u8 serialize_i8 serialize_u16 serialize_i16
    serialize_u32 serialize_i32 serialize_u64 serialize_i64 serialize_f32 serialize_f64
    serialize_str serialize_bytes ser_long_str ser_decimal ser_byte_array
length-ser_value v (w_boolean b) = omega arith
length-ser_value v (w_short_short_int n h) = omega arith
length-ser_value v (w_short_short_uint n h) = omega arith
length-ser_value v (w_short_int n h) = omega (arith, length-to_be_bytes 2 n)
length-ser_value v (w_short_uint n h) = omega (arith, length-to_be_bytes 2 n)
length-ser_value v (w_long_int n h) = omega (arith, length-to_be_bytes 4 n)
length-ser_value v (w_long_uint n h) = omega (arith, length-to_be_bytes 4 n)
length-ser_value v (w_long_long_int n h) = omega (arith, length-to_be_bytes 8 n)
length-ser_value v (w_float n h) = omega (arith, length-to_be_bytes 4 n)
length-ser_value v (w_double n h) = omega (arith, length-to_be_bytes 8 n)
length-ser_value v (w_timestamp n h) = omega (arith, length-to_be_bytes 8 n)
length-ser_value v (w_decimal d h) = omega (arith, length-to_be_bytes 4 d.value)
length-ser_value v (w_long_string s h) = omega (arith, length-sized s.len s.text h.counted)
length-ser_value v (w_field_array n vs f e ws) = omega (arith, length-sized n (ser_values vs) e)
length-ser_value v (w_field_table n es f e x ws) = omega (arith, length-sized n (ser_entries es) e)
length-ser_value v w_void = omega arith
length-ser_value v (w_bytes b h) = omega (arith, length-sized b.len b.bytes h.counted)

total_bytes-eq :
    (acc : ℕ) (vs : FieldValues) → AreWire vs → total_bytes acc vs ≡ acc + length (ser_values vs)
unfolding total_bytes ser_values
total_bytes-eq acc vs w_no_values = omega arith
total_bytes-eq acc vs (w_value v rest w ws) = omega (
  arith,
  total_bytes-eq (acc + tag_size + value_len v) rest ws,
  length-ser_value v w,
  length-append {0} {A = ℕ} (ser_value v) (ser_values rest),
)

-- A vector of values of the wire format whose bytes number less than 2 ^ 32 becomes a field array
-- of the wire format with these values.
pub field_array_of-IsWire :
    (vs : FieldValues)
    → AreWire vs
    → length (ser_values vs) < 2 ^ 32
    → (a : FieldArray) × (field_array_of vs ≡ some a)
      × (a.values ≡ vs)
      × IsWire (field_array a.len a.values)
unfolding field_array_of
field_array_of-IsWire vs w h =
    let e = total_bytes-eq 0 vs w in
    (
      record { len = total_bytes 0 vs; values = vs },
      ground arith,
      refl,
      w_field_array (total_bytes 0 vs) vs (omega arith) (omega arith) w,
    )

length-ser_entry :
    (k : ShortStr) (v : FieldValue) (es : FieldEntries)
    → IsShortStr k
    → IsWire v
    → length (ser_entries (entry k v es))
      ≡ 1 + k.len + tag_size + value_len v + length (ser_entries es)
unfolding ser_entries ser_short_str serialize_u8 serialize_str
length-ser_entry k v es wk wv = omega (
  arith,
  wk.counted,
  length-append {0} {A = ℕ} k.text (ser_value v ++ ser_entries es),
  length-append {0} {A = ℕ} (ser_value v) (ser_entries es),
  length-ser_value v wv,
)

same_name-len : (j k : ShortStr) → same_name j k ≡ true → j.len ≡ k.len
same_name-len j k h = ground arith

-- What an insertion does to the length of the encoding: an old entry of the name is replaced.
length-insert_entry :
    (k : ShortStr) (v : FieldValue) (es : FieldEntries)
    → IsShortStr k
    → IsWire v
    → EntriesWire es
    → EntriesWire (insert_entry k v es)
      × ((find_entry k es ≡ none)
          → length (ser_entries (insert_entry k v es))
            ≡ length (ser_entries es) + (1 + k.len + tag_size + value_len v))
      × ((w : FieldValue)
          → find_entry k es ≡ some w
          → length (ser_entries (insert_entry k v es)) + value_len w
            ≡ length (ser_entries es) + value_len v)
unfolding insert_entry find_entry
length-insert_entry k v es wk wv w_no_entries = (
  w_entry k v no_entries wk wv w_no_entries,
  (λ _. length-ser_entry k v no_entries wk wv ∙ (unfold ser_entries in omega arith)),
  λ w e. absurd (cc),
)
length-insert_entry k v es wk wv (w_entry j u rest wj wu ws) = elim (Bool-cases (same_name j k)) [
  | inl same ↦ rw same (
    w_entry k v rest wk wv ws,
    (λ e. absurd (cc)),
    λ w e.
        let eq : u ≡ w = ground arith in
        omega (
          arith,
          length-ser_entry k v rest wk wv,
          length-ser_entry j u rest wj wu,
          same_name-len j k same,
          ap value_len eq,
        ),
  )
  | inr other ↦
      let (wire, fresh, stale) = length-insert_entry k v rest wk wv ws in
      rw other (
        w_entry j u (insert_entry k v rest) wj wu wire,
        (λ e. omega (
          arith,
          fresh e,
          length-ser_entry j u rest wj wu,
          length-ser_entry j u (insert_entry k v rest) wj wu,
        )),
        λ w e. omega (
          arith,
          stale w e,
          length-ser_entry j u rest wj wu,
          length-ser_entry j u (insert_entry k v rest) wj wu,
        ),
      )
]

NewNames-insert :
    (acc es : FieldEntries) (k : ShortStr) (v : FieldValue)
    → NewNames acc es
    → find_entry k (insert_all acc es) ≡ none
    → NewNames acc (join es (entry k v no_entries))
unfolding insert_all join
NewNames-insert acc no_entries k v n e = (e, tt)
NewNames-insert acc (entry j u es) k v n e =
    (n.0, NewNames-insert (insert_entry j u acc) es k v n.1 e)

-- Inserting a value under a new name, the length staying below 2 ^ 32, gives a table of the wire
-- format again, whose length is that of its encoding, with the entry at the end.
pub table_insert-new :
    (t : FieldTable) (k : ShortStr) (v : FieldValue)
    → IsTable t
    → IsShortStr k
    → IsWire v
    → find_entry k t.entries ≡ none
    → t.len + (1 + k.len + tag_size + value_len v) < 2 ^ 32
    → (t' : FieldTable) × (table_insert t k v ≡ done (t', none))
      × (t'.entries ≡ join t.entries (entry k v no_entries))
      × IsTable t'
unfolding table_insert entry_size
table_insert-new t k v wt wk wv e h =
    let n : ℕ = 1 + k.len + tag_size + value_len v in
    let fits : ltb n (2 ^ 32) ≡ true = ground arith in
    let fits' : ltb (t.len + n) (2 ^ 32) ≡ true = ground arith in
    let shape = insert_entry-new k v t.entries e in
    let (wire, fresh, _) = length-insert_entry k v t.entries wk wv wt.wire in
    (
      record { len = t.len + n; entries = insert_entry k v t.entries },
      rw (fits, fits', e) refl,
      shape,
      record {
        fits = h;
        counted = omega (arith, fresh e, wt.counted);
        names = subst (NewNames no_entries) (sym shape) (
            NewNames-insert no_entries t.entries k v wt.names
              (rw (insert_all_new t.entries wt.names) e));
        wire = wire;
      },
    )

-- Inserting a value under a name that is there replaces the value and returns the old one, but
-- leaves a length that is above that of the encoding by the size of the replaced entry.
pub table_insert-again :
    (t : FieldTable) (k : ShortStr) (v old : FieldValue)
    → IsTable t
    → IsShortStr k
    → IsWire v
    → find_entry k t.entries ≡ some old
    → t.len + (1 + k.len + tag_size + value_len v) < 2 ^ 32
    → (t' : FieldTable) × (table_insert t k v ≡ done (t', some old))
      × (t'.len ≡ length (ser_entries t'.entries) + (1 + k.len + tag_size + value_len old))
unfolding table_insert entry_size
table_insert-again t k v old wt wk wv e h =
    let n : ℕ = 1 + k.len + tag_size + value_len v in
    let fits : ltb n (2 ^ 32) ≡ true = ground arith in
    let fits' : ltb (t.len + n) (2 ^ 32) ≡ true = ground arith in
    let (_, _, stale) = length-insert_entry k v t.entries wk wv wt.wire in
    (
      record { len = t.len + n; entries = insert_entry k v t.entries },
      rw (fits, fits', e) refl,
      omega (arith, stale old e, wt.counted),
    )

remove-join :
    (k : ShortStr) (v : FieldValue) (es : FieldEntries)
    → find_entry k es ≡ none
    → (find_entry k (join es (entry k v no_entries)) ≡ some v)
      × (remove_entry k (join es (entry k v no_entries)) ≡ es)
unfolding find_entry remove_entry join
remove-join k v no_entries e =
    let same : bytes_beq k.text k.text ≡ true = (bytes_beq_iff k.text k.text).1 refl in ground arith
remove-join k v (entry j u es) e = ground (arith, remove-join k v es)

-- Removing a name that was just inserted as a new one gives back the table and the value, the
-- length staying below 2 ^ 32.
pub table_remove-table_insert :
    (t : FieldTable) (k : ShortStr) (v : FieldValue)
    → find_entry k t.entries ≡ none
    → t.len + (1 + k.len + tag_size + value_len v) < 2 ^ 32
    → (table_insert t k v >>= λ r. table_remove r.0 k) ≡ done (t, some v)
unfolding table_insert table_remove entry_size
table_remove-table_insert t k v e h =
    let n : ℕ = 1 + k.len + tag_size + value_len v in
    let fits : ltb n (2 ^ 32) ≡ true = ground arith in
    let fits' : ltb (t.len + n) (2 ^ 32) ≡ true = ground arith in
    let covers : leb n (t.len + n) ≡ true = ground arith in
    let shape = insert_entry-new k v t.entries e in
    let (found, removed) = remove-join k v t.entries e in
    rw (fits, fits', shape, found, table_remove, fits, covers)
      (ap₂ (λ (m : ℕ) (es : FieldEntries). done (record { len = m; entries = es }, some v))
        (omega arith) (ap (remove_entry k) shape ∙ removed))
