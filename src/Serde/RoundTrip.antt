-- ===== src/Serde/RoundTrip.antt =====
-- What ser.rs writes, de.rs reads back.
use amqprs.Prelude.{
  ℕ, zero, suc, ◌+◌, ◌-◌, ◌≤◌, ◌<◌, ◌≡◌, refl, sym, ap, false, List, [], ◌∷◌, ◌++◌, none, length,
  arith, length-append, append-nil, ◌==◌, subst,
}
use amqprs.Prelude.Bytes.{to_be_bytes, length-to_be_bytes}
use amqprs.Serde.Types.{
  ShortStr, FieldValue, FieldValues, FieldEntries, FieldTable, boolean, short_short_int,
  short_short_uint, short_int, short_uint, long_int, long_uint, long_long_int, float, double,
  decimal, long_string, field_array, timestamp, field_table, void, bytes, no_values, value,
  no_entries, insert_entry,
}
use amqprs.Serde.Ser.{
  serialize_bool, serialize_u8, serialize_i8, serialize_u16, serialize_i16, serialize_u32,
  serialize_i32, serialize_u64, serialize_i64, serialize_f32, serialize_f64, ser_short_str,
  ser_long_str, ser_decimal, ser_byte_array, ser_value, ser_values, ser_entries, ser_field_table,
}
use amqprs.Serde.De.{
  ok, M, ◌>>=◌, return, t_, b_, b_upper, s_, u_, i_upper, i_, l_, f_, d_, d_upper, s_upper, a_upper,
  t_upper, f_upper, v_upper, x_, parse_num, next_byte, parse_bool, parse_u8, parse_u32,
  de_short_str, de_long_str, de_decimal, de_byte_array, variant_seed, counted, de_payload, de_value,
  de_values, de_entries, de_field_table, from_bytes, value_read,
}
use amqprs.Serde.WellFormed.{
  IsWire, AreWire, EntriesWire, IsTable, w_boolean, w_short_short_int, w_short_short_uint,
  w_short_int, w_short_uint, w_long_int, w_long_uint, w_long_long_int, w_float, w_double, w_decimal,
  w_long_string, w_field_array, w_timestamp, w_field_table, w_void, w_bytes, w_no_values, w_value,
  w_no_entries, w_entry,
}
use amqprs.Serde.Parses.{
  at, Parses, Parses-return, Parses-bind, Parses-map, Parses-num, Parses-byte, Parses-u8,
  Parses-u32, Parses-counted,
}
use amqprs.Serde.Primitives.{
  Parses-short_str, Parses-long_str, Parses-byte_array, Parses-decimal, Parses-bool, Parses-sized,
  tagged,
}
use amqprs.Serde.Entries.{insert_all, insert_all_new}

pub ser_value-pos : (v : FieldValue) → 1 ≤ length (ser_value v)
unfolding ser_value
ser_value-pos void = omega arith
ser_value-pos v = omega arith

values_step :
    (fuel len : ℕ) (v : FieldValue) (vs : FieldValues) (bs cs : List ℕ)
    → len ≡ length (bs ++ cs)
    → 1 ≤ length bs
    → Parses (de_value fuel) bs v
    → Parses (de_values fuel (length cs)) cs vs
    → Parses (de_values (suc fuel) len) (bs ++ cs) (value v vs)
unfolding de_values
values_step fuel len v vs bs cs e pos p q rest last cursor =
    let both = length-append {0} {A = ℕ} bs cs in
    let more : (len == 0) ≡ false = ground (arith, both) in
    let left : len - length bs ≡ length cs = omega (arith, both) in
    let q' : Parses (de_values fuel (len - length bs)) cs vs =
      subst (λ n. Parses (de_values fuel n) cs vs) (sym left) q in
    let (l, r) =
      Parses-bind (counted len (de_value fuel))
        (λ r. de_values fuel r.1 >>= λ vs. return (value r.0 vs)) bs cs (v, len - length bs)
        (value v vs) (Parses-counted len (de_value fuel) bs v (omega (arith, both)) p)
        (Parses-map (de_values fuel (len - length bs)) (value v) cs vs q') rest last cursor in
    (l, rw more r)

entries_step :
    (fuel len : ℕ) (acc es : FieldEntries) (k : ShortStr) (v : FieldValue) (ks bs cs : List ℕ)
    → len ≡ length (ks ++ (bs ++ cs))
    → 1 ≤ length bs
    → Parses de_short_str ks k
    → Parses (de_value fuel) bs v
    → Parses (de_entries fuel (insert_entry k v acc) (length cs)) cs es
    → Parses (de_entries (suc fuel) acc len) (ks ++ (bs ++ cs)) es
unfolding de_entries
entries_step fuel len acc es k v ks bs cs e pos pk p q rest last cursor =
    let all = length-append {0} {A = ℕ} ks (bs ++ cs) in
    let both = length-append {0} {A = ℕ} bs cs in
    let more : (len == 0) ≡ false = ground (arith, all, both) in
    let left : len - length ks - length bs ≡ length cs = omega (arith, all, both) in
    let q' : Parses (de_entries fuel (insert_entry k v acc) (len - length ks - length bs)) cs es =
      subst (λ n. Parses (de_entries fuel (insert_entry k v acc) n) cs es) (sym left) q in
    let (l, r) =
      Parses-bind (counted len de_short_str)
        (λ k. counted k.1 (de_value fuel) >>= λ v. de_entries fuel (insert_entry k.0 v.0 acc) v.1)
        ks (bs ++ cs) (k, len - length ks) es
        (Parses-counted len de_short_str ks k (omega (arith, all)) pk)
        (Parses-bind (counted (len - length ks) (de_value fuel))
          (λ v. de_entries fuel (insert_entry k v.0 acc) v.1) bs cs (v, len - length ks - length bs)
          es (Parses-counted (len - length ks) (de_value fuel) bs v (omega (arith, all, both)) p)
          q')
        rest last cursor in
    (l, rw more r)

mutual
  unfolding ser_value ser_values ser_entries insert_all de_values de_entries de_payload variant_seed
      next_byte serialize_u8 serialize_i8 serialize_u16 serialize_i16 serialize_u32 serialize_i32
      serialize_u64 serialize_i64 serialize_f32 serialize_f64

  Parses-value :
      (v : FieldValue)
      → IsWire v
      → (fuel : ℕ) → length (ser_value v) < fuel
      → Parses (de_value fuel) (ser_value v) v
  Parses-value v w zero h = absurd (omega arith)
  Parses-value v (w_boolean b) (suc fuel) h =
      tagged fuel b't' t_ (serialize_bool b) (boolean b) (λ xs last cursor. refl)
        (Parses-map parse_bool boolean (serialize_bool b) b (Parses-bool b))
  Parses-value v (w_short_short_int n f) (suc fuel) h =
      tagged fuel b'b' b_ (n ∷ []) (short_short_int n) (λ xs last cursor. refl)
        (Parses-map (parse_num 1) short_short_int (n ∷ []) n (Parses-byte n f))
  Parses-value v (w_short_short_uint n f) (suc fuel) h =
      tagged fuel b'B' b_upper (n ∷ []) (short_short_uint n) (λ xs last cursor. refl)
        (Parses-map parse_u8 short_short_uint (n ∷ []) n (Parses-u8 n f))
  Parses-value v (w_short_int n f) (suc fuel) h =
      tagged fuel b's' s_ (to_be_bytes 2 n) (short_int n) (λ xs last cursor. refl)
        (Parses-map (parse_num 2) short_int (to_be_bytes 2 n) n (Parses-num 2 n f))
  Parses-value v (w_short_uint n f) (suc fuel) h =
      tagged fuel b'u' u_ (to_be_bytes 2 n) (short_uint n) (λ xs last cursor. refl)
        (Parses-map (parse_num 2) short_uint (to_be_bytes 2 n) n (Parses-num 2 n f))
  Parses-value v (w_long_int n f) (suc fuel) h =
      tagged fuel b'I' i_upper (to_be_bytes 4 n) (long_int n) (λ xs last cursor. refl)
        (Parses-map (parse_num 4) long_int (to_be_bytes 4 n) n (Parses-num 4 n f))
  Parses-value v (w_long_uint n f) (suc fuel) h =
      tagged fuel b'i' i_ (to_be_bytes 4 n) (long_uint n) (λ xs last cursor. refl)
        (Parses-map parse_u32 long_uint (to_be_bytes 4 n) n (Parses-u32 n f))
  Parses-value v (w_long_long_int n f) (suc fuel) h =
      tagged fuel b'l' l_ (to_be_bytes 8 n) (long_long_int n) (λ xs last cursor. refl)
        (Parses-map (parse_num 8) long_long_int (to_be_bytes 8 n) n (Parses-num 8 n f))
  Parses-value v (w_float n f) (suc fuel) h =
      tagged fuel b'f' f_ (to_be_bytes 4 n) (float n) (λ xs last cursor. refl)
        (Parses-map (parse_num 4) float (to_be_bytes 4 n) n (Parses-num 4 n f))
  Parses-value v (w_double n f) (suc fuel) h =
      tagged fuel b'd' d_ (to_be_bytes 8 n) (double n) (λ xs last cursor. refl)
        (Parses-map (parse_num 8) double (to_be_bytes 8 n) n (Parses-num 8 n f))
  Parses-value v (w_decimal d f) (suc fuel) h =
      tagged fuel b'D' d_upper (ser_decimal d) (decimal d) (λ xs last cursor. refl)
        (Parses-map de_decimal decimal (ser_decimal d) d (Parses-decimal d f))
  Parses-value v (w_long_string s f) (suc fuel) h =
      tagged fuel b'S' s_upper (ser_long_str s) (long_string s) (λ xs last cursor. refl)
        (Parses-map de_long_str long_string (ser_long_str s) s (Parses-long_str s f))
  Parses-value v (w_field_array n vs f e ws) (suc fuel) h =
      tagged fuel b'A' a_upper (to_be_bytes 4 n ++ ser_values vs) (field_array n vs)
        (λ xs last cursor. refl)
        (Parses-sized (λ n len. de_values fuel len >>= λ vs. return (field_array n vs)) n
          (ser_values vs) (field_array n vs) f e
          (Parses-map (de_values fuel n) (field_array n) (ser_values vs) vs (
            Parses-values vs ws fuel n (sym e) (
              omega (
                arith,
                length-append {0} {A = ℕ} (to_be_bytes 4 n) (ser_values vs),
                length-to_be_bytes 4 n,
              )))))
  Parses-value v (w_timestamp n f) (suc fuel) h =
      tagged fuel b'T' t_upper (to_be_bytes 8 n) (timestamp n) (λ xs last cursor. refl)
        (Parses-map (parse_num 8) timestamp (to_be_bytes 8 n) n (Parses-num 8 n f))
  Parses-value v (w_field_table n es f e names ws) (suc fuel) h =
      tagged fuel b'F' f_upper (to_be_bytes 4 n ++ ser_entries es) (field_table n es)
        (λ xs last cursor. refl)
        (Parses-sized (λ n len. de_entries fuel no_entries len >>= λ es. return (field_table n es))
          n (ser_entries es) (field_table n es) f e
          (Parses-map (de_entries fuel no_entries n) (field_table n) (ser_entries es) es (
            subst (Parses (de_entries fuel no_entries n) (ser_entries es)) (insert_all_new es names)
              (Parses-entries es ws fuel no_entries n (sym e) (
                omega (
                  arith,
                  length-append {0} {A = ℕ} (to_be_bytes 4 n) (ser_entries es),
                  length-to_be_bytes 4 n,
                ))))))
  Parses-value v w_void (suc fuel) h =
      tagged fuel b'V' v_upper [] void (λ xs last cursor. refl) (Parses-return void)
  Parses-value v (w_bytes b f) (suc fuel) h =
      tagged fuel b'x' x_ (ser_byte_array b) (bytes b) (λ xs last cursor. refl)
        (Parses-map de_byte_array bytes (ser_byte_array b) b (Parses-byte_array b f))

  Parses-values :
      (vs : FieldValues)
      → AreWire vs
      → (fuel len : ℕ) → len ≡ length (ser_values vs)
      → 1 + length (ser_values vs) < fuel
      → Parses (de_values fuel len) (ser_values vs) vs
  Parses-values vs w zero len e h = absurd (omega arith)
  Parses-values vs w_no_values (suc fuel) len e h =
      λ rest last cursor. (last, rw e (ap (λ (c : ℕ). ok no_values (at rest last c)) (omega arith)))
  Parses-values vs (w_value v rest wv ws) (suc fuel) len e h =
      let both = length-append {0} {A = ℕ} (ser_value v) (ser_values rest) in
      let pos = ser_value-pos v in
      values_step fuel len v rest (ser_value v) (ser_values rest) e pos
        (Parses-value v wv fuel (omega (arith, both)))
        (Parses-values rest ws fuel (length (ser_values rest)) refl (omega (arith, both)))

  Parses-entries :
      (es : FieldEntries)
      → EntriesWire es
      → (fuel : ℕ) (acc : FieldEntries) (len : ℕ) → len ≡ length (ser_entries es)
      → 1 + length (ser_entries es) < fuel
      → Parses (de_entries fuel acc len) (ser_entries es) (insert_all acc es)
  Parses-entries es w zero acc len e h = absurd (omega arith)
  Parses-entries es w_no_entries (suc fuel) acc len e h =
      λ rest last cursor. (last, rw e (ap (λ (c : ℕ). ok acc (at rest last c)) (omega arith)))
  Parses-entries es (w_entry k v rest wk wv ws) (suc fuel) acc len e h =
      let all = length-append {0} {A = ℕ} (ser_short_str k) (ser_value v ++ ser_entries rest) in
      let both = length-append {0} {A = ℕ} (ser_value v) (ser_entries rest) in
      let pos = ser_value-pos v in
      entries_step fuel len acc (insert_all (insert_entry k v acc) rest) k v (ser_short_str k)
        (ser_value v) (ser_entries rest) e pos (Parses-short_str k wk)
        (Parses-value v wv fuel (omega (arith, all, both)))
        (Parses-entries rest ws fuel (insert_entry k v acc) (length (ser_entries rest)) refl
          (omega (arith, all, both)))

pub Parses-field_table : (t : FieldTable) → IsTable t → Parses de_field_table (ser_field_table t) t
unfolding de_field_table ser_field_table serialize_u32
Parses-field_table t w =
    Parses-sized
      (λ n len. (λ d. de_entries (2 + length d.input) no_entries len d) >>= λ es.
        return (record { len = n; entries = es }))
      t.len (ser_entries t.entries) t w.fits w.counted
      (Parses-map (λ d. de_entries (2 + length d.input) no_entries t.len d)
        (λ (es : FieldEntries). record { len = t.len; entries = es }) (ser_entries t.entries)
        t.entries
        (λ rest last cursor.
          subst
            (Parses (de_entries (2 + length (ser_entries t.entries ++ rest)) no_entries t.len)
              (ser_entries t.entries))
            (insert_all_new t.entries w.names)
            (Parses-entries t.entries w.wire (2 + length (ser_entries t.entries ++ rest)) no_entries
              t.len (sym w.counted)
              (omega (arith, length-append {0} {A = ℕ} (ser_entries t.entries) rest)))
            rest last cursor))

-- `from_bytes` on exactly the bytes that a parser reads back.
pub from_bytes-Parses {ℓ} :
    {A : Type ℓ} (m : M A) (bs : List ℕ) (a : A) → Parses m bs a → from_bytes m bs ≡ value_read a
unfolding from_bytes
from_bytes-Parses m bs a p = let (l, e) = p [] none 0 in rw (sym (append-nil bs)) (rw e refl)

-- A field value of any variant and nesting whose numbers, lengths, texts and names are those of
-- the wire format is read back from its bytes, for every fuel above their number.
pub from_bytes-ser_value :
    (v : FieldValue) (fuel : ℕ)
    → IsWire v
    → length (ser_value v) < fuel
    → from_bytes (de_value fuel) (ser_value v) ≡ value_read v
from_bytes-ser_value v fuel w h =
    from_bytes-Parses (de_value fuel) (ser_value v) v (Parses-value v w fuel h)

-- A field table of the wire format is read back from its bytes.
pub from_bytes-ser_field_table :
    (t : FieldTable) → IsTable t → from_bytes de_field_table (ser_field_table t) ≡ value_read t
from_bytes-ser_field_table t w =
    from_bytes-Parses de_field_table (ser_field_table t) t (Parses-field_table t w)
