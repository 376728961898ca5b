-- ===== src/Serde/Primitives.antt =====
-- The strings, numbers and sized payloads of amqp_serde/src/de.rs read what ser.rs writes.
use amqprs.Prelude.{
  ℕ, suc, ◌+◌, ◌^◌, ◌<◌, ◌≡◌, refl, ◌∙◌, ap, Bool, true, false, List, [], ◌∷◌, ◌++◌, Option, some,
  length, arith, length-append, append_assoc,
}
use amqprs.Prelude.Bytes.{to_be_bytes, length-to_be_bytes}
use amqprs.Serde.Types.{ShortStr, LongStr, DecimalValue, ByteArray, FieldValue, no_entries}
use amqprs.Serde.Ser.{
  serialize_bool, serialize_u8, serialize_u32, serialize_i32, serialize_str, serialize_bytes,
  ser_short_str, ser_long_str, ser_decimal, ser_byte_array,
}
use amqprs.Serde.De.{
  ok, M, ◌>>=◌, Tag, parse_num, next_byte, parse_bool, parse_u8, parse_u32, get_parsed_length,
  de_short_str, de_long_str, de_decimal, de_byte_array, variant_seed, de_payload, de_value,
  de_values, de_entries,
}
use amqprs.Serde.WellFormed.{IsShortStr, IsLongStr, IsDecimal, IsByteArray}
use amqprs.Serde.Parses.{
  at, Parses, Parses-bind, Parses-map, Parses-num, Parses-u8, parse_u8_lem, parse_u32_lem,
  get_parsed_length_lem, next_bytes_lem, parse_string_lem,
}

pub Parses-short_str : (s : ShortStr) → IsShortStr s → Parses de_short_str (ser_short_str s) s
unfolding de_short_str ser_short_str serialize_u8 serialize_str
Parses-short_str s w rest last cursor = (
  some s.len,
  rw
      (
        parse_u8_lem s.len (s.text ++ rest) last cursor w.fits,
        parse_string_lem s.text rest s.len (cursor + 1) (omega (arith, w.fits)) w.counted w.utf8,
      )
      (ap (λ (c : ℕ). ok s (at rest (some s.len) c)) (omega (arith, w.counted))),
)

pub Parses-long_str : (s : LongStr) → IsLongStr s → Parses de_long_str (ser_long_str s) s
unfolding de_long_str ser_long_str serialize_u32 serialize_str
Parses-long_str s w rest last cursor = (
  some s.len,
  rw
      (
        append_assoc (to_be_bytes 4 s.len) s.text rest,
        parse_u32_lem s.len (s.text ++ rest) last cursor w.fits,
        parse_string_lem s.text rest s.len (cursor + 4) w.fits w.counted w.utf8,
      )
      (ap (λ (c : ℕ). ok s (at rest (some s.len) c))
        (omega (
          arith,
          w.counted,
          length-append {0} {A = ℕ} (to_be_bytes 4 s.len) s.text,
          length-to_be_bytes 4 s.len,
        ))),
)

pub Parses-byte_array : (b : ByteArray) → IsByteArray b → Parses de_byte_array (ser_byte_array b) b
unfolding de_byte_array ser_byte_array serialize_u32 serialize_bytes
Parses-byte_array b w rest last cursor = (
  some b.len,
  rw
      (
        append_assoc (to_be_bytes 4 b.len) b.bytes rest,
        parse_u32_lem b.len (b.bytes ++ rest) last cursor w.fits,
        next_bytes_lem b.bytes rest b.len (cursor + 4) w.fits w.counted,
      )
      (ap (λ (c : ℕ). ok b (at rest (some b.len) c))
        (omega (
          arith,
          w.counted,
          length-append {0} {A = ℕ} (to_be_bytes 4 b.len) b.bytes,
          length-to_be_bytes 4 b.len,
        ))),
)

pub Parses-decimal : (d : DecimalValue) → IsDecimal d → Parses de_decimal (ser_decimal d) d
unfolding de_decimal ser_decimal serialize_u8 serialize_i32
Parses-decimal d w =
    Parses-bind parse_u8 _ (d.scale ∷ []) (to_be_bytes 4 d.value) d.scale d
      (Parses-u8 d.scale (omega (arith, w.scale_fits)))
      (Parses-map (parse_num 4) (λ (v : ℕ). record { scale = d.scale; value = v })
        (to_be_bytes 4 d.value) d.value (Parses-num 4 d.value (omega (arith, w.value_fits))))

pub Parses-bool : (b : Bool) → Parses parse_bool (serialize_bool b) b
unfolding parse_bool next_byte serialize_bool
Parses-bool true rest last cursor = (last, refl)
Parses-bool false rest last cursor = (last, refl)

-- A sequence behind its length in bytes.
pub Parses-sized {ℓ} :
    {B : Type ℓ} (k : ℕ → ℕ → M B) (n : ℕ) (cs : List ℕ) (b : B)
    → n < 2 ^ 32
    → length cs ≡ n
    → Parses (k n n) cs b
    → Parses (parse_u32 >>= λ n. get_parsed_length >>= λ len. k n len) (to_be_bytes 4 n ++ cs) b
Parses-sized k n cs b h e p rest last cursor =
    let (l, r) = p rest (some n) (cursor + 4) in
    (
      l,
      rw
          (
            append_assoc (to_be_bytes 4 n) cs rest,
            parse_u32_lem n (cs ++ rest) last cursor h,
            get_parsed_length_lem n (cs ++ rest) (cursor + 4) h
                (omega (arith, length-append {0} {A = ℕ} cs rest)),
          )
          (r
            ∙ ap (λ (c : ℕ). ok b (at rest l c))
                (omega
                  (arith, length-append {0} {A = ℕ} (to_be_bytes 4 n) cs, length-to_be_bytes 4 n))),
    )

-- A value is its letter, and then what is read for the variant.
pub tagged :
    (fuel c : ℕ) (tag : Tag) (bs : List ℕ) (v : FieldValue)
    → ((xs : List ℕ) (last : Option ℕ) (cursor : ℕ)
        → variant_seed (at (c ∷ xs) last cursor) ≡ ok tag (at xs last (cursor + 1)))
    → Parses (de_payload (de_values fuel) (de_entries fuel no_entries) tag) bs v
    → Parses (de_value (suc fuel)) (c ∷ bs) v
unfolding de_value
tagged fuel c tag bs v seed p rest last cursor =
    let (l, e) = p rest last (cursor + 1) in
    (l, rw (seed (bs ++ rest) last cursor) (e ∙ ap (λ (n : ℕ). ok v (at rest l n)) (omega arith)))
