-- ===== src/Serde/Wire.antt =====
-- An interface for the types that derive `Serialize` and `Deserialize`: what is written, the parser,
-- the values that fit, and the law that these are read back. A struct is its fields in order; serde
-- reads them as a sequence of so many elements, which counts no bytes.
use amqprs.Prelude.{ℕ, ◌^◌, ◌<◌, ◌≡◌, Bool, List, [], ◌++◌, subst}
use amqprs.Serde.Types.{ShortStr, LongStr, FieldTable}
use amqprs.Serde.Ser.{
  serialize_bool, serialize_u8, serialize_u16, serialize_u32, serialize_u64, ser_short_str,
  ser_long_str, ser_field_table,
}
use amqprs.Serde.De.{
  M, ◌>>=◌, return, parse_bool, parse_u8, parse_u32, parse_num, de_short_str, de_long_str,
  de_field_table, from_bytes, value_read,
}
use amqprs.Serde.WellFormed.{IsShortStr, IsLongStr, IsTable}
use amqprs.Serde.Parses.{
  Parses, Parses-return, Parses-bind, Parses-map, Parses-num, Parses-u8, Parses-u32,
}
use amqprs.Serde.RoundTrip.{Parses-field_table, from_bytes-Parses}
use amqprs.Serde.Primitives.{Parses-short_str, Parses-long_str, Parses-bool}

pub record Wire (A : Type 0) : Type 1 where
  pub ser : A → List ℕ
  pub de : M A
  pub Fits : A → Type 0
  pub parses : (a : A) → Fits a → Parses de (ser a) a

-- What is written for a value that fits is read back, alone and in front of anything.
pub from_bytes-ser :
    {A : Type 0} (w : Wire A) (a : A) → w.Fits a → from_bytes w.de (w.ser a) ≡ value_read a
from_bytes-ser w a h = from_bytes-Parses w.de (w.ser a) a (w.parses a h)

pub Parses-octect : (v : ℕ) → v < 2 ^ 8 → Parses parse_u8 (serialize_u8 v) v
unfolding serialize_u8
Parses-octect v h = Parses-u8 v h

pub Parses-short_uint : (v : ℕ) → v < 2 ^ 16 → Parses (parse_num 2) (serialize_u16 v) v
unfolding serialize_u16
Parses-short_uint v h = Parses-num 2 v h

pub Parses-long_uint : (v : ℕ) → v < 2 ^ 32 → Parses parse_u32 (serialize_u32 v) v
unfolding serialize_u32
Parses-long_uint v h = Parses-u32 v h

pub Parses-long_long_uint : (v : ℕ) → v < 2 ^ 64 → Parses (parse_num 8) (serialize_u64 v) v
unfolding serialize_u64
Parses-long_long_uint v h = Parses-num 8 v h

abbrev pub octect : Wire ℕ
octect = record { ser = serialize_u8; de = parse_u8; Fits = λ v. v < 2 ^ 8; parses = Parses-octect }

abbrev pub short_uint : Wire ℕ
short_uint = record {
  ser = serialize_u16;
  de = parse_num 2;
  Fits = λ v. v < 2 ^ 16;
  parses = Parses-short_uint;
}

abbrev pub long_uint : Wire ℕ
long_uint = record {
  ser = serialize_u32;
  de = parse_u32;
  Fits = λ v. v < 2 ^ 32;
  parses = Parses-long_uint;
}

abbrev pub long_long_uint : Wire ℕ
long_long_uint = record {
  ser = serialize_u64;
  de = parse_num 8;
  Fits = λ v. v < 2 ^ 64;
  parses = Parses-long_long_uint;
}

abbrev pub boolean : Wire Bool
boolean = record {
  ser = serialize_bool;
  de = parse_bool;
  Fits = λ v. Unit;
  parses = λ v h. Parses-bool v;
}

abbrev pub short_str : Wire ShortStr
short_str = record {
  ser = ser_short_str;
  de = de_short_str;
  Fits = IsShortStr;
  parses = Parses-short_str;
}

abbrev pub long_str : Wire LongStr
long_str = record {
  ser = ser_long_str;
  de = de_long_str;
  Fits = IsLongStr;
  parses = Parses-long_str;
}

abbrev pub field_table : Wire FieldTable
field_table = record {
  ser = ser_field_table;
  de = de_field_table;
  Fits = IsTable;
  parses = Parses-field_table;
}

-- A field and the fields behind it.
infixr 20 ◌then◌
abbrev pub ◌then◌ : {A B : Type 0} → Wire A → Wire B → Wire (A × B)
v then w = record {
  ser = λ p. v.ser p.0 ++ w.ser p.1;
  de = v.de >>= λ a. w.de >>= λ b. return (a, b);
  Fits = λ p. v.Fits p.0 × w.Fits p.1;
  parses = λ p h.
      Parses-bind v.de (λ a. w.de >>= λ b. return (a, b)) (v.ser p.0) (w.ser p.1) p.0 p
        (v.parses p.0 h.0) (Parses-map w.de (λ b. (p.0, b)) (w.ser p.1) p.1 (w.parses p.1 h.1));
}

-- A struct, taken apart into its fields and put together again.
abbrev pub struct :
    {A B : Type 0} → Wire B → (of : A → B) (to : B → A) → ((a : A) → to (of a) ≡ a) → Wire A
struct w of to same = record {
  ser = λ a. w.ser (of a);
  de = w.de >>= λ b. return (to b);
  Fits = λ a. w.Fits (of a);
  parses = λ a h.
      subst (Parses (w.de >>= λ b. return (to b)) (w.ser (of a))) (same a)
        (Parses-map w.de to (w.ser (of a)) (of a) (w.parses (of a) h));
}

-- A struct without fields.
abbrev pub unit_struct : {A : Type 0} (only : A) → ((a : A) → only ≡ a) → Wire A
unit_struct only same = record {
  ser = λ a. [];
  de = return only;
  Fits = λ a. Unit;
  parses = λ a h. subst (Parses (return only) []) (same a) (Parses-return only);
}
