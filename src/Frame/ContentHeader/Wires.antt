-- ===== src/Frame/ContentHeader/Wires.antt =====
-- How amqprs/src/frame/content_header.rs writes and reads the properties: the derived `Serialize`
-- writes those that are set, and the visitor reads the flags and then what they announce, out of a
-- sequence of as many elements as there are names in `FIELDS`.
use amqprs.Prelude.{
  ℕ, ◌+◌, ◌-◌, ◌≤◌, ◌<◌, ◌≡◌, refl, subst, true, false, List, [], ◌++◌, Option, none, some, is_some,
  ◌==◌, if◌then◌else◌, length, arith, append_assoc, Bool-cases, inl, inr, ltb, ltb→lt,
}
use amqprs.Prelude.Bits.{has}
use amqprs.Serde.Wire
use amqprs.Serde.Types.{ShortStr, FieldTable}
use amqprs.Serde.Wire.{Wire, ◌then◌, struct, from_bytes-ser}
use amqprs.Serde.De.{M, Deserializer, err, ◌>>=◌, return, fail, message}
use amqprs.Serde.Parses.{Parses, at, Parses-return, Parses-bind, Parses-map}
use amqprs.Frame.ContentHeader.{ContentHeaderCommon, BasicProperties, bit}

-- One property of the visitor; `len` elements of the sequence are left.
unfoldable pub read_property : {A : Type 0} → ℕ → ℕ → M A → ℕ → M (Option A × ℕ)
read_property flags flag m len =
    if has flags flag
    then (if len == 0 then fail message else (m >>= λ v. return (some v, len - 1)))
    else return (none, len)

unfoldable pub ser_option : {A : Type 0} → Wire A → Option A → List ℕ
ser_option w none = []
ser_option w (some v) = Wire.ser w v

abbrev pub FitsOption : {A : Type 0} → Wire A → Option A → Type 0
FitsOption w none = Unit
FitsOption w (some v) = Wire.Fits w v

abbrev pub count : {A : Type 0} → Option A → ℕ
count none = 0
count (some v) = 1

-- A parser that ends with serde's error on given bytes, whatever follows them.
abbrev pub Fails : {A : Type 0} → M A → List ℕ → Type 0
Fails m bs =
    (rest : List ℕ) (last : Option ℕ) (cursor : ℕ)
    → (d : Deserializer) × (m (at (bs ++ rest) last cursor) ≡ err message d)

Fails-now :
    {A B : Type 0} (m : M A) (f : A → M B) (bs cs : List ℕ)
    → Fails m bs
    → Fails (m >>= f) (bs ++ cs)
Fails-now m f bs cs p rest last cursor =
    let (d, e) = p (cs ++ rest) last cursor in (d, rw (append_assoc bs cs rest, e) refl)

pub Fails-later :
    {A B : Type 0} (m : M A) (f : A → M B) (bs cs : List ℕ) (a : A)
    → Parses m bs a
    → Fails (f a) cs
    → Fails (m >>= f) (bs ++ cs)
Fails-later m f bs cs a p q rest last cursor =
    let (l, e) = p (cs ++ rest) last cursor in
    let (d, e') = q rest l (cursor + length bs) in (d, rw (append_assoc bs cs rest, e) e')

pub Fails-return :
    {A B : Type 0} (m : M A) (f : A → B) (bs : List ℕ)
    → Fails m bs
    → Fails (m >>= λ x. return (f x)) bs
Fails-return m f bs p rest last cursor = let (d, e) = p rest last cursor in (d, rw e refl)

-- Some properties in a row, with the laws that they are read back if the flags announce those that
-- are set and the sequence is long enough, and end in an error if it is too short.
pub record Properties (A : Type 0) : Type 1 where
  pub ser : A → List ℕ
  pub de : ℕ × ℕ → ℕ → M (A × ℕ)
  pub Fits : ℕ × ℕ → A → Type 0
  pub number : A → ℕ
  pub parses :
      (flags : ℕ × ℕ) (len : ℕ) (a : A)
      → Fits flags a
      → number a ≤ len
      → Parses (de flags len) (ser a) (a, len - number a)
  pub fails :
      (flags : ℕ × ℕ) (len : ℕ) (a : A)
      → Fits flags a
      → len < number a
      → Fails (de flags len) (ser a)

pub Parses-property :
    {A : Type 0} (w : Wire A) (flags flag len : ℕ) (o : Option A)
    → has flags flag ≡ is_some o
    → FitsOption w o
    → count o ≤ len
    → Parses (read_property flags flag (Wire.de w) len) (ser_option w o) (o, len - count o)
unfolding read_property ser_option
Parses-property {A} w flags flag len none e f h =
    let none_read : Option A × ℕ = (none, len) in
    let same : len - 0 ≡ len = omega arith in rw (e, same) (Parses-return none_read)
Parses-property w flags flag len (some v) e f h =
    let more : (len == 0) ≡ false = ground arith in
    rw (e, more)
      (Parses-map (Wire.de w) (λ v. (some v, len - 1)) (Wire.ser w v) v (Wire.parses w v f))

pub Fails-property :
    {A : Type 0} (w : Wire A) (flags flag len : ℕ) (o : Option A)
    → has flags flag ≡ is_some o
    → len < count o
    → Fails (read_property flags flag (Wire.de w) len) (ser_option w o)
unfolding read_property
Fails-property w flags flag len none e h rest last cursor = absurd (omega arith)
Fails-property w flags flag len (some v) e h rest last cursor =
    let over : (len == 0) ≡ true = ground arith in
    (at (ser_option w (some v) ++ rest) last cursor, rw (e, over) refl)

-- A property with its byte and its bit.
abbrev pub property : {A : Type 0} → (ℕ × ℕ → ℕ) → ℕ → Wire A → Properties (Option A)
property byte flag w = record {
  ser = ser_option w;
  de = λ flags. read_property (byte flags) flag (Wire.de w);
  Fits = λ flags o. (has (byte flags) flag ≡ is_some o) × FitsOption w o;
  number = count;
  parses = λ flags len o h c. Parses-property w (byte flags) flag len o h.0 h.1 c;
  fails = λ flags len o h c. Fails-property w (byte flags) flag len o h.0 c;
}

abbrev pub also_de : {A B : Type 0} → Properties A → Properties B → ℕ × ℕ → ℕ → M ((A × B) × ℕ)
also_de v w flags len = v.de flags len >>= λ a. w.de flags a.1 >>= λ b. return ((a.0, b.0), b.1)

pub also-Fails :
    {A B : Type 0} (v : Properties A) (w : Properties B) (flags : ℕ × ℕ) (len : ℕ) (p : A × B)
    → v.Fits flags p.0 × w.Fits flags p.1
    → len < v.number p.0 + w.number p.1
    → Fails (also_de v w flags len) (v.ser p.0 ++ w.ser p.1)
also-Fails v w flags len p h c = elim (Bool-cases (ltb len (v.number p.0))) [
  | inl short ↦
      Fails-now (v.de flags len) (λ a. w.de flags a.1 >>= λ b. return ((a.0, b.0), b.1)) (v.ser p.0)
        (w.ser p.1) (v.fails flags len p.0 h.0 (ltb→lt len (v.number p.0) short))
  | inr enough ↦
      let rest : ℕ = len - v.number p.0 in
      Fails-later (v.de flags len) (λ a. w.de flags a.1 >>= λ b. return ((a.0, b.0), b.1))
        (v.ser p.0) (w.ser p.1) (p.0, rest) (v.parses flags len p.0 h.0 (ground arith))
        (Fails-return (w.de flags rest) (λ b. ((p.0, b.0), b.1)) (w.ser p.1)
          (w.fails flags rest p.1 h.1 (ground arith)))
]

infixr 20 ◌also◌
abbrev pub ◌also◌ : {A B : Type 0} → Properties A → Properties B → Properties (A × B)
◌also◌ {A} {B} v w = record {
  ser = λ p. v.ser p.0 ++ w.ser p.1;
  de = also_de v w;
  Fits = λ flags p. v.Fits flags p.0 × w.Fits flags p.1;
  number = λ p. v.number p.0 + w.number p.1;
  parses = λ flags len p h c.
      subst
        (λ (n : ℕ).
          Parses {A = (A × B) × ℕ} (also_de v w flags len) (v.ser p.0 ++ w.ser p.1) (p, n))
        (omega arith)
        (Parses-bind (v.de flags len) (λ a. w.de flags a.1 >>= λ b. return ((a.0, b.0), b.1))
          (v.ser p.0) (w.ser p.1) (p.0, len - v.number p.0) (p, len - v.number p.0 - w.number p.1)
          (v.parses flags len p.0 h.0 (omega arith))
          (Parses-map (w.de flags (len - v.number p.0)) (λ b. ((p.0, b.0), b.1)) (w.ser p.1)
            (p.1, len - v.number p.0 - w.number p.1)
            (w.parses flags (len - v.number p.0) p.1 h.1 (omega arith))));
  fails = also-Fails v w;
}

abbrev first : ℕ × ℕ → ℕ
first flags = flags.0

abbrev second : ℕ × ℕ → ℕ
second flags = flags.1

abbrev pub Row : Type 0
Row =
    Option ShortStr
    × (Option ShortStr
        × (Option FieldTable
            × (Option ℕ
                × (Option ℕ
                    × (Option ShortStr
                        × (Option ShortStr
                            × (Option ShortStr
                                × (Option ShortStr
                                    × (Option ℕ
                                        × (Option ShortStr
                                            × (Option ShortStr
                                                × (Option ShortStr × (Option ShortStr)))))))))))))

-- The properties in the order of the visitor.
unfoldable pub properties : Properties Row
properties =
    property first (bit 7) Wire.short_str
    also property first (bit 6) Wire.short_str
    also property first (bit 5) Wire.field_table
    also property first (bit 4) Wire.octect
    also property first (bit 3) Wire.octect
    also property first (bit 2) Wire.short_str
    also property first (bit 1) Wire.short_str
    also property first (bit 0) Wire.short_str
    also property second (bit 7) Wire.short_str
    also property second (bit 6) Wire.long_long_uint
    also property second (bit 5) Wire.short_str
    also property second (bit 4) Wire.short_str
    also property second (bit 3) Wire.short_str
    also property second (bit 2) Wire.short_str

abbrev pub row : BasicProperties → Row
row p = (
  p.content_type,
  (
    p.content_encoding,
    (
      p.headers,
      (
        p.delivery_mode,
        (
          p.priority,
          (
            p.correlation_id,
            (
              p.reply_to,
              (
                p.expiration,
                (
                  p.message_id,
                  (p.timestamp, (p.message_type, (p.user_id, (p.app_id, (p.cluster_id))))),
                ),
              ),
            ),
          ),
        ),
      ),
    ),
  ),
)

abbrev pub of_row : ℕ × ℕ → Row → BasicProperties
of_row flags r = record {
  property_flags = flags;
  content_type = r.0;
  content_encoding = r.1.0;
  headers = r.1.1.0;
  delivery_mode = r.1.1.1.0;
  priority = r.1.1.1.1.0;
  correlation_id = r.1.1.1.1.1.0;
  reply_to = r.1.1.1.1.1.1.0;
  expiration = r.1.1.1.1.1.1.1.0;
  message_id = r.1.1.1.1.1.1.1.1.0;
  timestamp = r.1.1.1.1.1.1.1.1.1.0;
  message_type = r.1.1.1.1.1.1.1.1.1.1.0;
  user_id = r.1.1.1.1.1.1.1.1.1.1.1.0;
  app_id = r.1.1.1.1.1.1.1.1.1.1.1.1.0;
  cluster_id = r.1.1.1.1.1.1.1.1.1.1.1.1.1;
}

-- The number of names in `FIELDS`.
abbrev pub fields_len : ℕ
fields_len = 14

abbrev pub flags_wire : Wire (ℕ × ℕ)
flags_wire = Wire.octect then Wire.octect

unfoldable pub ser_properties : BasicProperties → List ℕ
ser_properties p = Wire.ser flags_wire p.property_flags ++ Properties.ser properties (row p)

-- The flags are the first element of the sequence.
unfoldable pub visit_seq : M BasicProperties
visit_seq = Wire.de flags_wire >>= λ flags.
    Properties.de properties flags (fields_len - 1) >>= λ r. return (of_row flags r.0)

unfoldable pub common_wire : Wire ContentHeaderCommon
common_wire =
    struct (Wire.short_uint then Wire.short_uint then Wire.long_long_uint)
      (λ a. (a.class, (a.weight, a.body_size)))
      (λ b. record { class = b.0; weight = b.1.0; body_size = b.1.1 }) (λ a. refl)
