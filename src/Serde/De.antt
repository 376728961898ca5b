-- ===== src/Serde/De.antt =====
-- amqp_serde/src/de.rs: the deserializer, and what the derived `Deserialize` of the field types
-- makes of its calls.
use amqprs.Prelude.{
  ℕ, zero, suc, ◌+◌, ◌-◌, Bool, ◌||◌, ◌&&◌, List, [], ◌∷◌, Option, none, some, length, take, drop,
  ltb, leb, ◌==◌, if◌then◌else◌,
}
use amqprs.Prelude.Bytes.{from_be_bytes}
use amqprs.Serde.Utf8.{from_utf8}
use amqprs.Serde.Types.{
  ShortStr, LongStr, DecimalValue, ByteArray, FieldValue, FieldValues, FieldEntries, FieldTable,
  boolean, short_short_int, short_short_uint, short_int, short_uint, long_int, long_uint,
  long_long_int, float, double, decimal, long_string, field_array, timestamp, field_table, void,
  bytes, no_values, value, no_entries, insert_entry,
}

-- The variants of amqp_serde/src/error.rs; the text of a message is left out.
pub data Error : Type 0 where
  message eof syntax incomplete expected_length : Error

pub record Deserializer : Type 0 where
  pub input : List ℕ
  pub last_parsed_len : Option ℕ
  pub cursor : ℕ

-- A call returns a value or an error, and leaves a deserializer in both cases. `panic` is a failed
-- overflow check or an explicit panic. `stuck` is no outcome of the source: fuel ran out.
pub data Res {ℓ} (A : Type ℓ) : Type ℓ where
  ok : A → Deserializer → Res A
  err : Error → Deserializer → Res A
  panic : Res A
  stuck : Res A

abbrev pub M {ℓ} : Type ℓ → Type ℓ
M A = Deserializer → Res A

abbrev pub bind {ℓ κ} : {A : Type ℓ} {B : Type κ} → Res A → (A → Deserializer → Res B) → Res B
bind (ok a d) f = f a d
bind (err e d) f = err e d
bind panic f = panic
bind stuck f = stuck

infixl 5 ◌>>=◌ ◌>>◌
abbrev pub ◌>>=◌ {ℓ κ} : {A : Type ℓ} {B : Type κ} → M A → (A → M B) → M B
◌>>=◌ m f d = bind (m d) f

abbrev pub ◌>>◌ {ℓ} : {B : Type ℓ} → M (Unit {0}) → M B → M B
m >> k = m >>= λ _. k

abbrev pub return {ℓ} : {A : Type ℓ} → A → M A
return a d = ok a d

abbrev pub fail {ℓ} : {A : Type ℓ} → Error → M A
fail e d = err e d

abbrev pub abort {ℓ} : {A : Type ℓ} → M A
abort d = panic

-- `impl_inner!` and `impl_parse_num!` at a width of `size` bytes. The cursor moves also on failure.
unfoldable pub parse_num : ℕ → M ℕ
parse_num size d =
    if ltb (length d.input) size
    then err eof (record d { last_parsed_len = none; cursor = d.cursor + size })
    else ok (from_be_bytes (take size d.input))
        (record { input = drop size d.input; last_parsed_len = none; cursor = d.cursor + size })

-- `peek_byte` and `next_byte`.
unfoldable pub next_byte : M ℕ
next_byte d = elim d.input [
  | [] ↦ err eof d
  | b ∷ rest ↦ ok b (record d { input = rest; cursor = d.cursor + 1 })
]

unfoldable pub parse_bool : M Bool
unfolding next_byte
parse_bool = do v ← next_byte; return (ltb 0 v)

abbrev set_parsed_len : ℕ → M (Unit {0})
set_parsed_len n d = ok tt (record d { last_parsed_len = some n })

unfoldable pub parse_u8 : M ℕ
unfolding parse_num
parse_u8 = do v ← parse_num 1; set_parsed_len v; return v

unfoldable pub parse_u32 : M ℕ
unfolding parse_num
parse_u32 = do v ← parse_num 4; set_parsed_len v; return v

abbrev pub checked_len : ℕ → M ℕ
checked_len len d =
    if leb len 4294967295
    then (if ltb (length d.input) len then err syntax d else ok len d)
    else err expected_length d

unfoldable pub get_parsed_length : M ℕ
get_parsed_length d = elim d.last_parsed_len [
  | none ↦ err expected_length d
  | some len ↦ checked_len len d
]

-- `next_bytes`; `parse_string` takes the same bytes, and then checks them.
unfoldable pub next_bytes : M (List ℕ)
unfolding get_parsed_length
next_bytes = do
  len ← get_parsed_length
  λ d. ok (take len d.input) (record d { input = drop len d.input; cursor = d.cursor + len })

unfoldable pub parse_string : M (List ℕ)
unfolding get_parsed_length
parse_string = do
  len ← get_parsed_length
  s ← λ d. ok (take len d.input) (record d { input = drop len d.input; cursor = d.cursor + len })
  if from_utf8 s then return s else fail message

unfoldable pub de_short_str : M ShortStr
unfolding parse_u8 parse_string
de_short_str = do n ← parse_u8; s ← parse_string; return (record { len = n; text = s })

unfoldable pub de_long_str : M LongStr
unfolding parse_u32 parse_string
de_long_str = do n ← parse_u32; s ← parse_string; return (record { len = n; text = s })

unfoldable pub de_decimal : M DecimalValue
unfolding parse_u8 parse_num
de_decimal = do s ← parse_u8; v ← parse_num 4; return (record { scale = s; value = v })

unfoldable pub de_byte_array : M ByteArray
unfolding parse_u32 next_bytes
de_byte_array = do n ← parse_u32; s ← next_bytes; return (record { len = n; bytes = s })

pub data Tag : Type 0 where
  t_ b_ b_upper s_ u_ i_upper i_ l_ f_ d_ d_upper s_upper a_upper t_upper f_upper v_upper x_ : Tag

abbrev pub is_ascii_alphabetic : ℕ → Bool
is_ascii_alphabetic v = (leb b'A' v && leb v b'Z') || (leb b'a' v && leb v b'z')

abbrev pub letters : List (ℕ × Tag)
letters =
    (b't', t_)
    ∷ (b'b', b_)
    ∷ (b'B', b_upper)
    ∷ (b's', s_)
    ∷ (b'u', u_)
    ∷ (b'I', i_upper)
    ∷ (b'i', i_)
    ∷ (b'l', l_)
    ∷ (b'f', f_)
    ∷ (b'd', d_)
    ∷ (b'D', d_upper)
    ∷ (b'S', s_upper)
    ∷ (b'A', a_upper)
    ∷ (b'T', t_upper)
    ∷ (b'F', f_upper)
    ∷ (b'V', v_upper)
    ∷ (b'x', x_)
    ∷ []

abbrev pub find_tag : ℕ → List (ℕ × Tag) → Option Tag
find_tag c [] = none
find_tag c ((l, t) ∷ ls) = if l == c then some t else find_tag c ls

abbrev pub known_variant : Option Tag → M Tag
known_variant none = fail message
known_variant (some t) = return t

-- A letter that names no variant is an error of serde; another byte panics.
unfoldable pub variant_seed : M Tag
unfolding next_byte
variant_seed = do
  v ← next_byte
  if is_ascii_alphabetic v then known_variant (find_tag v letters) else abort

-- `self.len -= end - start` behind an element, which is read also where the element failed.
abbrev pub charge {ℓ} : {A : Type ℓ} → ℕ → ℕ → Res A → Res (A × ℕ)
charge start len (ok a d) =
    if leb (d.cursor - start) len then ok (a, len - (d.cursor - start)) d else panic
charge start len (err e d) = if leb (d.cursor - start) len then err e d else panic
charge start len panic = panic
charge start len stuck = stuck

-- `next_element_seed`, `next_key_seed` and `next_value_seed`, where bytes are counted.
unfoldable pub counted {ℓ} : {A : Type ℓ} → ℕ → M A → M (A × ℕ)
counted len m d = charge d.cursor len (m d)

-- The content of a variant; `values` and `entries` read a sequence of so many bytes.
unfoldable pub de_payload : (ℕ → M FieldValues) → (ℕ → M FieldEntries) → Tag → M FieldValue
unfolding parse_bool parse_num parse_u8 parse_u32 de_decimal de_long_str de_byte_array
    get_parsed_length
de_payload values entries t_ = do v ← parse_bool; return (boolean v)
de_payload values entries b_ = do v ← parse_num 1; return (short_short_int v)
de_payload values entries b_upper = do v ← parse_u8; return (short_short_uint v)
de_payload values entries s_ = do v ← parse_num 2; return (short_int v)
de_payload values entries u_ = do v ← parse_num 2; return (short_uint v)
de_payload values entries i_upper = do v ← parse_num 4; return (long_int v)
de_payload values entries i_ = do v ← parse_u32; return (long_uint v)
de_payload values entries l_ = do v ← parse_num 8; return (long_long_int v)
de_payload values entries f_ = do v ← parse_num 4; return (float v)
de_payload values entries d_ = do v ← parse_num 8; return (double v)
de_payload values entries d_upper = do v ← de_decimal; return (decimal v)
de_payload values entries s_upper = do v ← de_long_str; return (long_string v)
de_payload values entries a_upper = do
  n ← parse_u32
  len ← get_parsed_length
  vs ← values len
  return (field_array n vs)
de_payload values entries t_upper = do v ← parse_num 8; return (timestamp v)
de_payload values entries f_upper = do
  n ← parse_u32
  len ← get_parsed_length
  es ← entries len
  return (field_table n es)
de_payload values entries v_upper = return void
de_payload values entries x_ = do v ← de_byte_array; return (bytes v)

-- Each element takes a byte at least, so a fuel that is two above the length of the input is enough.
unfoldable mutual
  unfolding variant_seed counted de_payload de_short_str

  pub de_value : ℕ → M FieldValue
  de_value zero d = stuck
  de_value (suc fuel) d =
      bind (variant_seed d) (de_payload (de_values fuel) (de_entries fuel no_entries))

  -- `Vec`'s visitor: elements until the bytes are used up.
  pub de_values : ℕ → ℕ → M FieldValues
  de_values zero len d = stuck
  de_values (suc fuel) len d =
      let rest =
        bind (counted len (de_value fuel) d)
          (λ r d'. bind (de_values fuel r.1 d') (λ vs. return (value r.0 vs))) in
      if len == 0 then ok no_values d else rest

  -- `HashMap`'s visitor: entries are inserted until the bytes are used up.
  pub de_entries : ℕ → FieldEntries → ℕ → M FieldEntries
  de_entries zero acc len d = stuck
  de_entries (suc fuel) acc len d =
      let rest = bind (counted len de_short_str d) (λ k d'.
        bind (counted k.1 (de_value fuel) d')
          (λ v. de_entries fuel (insert_entry k.0 v.0 acc) v.1)) in
      if len == 0 then ok acc d else rest

unfoldable pub de_field_table : M FieldTable
unfolding parse_u32 get_parsed_length
de_field_table = do
  n ← parse_u32
  len ← get_parsed_length
  es ← λ d. de_entries (2 + length d.input) no_entries len d
  return (record { len = n; entries = es })

pub data Read {ℓ} (A : Type ℓ) : Type ℓ where
  value_read : A → Read A
  error_read : Error → Read A
  panic_read : Read A
  stuck_read : Read A

abbrev finish {ℓ} : {A : Type ℓ} → Res A → Read A
finish (ok a d) = elim d.input [ [] ↦ value_read a | b ∷ bs ↦ error_read incomplete ]
finish (err e d) = error_read e
finish panic = panic_read
finish stuck = stuck_read

-- `from_bytes`: all of the input has to be used.
unfoldable pub from_bytes {ℓ} : {A : Type ℓ} → M A → List ℕ → Read A
from_bytes m s = finish (m (record { input = s; last_parsed_len = none; cursor = 0 }))
