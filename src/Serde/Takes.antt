-- ===== src/Serde/Takes.antt =====
-- What each parser of amqp_serde/src/de.rs takes of its input.
use amqprs.Prelude.{
  ℕ, ◌+◌, ◌≤◌, ◌≡◌, refl, ◌⊎◌, inl, inr, List, [], ◌∷◌, Option, none, some, length, take, ltb,
  arith, length-drop, Bool-cases, Option-cases,
}
use amqprs.Serde.Utf8.{from_utf8}
use amqprs.Serde.De.{
  Deserializer, Res, ok, err, panic, stuck, eof, checked_len, charge, known_variant, letters,
  find_tag, is_ascii_alphabetic, M, bind, return, Tag, parse_num, next_byte, parse_bool, parse_u8,
  parse_u32, get_parsed_length, next_bytes, parse_string, de_short_str, de_long_str, de_decimal,
  de_byte_array, variant_seed, counted,
}

-- The parser does not run out of fuel, and a success takes `k` bytes at least.
abbrev pub Takes {ℓ} : {A : Type ℓ} → ℕ → Deserializer → Res A → Type 0
Takes k d (ok a d') = length d'.input + k ≤ length d.input
Takes k d (err e d') = Unit
Takes k d panic = Unit
Takes k d stuck = ⊥

pub Takes-bind {ℓ κ} :
    {A : Type ℓ} {B : Type κ} (j k : ℕ) (d : Deserializer) (r : Res A)
    (f : A → Deserializer → Res B)
    → Takes j d r
    → ((a : A) (d' : Deserializer) → length d'.input + j ≤ length d.input → Takes k d' (f a d'))
    → Takes (j + k) d (bind r f)
Takes-bind {B = B} j k d (ok a d') f h step = weaken (f a d') (step a d' h)
  where
    weaken : (r : Res B) → Takes k d' r → Takes (j + k) d r
    weaken (ok b d'') t = omega arith
    weaken (err e d'') t = tt
    weaken panic t = tt
    weaken stuck t = t
Takes-bind j k d (err e d') f h step = tt
Takes-bind j k d panic f h step = tt
Takes-bind j k d stuck f h step = h

pub parse_num-Takes : (size : ℕ) (d : Deserializer) → Takes size d (parse_num size d)
unfolding parse_num
parse_num-Takes size d = elim (Bool-cases (ltb (length d.input) size)) [
  | inl short ↦ rw short tt
  | inr long ↦ rw long (ground (arith, length-drop size d.input))
]

next_byte_cases :
    (d : Deserializer)
    → (next_byte d ≡ err eof d)
      ⊎ ((b : ℕ) × (rest : List ℕ) × (d.input ≡ b ∷ rest)
          × (next_byte d ≡ ok b (record d { input = rest; cursor = d.cursor + 1 })))
unfolding next_byte
next_byte_cases d = cases d.input d.last_parsed_len d.cursor
  where
    cases :
        (input : List ℕ) (last : Option ℕ) (cursor : ℕ)
        → let d : Deserializer = record {
          input = input;
          last_parsed_len = last;
          cursor = cursor;
        } in
          (next_byte d ≡ err eof d)
          ⊎ ((b : ℕ) × (rest : List ℕ) × (d.input ≡ b ∷ rest)
              × (next_byte d ≡ ok b (record d { input = rest; cursor = d.cursor + 1 })))
    cases [] last cursor = inl refl
    cases (b ∷ rest) last cursor = inr (b, rest, refl, refl)

next_byte-Takes : (d : Deserializer) → Takes 1 d (next_byte d)
next_byte-Takes d = elim (next_byte_cases d) [
  | inl e ↦ rw e tt
  | inr (b, rest, shape, e) ↦ rw (e, shape) (omega arith)
]

pub parse_bool-Takes : (d : Deserializer) → Takes 1 d (parse_bool d)
unfolding parse_bool
parse_bool-Takes d = Takes-bind 1 0 d (next_byte d) _ (next_byte-Takes d) (λ v d' h. omega arith)

pub parse_u8-Takes : (d : Deserializer) → Takes 1 d (parse_u8 d)
unfolding parse_u8
parse_u8-Takes d = Takes-bind 1 0 d (parse_num 1 d) _ (parse_num-Takes 1 d) (λ v d' h. omega arith)

pub parse_u32-Takes : (d : Deserializer) → Takes 4 d (parse_u32 d)
unfolding parse_u32
parse_u32-Takes d = Takes-bind 4 0 d (parse_num 4 d) _ (parse_num-Takes 4 d) (λ v d' h. omega arith)

pub get_parsed_length-Takes : (d : Deserializer) → Takes 0 d (get_parsed_length d)
unfolding get_parsed_length
get_parsed_length-Takes d = elim (Option-cases d.last_parsed_len) [
  | inl e ↦ rw (e, get_parsed_length) tt
  | inr (n, e) ↦ rw (e, get_parsed_length) (checked n)
]
  where
    checked : (n : ℕ) → Takes 0 d (checked_len n d)
    checked n = ground arith

module _ {ℓ} {A : Type ℓ} where
  -- Fewer bytes may be claimed.
  pub Takes-weaken : (j k : ℕ) (d : Deserializer) (r : Res A) → j ≤ k → Takes k d r → Takes j d r
  Takes-weaken j k d (ok a d') h t = omega arith
  Takes-weaken j k d (err e d') h t = tt
  Takes-weaken j k d panic h t = tt
  Takes-weaken j k d stuck h t = t

  -- A last step that only computes.
  pub Takes-map {κ} :
      {B : Type κ} (k : ℕ) (d : Deserializer) (r : Res A) (f : A → B)
      → Takes k d r
      → Takes k d (bind r (λ a. return (f a)))
  Takes-map k d (ok a d') f t = t
  Takes-map k d (err e d') f t = tt
  Takes-map k d panic f t = tt
  Takes-map k d stuck f t = t

  pub counted-Takes :
      (k len : ℕ) (d : Deserializer) (m : M A) → Takes k d (m d) → Takes k d (counted len m d)
  unfolding counted
  counted-Takes k len d m t = charged (m d) t
    where
      charged : (r : Res A) → Takes k d r → Takes k d (charge d.cursor len r)
      charged (ok a d') t = ground arith
      charged (err e d') t = ground arith
      charged panic t = tt
      charged stuck t = t

next_bytes-Takes : (d : Deserializer) → Takes 0 d (next_bytes d)
unfolding next_bytes
next_bytes-Takes d =
    Takes-bind 0 0 d (get_parsed_length d) _ (get_parsed_length-Takes d)
      (λ n d' h. omega (arith, length-drop n d'.input))

parse_string-Takes : (d : Deserializer) → Takes 0 d (parse_string d)
unfolding parse_string
parse_string-Takes d =
    Takes-bind 0 0 d (get_parsed_length d) _ (get_parsed_length-Takes d) λ n d' h.
      elim (Bool-cases (from_utf8 (take n d'.input))) [
        | inl e ↦ rw e (omega (arith, length-drop n d'.input))
        | inr e ↦ rw e tt
      ]

pub de_short_str-Takes : (d : Deserializer) → Takes 1 d (de_short_str d)
unfolding de_short_str
de_short_str-Takes d =
    Takes-bind 1 0 d (parse_u8 d) _ (parse_u8-Takes d)
      (λ n d' h. Takes-map 0 d' (parse_string d') _ (parse_string-Takes d'))

pub de_long_str-Takes : (d : Deserializer) → Takes 0 d (de_long_str d)
unfolding de_long_str
de_long_str-Takes d = Takes-weaken 0 4 d _ (omega arith) (
    Takes-bind 4 0 d (parse_u32 d) _ (parse_u32-Takes d)
      (λ n d' h. Takes-map 0 d' (parse_string d') _ (parse_string-Takes d')))

pub de_byte_array-Takes : (d : Deserializer) → Takes 0 d (de_byte_array d)
unfolding de_byte_array
de_byte_array-Takes d = Takes-weaken 0 4 d _ (omega arith) (
    Takes-bind 4 0 d (parse_u32 d) _ (parse_u32-Takes d)
      (λ n d' h. Takes-map 0 d' (next_bytes d') _ (next_bytes-Takes d')))

pub de_decimal-Takes : (d : Deserializer) → Takes 0 d (de_decimal d)
unfolding de_decimal
de_decimal-Takes d = Takes-weaken 0 5 d _ (omega arith) (
    Takes-bind 1 4 d (parse_u8 d) _ (parse_u8-Takes d)
      (λ s d' h. Takes-map 4 d' (parse_num 4 d') _ (parse_num-Takes 4 d')))

pub variant_seed-Takes : (d : Deserializer) → Takes 1 d (variant_seed d)
unfolding variant_seed
variant_seed-Takes d = Takes-bind 1 0 d (next_byte d) _ (next_byte-Takes d) λ v d' h.
    elim (Bool-cases (is_ascii_alphabetic v)) [
      | inl e ↦ rw e (known (find_tag v letters) d')
      | inr e ↦ rw e tt
    ]
  where
    known : (o : Option Tag) (d' : Deserializer) → Takes 0 d' (known_variant o d')
    known none d' = tt
    known (some t) d' = omega arith
