-- ===== src/Serde/Parses.antt =====
-- A parser of de.rs that reads back given bytes, whatever follows them: `Parses m bytes a`, and its
-- rules for the calls that the derived parsers are made of.
use amqprs.Prelude.{
  ℕ, ◌+◌, ◌-◌, ◌^◌, ◌≤◌, ◌<◌, ◌≡◌, refl, sym, ◌∙◌, ap, ap₂, true, false, List, [], ◌∷◌, ◌++◌,
  Option, none, some, length, take, drop, ltb, leb, arith, length-append, append_assoc, take-append,
  drop-append, le→ltb_false,
}
use amqprs.Prelude.Bytes.{to_be_bytes, length-to_be_bytes, from_be_bytes-to_be_bytes}
use amqprs.Serde.Utf8.{from_utf8}
use amqprs.Serde.De.{
  Deserializer, ok, M, ◌>>=◌, return, parse_num, parse_u8, parse_u32, get_parsed_length, next_bytes,
  parse_string, counted,
}

abbrev pub at : List ℕ → Option ℕ → ℕ → Deserializer
at input last cursor = record { input = input; last_parsed_len = last; cursor = cursor }

abbrev pub Parses {ℓ} : {A : Type ℓ} → M A → List ℕ → A → Type ℓ
Parses m bs a =
    (rest : List ℕ) (last : Option ℕ) (cursor : ℕ)
    → (l : Option ℕ) × (m (at (bs ++ rest) last cursor) ≡ ok a (at rest l (cursor + length bs)))

pub Parses-return {ℓ} : {A : Type ℓ} (a : A) → Parses (return a) [] a
Parses-return a rest last cursor = (last, ap (λ (c : ℕ). ok a (at rest last c)) (omega arith))

pub Parses-bind {ℓ κ} :
    {A : Type ℓ} {B : Type κ} (m : M A) (f : A → M B) (bs cs : List ℕ) (a : A) (b : B)
    → Parses m bs a
    → Parses (f a) cs b
    → Parses (m >>= f) (bs ++ cs) b
Parses-bind m f bs cs a b p q rest last cursor =
    let (l, e) = p (cs ++ rest) last cursor in
    let (l', e') = q rest l (cursor + length bs) in
    (
      l',
      rw (append_assoc bs cs rest, e)
          (e'
            ∙ ap (λ (c : ℕ). ok b (at rest l' c)) (omega (arith, length-append {0} {A = ℕ} bs cs))),
    )

-- A last step that only computes.
pub Parses-map {ℓ κ} :
    {A : Type ℓ} {B : Type κ} (m : M A) (f : A → B) (bs : List ℕ) (a : A)
    → Parses m bs a
    → Parses (m >>= λ x. return (f x)) bs (f a)
Parses-map m f bs a p rest last cursor = let (l, e) = p rest last cursor in (l, rw e refl)

pub parse_num_lem :
    (size v : ℕ) (rest : List ℕ) (last : Option ℕ) (cursor : ℕ)
    → v < 256 ^ size
    → parse_num size (at (to_be_bytes size v ++ rest) last cursor)
      ≡ ok v (at rest none (cursor + size))
unfolding parse_num
parse_num_lem size v rest last cursor h =
    let bs : List ℕ = to_be_bytes size v in
    let width : length bs ≡ size = length-to_be_bytes size v in
    let short : ltb (length (bs ++ rest)) size ≡ false =
      le→ltb_false (length (bs ++ rest)) size (omega (arith, length-append {0} {A = ℕ} bs rest)) in
    let front : take size (bs ++ rest) ≡ bs =
      ap (λ (n : ℕ). take n (bs ++ rest)) (sym width) ∙ take-append bs rest in
    let back : drop size (bs ++ rest) ≡ rest =
      ap (λ (n : ℕ). drop n (bs ++ rest)) (sym width) ∙ drop-append bs rest in
    rw (short, front, back, from_be_bytes-to_be_bytes size v h) refl

pub Parses-num : (size v : ℕ) → v < 256 ^ size → Parses (parse_num size) (to_be_bytes size v) v
Parses-num size v h rest last cursor = (
  none,
  parse_num_lem size v rest last cursor h
      ∙ ap (λ (n : ℕ). ok v (at rest none (cursor + n))) (sym (length-to_be_bytes size v)),
)

to_be_one : (v : ℕ) → v < 256 → to_be_bytes 1 v ≡ v ∷ []
unfolding to_be_bytes
to_be_one v h = ap (λ (n : ℕ). n ∷ []) (omega arith)

pub parse_byte_lem :
    (v : ℕ) (rest : List ℕ) (last : Option ℕ) (cursor : ℕ)
    → v < 256
    → parse_num 1 (at (v ∷ rest) last cursor) ≡ ok v (at rest none (cursor + 1))
parse_byte_lem v rest last cursor h =
    ap (λ (bs : List ℕ). parse_num 1 (at (bs ++ rest) last cursor)) (sym (to_be_one v h))
    ∙ parse_num_lem 1 v rest last cursor (omega arith)

pub Parses-byte : (v : ℕ) → v < 256 → Parses (parse_num 1) (v ∷ []) v
Parses-byte v h rest last cursor = (none, parse_byte_lem v rest last cursor h)

pub parse_u8_lem :
    (v : ℕ) (rest : List ℕ) (last : Option ℕ) (cursor : ℕ)
    → v < 256
    → parse_u8 (at (v ∷ rest) last cursor) ≡ ok v (at rest (some v) (cursor + 1))
unfolding parse_u8
parse_u8_lem v rest last cursor h = rw (parse_byte_lem v rest last cursor h) refl

pub Parses-u8 : (v : ℕ) → v < 256 → Parses parse_u8 (v ∷ []) v
Parses-u8 v h rest last cursor = (some v, parse_u8_lem v rest last cursor h)

pub parse_u32_lem :
    (v : ℕ) (rest : List ℕ) (last : Option ℕ) (cursor : ℕ)
    → v < 2 ^ 32
    → parse_u32 (at (to_be_bytes 4 v ++ rest) last cursor) ≡ ok v (at rest (some v) (cursor + 4))
unfolding parse_u32
parse_u32_lem v rest last cursor h = rw (parse_num_lem 4 v rest last cursor (omega arith)) refl

pub Parses-u32 : (v : ℕ) → v < 2 ^ 32 → Parses parse_u32 (to_be_bytes 4 v) v
Parses-u32 v h rest last cursor = (
  some v,
  parse_u32_lem v rest last cursor h
      ∙ ap (λ (n : ℕ). ok v (at rest (some v) (cursor + n))) (sym (length-to_be_bytes 4 v)),
)

pub get_parsed_length_lem :
    (n : ℕ) (input : List ℕ) (cursor : ℕ)
    → n < 2 ^ 32
    → n ≤ length input
    → get_parsed_length (at input (some n) cursor) ≡ ok n (at input (some n) cursor)
unfolding get_parsed_length
get_parsed_length_lem n input cursor h fits = ground arith

pub next_bytes_lem :
    (bs rest : List ℕ) (n cursor : ℕ)
    → n < 2 ^ 32
    → length bs ≡ n
    → next_bytes (at (bs ++ rest) (some n) cursor) ≡ ok bs (at rest (some n) (cursor + n))
unfolding next_bytes
next_bytes_lem bs rest n cursor h e =
    rw
      (get_parsed_length_lem n (bs ++ rest) cursor h
        (omega (arith, length-append {0} {A = ℕ} bs rest)))
      (ap₂ (λ (x y : List ℕ). ok x (at y (some n) (cursor + n)))
        (ap (λ (k : ℕ). take k (bs ++ rest)) (sym e) ∙ take-append bs rest)
        (ap (λ (k : ℕ). drop k (bs ++ rest)) (sym e) ∙ drop-append bs rest))

pub parse_string_lem :
    (bs rest : List ℕ) (n cursor : ℕ)
    → n < 2 ^ 32
    → length bs ≡ n
    → from_utf8 bs ≡ true
    → parse_string (at (bs ++ rest) (some n) cursor) ≡ ok bs (at rest (some n) (cursor + n))
unfolding parse_string
parse_string_lem bs rest n cursor h e u =
    let front : take n (bs ++ rest) ≡ bs =
      ap (λ (k : ℕ). take k (bs ++ rest)) (sym e) ∙ take-append bs rest in
    let back : drop n (bs ++ rest) ≡ rest =
      ap (λ (k : ℕ). drop k (bs ++ rest)) (sym e) ∙ drop-append bs rest in
    rw
      (
        get_parsed_length_lem n (bs ++ rest) cursor h
            (omega (arith, length-append {0} {A = ℕ} bs rest)),
        front,
        back,
        u,
      )
      refl

-- An element that is counted against the bytes left.
pub Parses-counted {ℓ} :
    {A : Type ℓ} (len : ℕ) (m : M A) (bs : List ℕ) (a : A)
    → length bs ≤ len
    → Parses m bs a
    → Parses (counted len m) bs (a, len - length bs)
unfolding counted
Parses-counted len m bs a h p rest last cursor =
    let (l, e) = p rest last cursor in
    let used : cursor + length bs - cursor ≡ length bs = omega arith in
    let fits : leb (length bs) len ≡ true = ground arith in (l, rw (e, used, fits) refl)
