-- ===== src/Prelude/Bits.antt =====
-- Single bits of a byte: masks of one bit under `|`, `&` and `& !`, by tables of all bytes.
use Prim.Native.Nat.{ℕ, zero, suc, ◌-◌, ◌/◌, ◌^◌, ◌<◌, bit_and, bit_or}
use mathlib.Core.Path.{◌≡◌, refl}
use mathlib.Core.Bool.{Bool, true, false, not, ◌&&◌}
use native.Mathlib.Omega.{arith}
use amqprs.Prelude.Tests.{◌==◌, ltb, ltb→lt, if◌then◌else◌}

-- A test of all numbers below a bound.
unfoldable pub all_below : ℕ → (ℕ → Bool) → Bool
all_below zero test = true
all_below (suc bound) test = all_below bound test && test bound

pub all_below_sound :
    (bound : ℕ) (test : ℕ → Bool) (k : ℕ) → all_below bound test ≡ true → k < bound → test k ≡ true
unfolding all_below
all_below_sound zero test k passed inside = absurd (omega arith)
all_below_sound (suc bound) test k passed inside = ground (arith, all_below_sound bound test k)

unfoldable pub bool_eq : Bool → Bool → Bool
bool_eq true b = b
bool_eq false b = not b

pub bool_eq_sound : (a b : Bool) → bool_eq a b ≡ true → a ≡ b
unfolding bool_eq
bool_eq_sound true b h = ground arith
bool_eq_sound false b h = ground arith

-- `0b1000_0000 >> i`: bit `i` counted from the top.
abbrev pub mask : ℕ → ℕ
mask i = 128 / 2 ^ i

-- `v & m != 0`.
unfoldable pub has : ℕ → ℕ → Bool
has v m = not (bit_and m v == 0)

table : (ℕ → ℕ → ℕ → Bool) → Bool
unfolding all_below
table p = all_below 256 (λ v. all_below 8 (λ i. all_below 8 (p v i)))

table_sound :
    (p : ℕ → ℕ → ℕ → Bool) → table p ≡ true → (v i j : ℕ) → v < 256 → i < 8 → j < 8 → p v i j ≡ true
unfolding table
table_sound p h v i j hv hi hj =
    all_below_sound 8 (p v i) j
      (all_below_sound 8 (λ i. all_below 8 (p v i)) i
        (all_below_sound 256 (λ v. all_below 8 (λ i. all_below 8 (p v i))) v h hv) hi)
      hj

pub has-bit_or :
    (v i j : ℕ)
    → v < 256
    → i < 8
    → j < 8
    → has (bit_or v (mask i)) (mask j) ≡ (if i == j then true else has v (mask j))
unfolding table has bool_eq
has-bit_or v i j hv hi hj = bool_eq_sound _ _ (
    table_sound
      (λ v i j.
        bool_eq (has (bit_or v (mask i)) (mask j)) (if i == j then true else has v (mask j)))
      refl v i j hv hi hj)

-- `v & !m`.
pub has-bit_and :
    (v i j : ℕ)
    → v < 256
    → i < 8
    → j < 8
    → has (bit_and v (255 - mask i)) (mask j) ≡ (if i == j then false else has v (mask j))
unfolding table has bool_eq
has-bit_and v i j hv hi hj = bool_eq_sound _ _ (
    table_sound
      (λ v i j.
        bool_eq (has (bit_and v (255 - mask i)) (mask j))
          (if i == j then false else has v (mask j)))
      refl v i j hv hi hj)

byte_table : (ℕ → ℕ → ℕ) → Bool
unfolding all_below
byte_table f = all_below 256 (λ v. all_below 8 (λ i. ltb (f v i) 256))

byte_table_sound : (f : ℕ → ℕ → ℕ) → byte_table f ≡ true → (v i : ℕ) → v < 256 → i < 8 → f v i < 256
unfolding byte_table
byte_table_sound f h v i hv hi = ltb→lt (f v i) 256 (
    all_below_sound 8 (λ i. ltb (f v i) 256) i
      (all_below_sound 256 (λ v. all_below 8 (λ i. ltb (f v i) 256)) v h hv) hi)

pub bit_or-byte : (v i : ℕ) → v < 256 → i < 8 → bit_or v (mask i) < 256
unfolding byte_table
bit_or-byte = byte_table_sound (λ v i. bit_or v (mask i)) refl

pub bit_and-byte : (v i : ℕ) → v < 256 → i < 8 → bit_and v (255 - mask i) < 256
unfolding byte_table
bit_and-byte = byte_table_sound (λ v i. bit_and v (255 - mask i)) refl

-- No bit of 0 is set.
pub has_zero : (j : ℕ) → j < 8 → has 0 (mask j) ≡ false
unfolding has all_below bool_eq
has_zero j h = bool_eq_sound _ _ (all_below_sound 8 (λ k. bool_eq (has 0 (mask k)) false) j refl h)
