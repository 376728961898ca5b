-- ===== src/Prelude/Bytes.antt =====
-- Big-endian bytes of a number: `to_be_bytes` and `from_be_bytes` at a width of `n` bytes.
use Prim.Native.Nat.{ℕ, zero, suc, ◌+◌, ◌*◌, ◌/◌, ◌%◌, ◌^◌, ◌<◌}
use mathlib.Core.Path.{◌≡◌, refl}
use mathlib.Core.List.{List, [], ◌∷◌, ◌++◌}
use native.Mathlib.Omega.{arith}
use native.Mathlib.Nat.{pow-suc}
use amqprs.Prelude.Lists.{length, length-append, All, All-append}

abbrev pub IsByte : ℕ → Type 0
IsByte b = b < 256

unfoldable pub to_be_bytes : ℕ → ℕ → List ℕ
to_be_bytes zero v = []
to_be_bytes (suc n) v = to_be_bytes n (v / 256) ++ (v % 256) ∷ []

unfoldable pub be_value : ℕ → List ℕ → ℕ
be_value acc [] = acc
be_value acc (b ∷ bs) = be_value (acc * 256 + b) bs

unfoldable pub from_be_bytes : List ℕ → ℕ
unfolding be_value
from_be_bytes bs = be_value 0 bs

be_value-append :
    (acc b : ℕ) (bs : List ℕ) → be_value acc (bs ++ b ∷ []) ≡ be_value acc bs * 256 + b
unfolding be_value
be_value-append acc b [] = refl
be_value-append acc b (c ∷ bs) = be_value-append (acc * 256 + c) b bs

pub length-to_be_bytes : (n v : ℕ) → length (to_be_bytes n v) ≡ n
unfolding to_be_bytes
length-to_be_bytes zero v = refl
length-to_be_bytes (suc n) v = omega (
  arith,
  length-append (to_be_bytes n (v / 256)) ((v % 256) ∷ []),
  length-to_be_bytes n (v / 256),
)

-- The four bytes of a number that fits in one.
pub to_be_bytes-small : (v : ℕ) → v < 256 → to_be_bytes 4 v ≡ 0 ∷ 0 ∷ 0 ∷ v ∷ []
unfolding to_be_bytes
to_be_bytes-small v h =
    let high : v / 256 ≡ 0 = omega arith in
    let low : v % 256 ≡ v = omega arith in rw (high, low) refl

pub from_be_bytes-to_be_bytes : (n v : ℕ) → v < 256 ^ n → from_be_bytes (to_be_bytes n v) ≡ v
unfolding from_be_bytes to_be_bytes
from_be_bytes-to_be_bytes zero v h = unfold be_value in omega arith
from_be_bytes-to_be_bytes (suc n) v h =
    rw (be_value-append 0 (v % 256) (to_be_bytes n (v / 256)))
      (omega (arith, from_be_bytes-to_be_bytes n (v / 256) (omega (arith, pow-suc 256 n))))

pub to_be_bytes-IsByte : (n v : ℕ) → All IsByte (to_be_bytes n v)
unfolding to_be_bytes
to_be_bytes-IsByte zero v = tt
to_be_bytes-IsByte (suc n) v =
    All-append IsByte (to_be_bytes n (v / 256)) ((v % 256) ∷ []) (to_be_bytes-IsByte n (v / 256))
      (omega arith, tt)
