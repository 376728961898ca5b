-- ===== src/Frame/Flags.antt =====
-- The flags of a method's arguments, packed into one octet, which the setters of
-- amqprs/src/frame/method write.
use amqprs.Prelude.{ℕ, ◌-◌, ◌<◌, ◌≡◌, Bool, true, false, bit_and, bit_or, ◌==◌, if◌then◌else◌}
use amqprs.Prelude.Bits.{mask, has, has-bit_or, has-bit_and, bit_or-byte, bit_and-byte}

-- `bits |= flag` or `bits &= !flag`.
unfoldable pub set_flag : ℕ → ℕ → Bool → ℕ
set_flag bits flag value = if value then bit_or bits flag else bit_and bits (255 - flag)

-- `after` is the octet `before` with the bit `i`, counted from the top, set to `value`, and nothing
-- else.
pub record SetsBit (before after i : ℕ) (value : Bool) : Type 0 where
  pub bits : (j : ℕ) → j < 8 → has after (mask j) ≡ (if i == j then value else has before (mask j))
  pub byte : after < 256

pub set_flag-SetsBit :
    (v i : ℕ) (value : Bool) → v < 256 → i < 8 → SetsBit v (set_flag v (mask i) value) i value
unfolding set_flag
set_flag-SetsBit v i true hv hi = record {
  bits = λ j hj. has-bit_or v i j hv hi hj;
  byte = bit_or-byte v i hv hi;
}
set_flag-SetsBit v i false hv hi = record {
  bits = λ j hj. has-bit_and v i j hv hi hj;
  byte = bit_and-byte v i hv hi;
}
