-- ===== src/Net/ChannelIdRepo/Fresh.antt =====
-- amqprs/src/net/channel_id_repo.rs: a new repository has its ids free.
use amqprs.Prelude.{
  ℕ, ◌+◌, ◌-◌, ◌*◌, ◌/◌, ◌%◌, ◌≤◌, ◌<◌, ◌≡◌, ap, inl, inr, false, Option, ◌==◌, if◌then◌else◌,
  arith, length, length-replicate, get_elem?-replicate, get_elem?-ge, Bool-cases, ltb, ltb→lt,
  replicate, All-replicate,
}
use amqprs.Prelude.Bits.{mask, has_zero}
use amqprs.Net.ChannelIdRepo.{new, new_len}
use amqprs.Net.ChannelIdRepo.Bitmap.{occupied, has_at}
use amqprs.Net.ChannelIdRepo.Laws.{IsByte, IsValid, is_occupied}

new_free : (n j : ℕ) → occupied (replicate n 0) j ≡ false
new_free n j = elim (Bool-cases (ltb ((j - 1) / 8) n)) [
  | inl low ↦
      rw (get_elem?-replicate {A = ℕ} n ((j - 1) / 8) 0 (ltb→lt ((j - 1) / 8) n low))
        (has_zero ((j - 1) % 8) (omega arith))
  | inr high ↦
      let beyond : length (replicate n 0) ≤ (j - 1) / 8 =
        ground (arith, length-replicate {0} {A = ℕ} n 0) in
      ap (λ (o : Option ℕ). has_at o (mask ((j - 1) % 8)))
        (get_elem?-ge (replicate n 0) ((j - 1) / 8) beyond)
]

-- A new repository holds bytes, has no id occupied, and covers the ids up to channel_max (65535
-- for 0) and less than eight more.
pub new_lem :
    (channel_max : ℕ)
    → IsValid (new channel_max)
      × ((j : ℕ) → is_occupied (new channel_max) j ≡ false)
      × ((if channel_max == 0 then 65535 else channel_max) ≤ 8 * length (new channel_max).id_state)
      × (8 * length (new channel_max).id_state
          < (if channel_max == 0 then 65535 else channel_max) + 8)
unfolding new new_len
new_lem channel_max = (
  All-replicate IsByte (new_len channel_max) 0 (omega arith),
  new_free (new_len channel_max),
  ground (arith, length-replicate {0} {A = ℕ} (new_len channel_max) 0),
  ground (arith, length-replicate {0} {A = ℕ} (new_len channel_max) 0),
)
