-- ===== src/Net/ChannelIdRepo.antt =====
-- amqprs/src/net/channel_id_repo.rs: the bitmap of a connection's channel ids. A `Vec<u8>` is a list
-- of numbers below 256, and a u16 a number below 65536.
mod Bitmap
pub mod Laws
pub mod Order
mod Tests
pub mod Reserving
pub mod Fresh
use amqprs.Prelude.{
  ℕ, zero, suc, ◌+◌, ◌-◌, ◌*◌, ◌/◌, ◌%◌, ◌^◌, Bool, true, false, not, List, [], ◌∷◌, Option, none,
  some, Outcome, done, panic, ◌>>=◌, ◌>>◌, assert, unwrap, ltb, ◌==◌, if◌then◌else◌, bit_and,
  bit_or, get_elem?, set, replicate,
}
use amqprs.Prelude.Bits.{mask}

-- Bit `7 - (id - 1) % 8` of byte `(id - 1) / 8` says whether `id` is occupied.
pub record ChannelIdRepository : Type 0 where
  pub id_state : List ℕ

abbrev pub initial_bit_mask : ℕ
initial_bit_mask = 128

-- `channel_max` 0 stands for `u16::MAX`.
pub new_len : ℕ → ℕ
new_len channel_max = if channel_max == 0 then 1 + (65535 - 1) / 8 else 1 + (channel_max - 1) / 8

pub new : ℕ → ChannelIdRepository
unfolding new_len
new channel_max = record { id_state = replicate (new_len channel_max) 0 }

-- The index of a `Vec` is checked.
pub is_free : ChannelIdRepository → ℕ → ℕ → Outcome Bool
is_free repo pos mask = do v ← unwrap (get_elem? repo.id_state pos); done (bit_and mask v == 0)

pub set_occupied : ChannelIdRepository → ℕ → ℕ → Outcome ChannelIdRepository
set_occupied repo pos mask = do
  v ← unwrap (get_elem? repo.id_state pos)
  done (record { id_state = set repo.id_state pos (bit_or v mask) })

-- `!mask` on a byte is `255 - mask`.
pub set_free : ChannelIdRepository → ℕ → ℕ → Outcome ChannelIdRepository
set_free repo pos mask = do
  v ← unwrap (get_elem? repo.id_state pos)
  done (record { id_state = set repo.id_state pos (bit_and v (255 - mask)) })

-- Called for ids other than 0 only, where the two subtractions are those of ℕ.
pub get_pos_mask : ℕ → ℕ × ℕ
get_pos_mask id = ((id - 1) / 8, initial_bit_mask / 2 ^ ((id - 1) % 8))

-- The index of the first byte that is not full, from `pos` on.
pub position : List ℕ → ℕ → Option ℕ
position [] pos = none
position (v ∷ vs) pos = let rest = position vs (suc pos) in if v == 255 then rest else some pos

-- u16 arithmetic with the overflow check of a build with debug assertions.
abbrev pub u16_check : ℕ → Outcome ℕ
u16_check n = if ltb n 65536 then done n else panic

-- The last `k` rounds of the loop over the eight bits of the byte at `pos`.
pub allocate_bit : ℕ → ℕ → ChannelIdRepository → Outcome (ChannelIdRepository × ℕ)
allocate_bit zero pos repo = panic
allocate_bit (suc k) pos repo =
    let i = 7 - k in
    let mask = initial_bit_mask / 2 ^ i in
    let rest = allocate_bit k pos repo in
    do
      free ← is_free repo pos mask
      if free
          then (do
            repo' ← set_occupied repo pos mask
            channel_id ← u16_check (pos % 65536 * 8 + i + 1)
            done (repo', channel_id))
          else rest

pub allocate : ChannelIdRepository → Outcome (ChannelIdRepository × ℕ)
unfolding position allocate_bit is_free set_occupied
allocate repo = do pos ← unwrap (position repo.id_state 0); allocate_bit 8 pos repo

-- `false`: the id was free already.
pub release : ChannelIdRepository → ℕ → Outcome (ChannelIdRepository × Bool)
unfolding get_pos_mask is_free set_free
release repo id = do
  assert (not (id == 0))
  let (pos, mask) = get_pos_mask id
  free ← is_free repo pos mask
  if free then done (repo, false) else (do repo' ← set_free repo pos mask; done (repo', true))

-- `false`: the id was occupied already.
pub reserve : ChannelIdRepository → ℕ → Outcome (ChannelIdRepository × Bool)
unfolding get_pos_mask is_free set_occupied
reserve repo id = do
  assert (not (id == 0))
  let (pos, mask) = get_pos_mask id
  free ← is_free repo pos mask
  if free then (do repo' ← set_occupied repo pos mask; done (repo', true)) else done (repo, false)
