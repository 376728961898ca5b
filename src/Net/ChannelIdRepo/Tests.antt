-- ===== src/Net/ChannelIdRepo/Tests.antt =====
-- Runs of amqprs/src/net/channel_id_repo.rs, and its theorems at a repository of two bytes.
use amqprs.Prelude.{ℕ, ◌≤◌, ◌≡◌, refl, true, false, [], ◌∷◌, done, panic, arith}
use amqprs.Prelude.Bits.{has}
use amqprs.Net.ChannelIdRepo.{
  ChannelIdRepository, new, is_free, set_occupied, set_free, get_pos_mask, position, allocate_bit,
  allocate, release, reserve,
}
use amqprs.Net.ChannelIdRepo.Laws.{IsValid, is_occupied, Allocates, allocate_lem}
use amqprs.Net.ChannelIdRepo.Order.{allocate_times, count_from, IsFilled, allocate_times-new}

-- Ids 1, 2 and 4 are occupied.
abbrev sample : ChannelIdRepository
sample = record { id_state = 208 ∷ 0 ∷ [] }

abbrev full : ChannelIdRepository
full = record { id_state = 255 ∷ [] }

sample_runs :
    (allocate sample ≡ done (record { id_state = 240 ∷ 0 ∷ [] }, 3))
    × (reserve sample 9 ≡ done (record { id_state = 208 ∷ 128 ∷ [] }, true))
    × (reserve sample 4 ≡ done (sample, false))
    × (release sample 4 ≡ done (record { id_state = 192 ∷ 0 ∷ [] }, true))
    × (release sample 3 ≡ done (sample, false))
    × (allocate full ≡ panic)
unfolding allocate allocate_bit position reserve release get_pos_mask is_free set_occupied set_free
sample_runs = (refl, refl, refl, refl, refl, refl)

sample-IsValid : IsValid sample
sample-IsValid = (omega arith, (omega arith, tt))

sample_free : is_occupied sample 5 ≡ false
unfolding has
sample_free = refl

allocate_lem_example :
    (repo' : ChannelIdRepository) × (id : ℕ) × (id ≤ 5) × Allocates sample repo' id
allocate_lem_example =
    allocate_lem sample 5 sample-IsValid (omega arith, omega arith) (omega arith) sample_free

allocate_times-new_example :
    (repo : ChannelIdRepository) × (allocate_times 3 (new 10) ≡ done (repo, count_from 3 1))
    × IsFilled repo 3
allocate_times-new_example = allocate_times-new 10 3 (omega arith) (omega arith)
