-- ===== src/Net/ChannelManager/Tests.antt =====
-- The theorems on amqprs/src/net/channel_manager.rs at a manager with one open channel. A responder
-- and a dispatcher are numbers here.
use amqprs.Prelude.{
  ℕ, zero, suc, get_elem?-ge, ◌-◌, ◌/◌, ◌≤◌, ◌<◌, ◌≡◌, refl, ◌⊎◌, true, false, [], ◌∷◌, none, some,
  done, panic, is_some, length, ◌==◌, if◌then◌else◌, arith, nat_eq,
}
use amqprs.Prelude.Bits.{has}
use amqprs.Prelude.Map.{lookup}
use amqprs.Frame.MethodHeader.{MethodHeader, header_eq}
use amqprs.Net.ChannelIdRepo.Laws.{Covers, is_occupied}
use amqprs.Net.ChannelIdRepo.Fresh.{new_lem}
use amqprs.Net.ChannelManager.{
  ChannelResource, ChannelManager, new, new_resource, insert_resource, remove_resource,
}
use amqprs.Net.ChannelManager.Invariant.{
  Inv, Inserts, new-Inv, insert_resource-requested, remove_resource_lem,
}

abbrev Manager : Type 0
Manager = ChannelManager ℕ ℕ

abbrev Resource : Type 0
Resource = ChannelResource ℕ ℕ

abbrev empty : Manager
empty = new 10

abbrev opened : Resource
opened = new_resource (some 7)

abbrev open_ok : MethodHeader
open_ok = record { class_id = 20; method_id = 11 }

empty-Inv : Inv empty
empty-Inv = new-Inv 10

empty-Covers : Covers empty.channel_id_repo 3
unfolding new
empty-Covers = let (_, _, lo, _) = new_lem 10 in (omega arith, omega arith)

insert_resource-requested_example :
    ((is_some (lookup 3 empty.resource) ≡ true)
      × (insert_resource empty (some 3) opened ≡ done (empty, none)))
    ⊎ ((m' : Manager) × (lookup 3 empty.resource ≡ none)
        × (insert_resource empty (some 3) opened ≡ done (m', some 3))
        × Inserts empty m' 3 opened)
insert_resource-requested_example = insert_resource-requested empty empty-Inv 3 opened empty-Covers

abbrev one_channel : Manager
one_channel = record {
  channel_id_repo = record { id_state = 128 ∷ [] };
  resource = (1, opened) ∷ [];
}

no_bit : (id : ℕ) → 8 < id → is_occupied one_channel.channel_id_repo id ≡ false
no_bit id h = rw (get_elem?-ge {A = ℕ} (128 ∷ []) ((id - 1) / 8) (omega arith)) refl

one_channel-agree :
    (id : ℕ)
    → 1 ≤ id
    → is_occupied one_channel.channel_id_repo id ≡ is_some (lookup id one_channel.resource)
unfolding has
one_channel-agree zero h = absurd (omega arith)
one_channel-agree (suc zero) h = refl
one_channel-agree (suc (suc zero)) h = refl
one_channel-agree (suc (suc (suc zero))) h = refl
one_channel-agree (suc (suc (suc (suc zero)))) h = refl
one_channel-agree (suc (suc (suc (suc (suc zero))))) h = refl
one_channel-agree (suc (suc (suc (suc (suc (suc zero)))))) h = refl
one_channel-agree (suc (suc (suc (suc (suc (suc (suc zero))))))) h = refl
one_channel-agree (suc (suc (suc (suc (suc (suc (suc (suc zero)))))))) h = refl
one_channel-agree (suc (suc (suc (suc (suc (suc (suc (suc (suc n))))))))) h =
    let other : (1 == suc (suc (suc (suc (suc (suc (suc (suc (suc n))))))))) ≡ false =
      ground arith in
    rw other (no_bit (suc (suc (suc (suc (suc (suc (suc (suc (suc n))))))))) (omega arith))

one_channel-Inv : Inv one_channel
one_channel-Inv = record { valid = (omega arith, tt); agree = one_channel-agree }

one_channel-Covers : Covers one_channel.channel_id_repo 1
one_channel-Covers = (omega arith, omega arith)

remove_resource_lem_example :
    ((lookup 1 one_channel.resource ≡ none) × (remove_resource one_channel 1 ≡ panic))
    ⊎ ((r : Resource) × (m' : Manager) × (lookup 1 one_channel.resource ≡ some r)
        × (remove_resource one_channel 1 ≡ done (m', some r))
        × Inv m'
        × (length m'.channel_id_repo.id_state ≡ length one_channel.channel_id_repo.id_state)
        × (is_occupied m'.channel_id_repo 1 ≡ false)
        × ((j : ℕ)
            → lookup j m'.resource ≡ (if 1 == j then none else lookup j one_channel.resource)))
remove_resource_lem_example = remove_resource_lem one_channel one_channel-Inv 1 one_channel-Covers
