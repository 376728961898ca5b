-- ===== src/Net/ChannelIdRepo/Reserving.antt =====
-- amqprs/src/net/channel_id_repo.rs: an id is reserved and released.
use amqprs.Prelude.{
  ℕ, ◌-◌, ◌*◌, ◌/◌, ◌%◌, ◌<◌, ◌≡◌, refl, ◌⊎◌, inl, inr, true, false, ◌==◌, bit_and, bit_or, arith,
  set, length, get_elem?-ge, Bool-cases, done, panic, subst,
}
use amqprs.Prelude.Bits.{mask, has}
use amqprs.Net.ChannelIdRepo.{
  ChannelIdRepository, is_free, set_occupied, set_free, get_pos_mask, release, reserve,
}
use amqprs.Net.ChannelIdRepo.Laws.{
  IsValid, Covers, is_occupied, Updates, byte_of, id_split, occupy-Updates, vacate-Updates,
}

-- A covered id is refused with nothing changed if it is occupied, and else is occupied, with no
-- other id changed.
pub reserve_lem :
    (repo : ChannelIdRepository) (id : ℕ)
    → IsValid repo
    → Covers repo id
    → ((is_occupied repo id ≡ true) × (reserve repo id ≡ done (repo, false)))
      ⊎ ((repo' : ChannelIdRepository) × (is_occupied repo id ≡ false)
          × (reserve repo id ≡ done (repo', true))
          × Updates repo repo' id true)
unfolding reserve get_pos_mask is_free set_occupied has
reserve_lem repo id h c =
    let (v, e) = byte_of repo id c in
    let i : ℕ = (id - 1) % 8 in
    let pos : ℕ = (id - 1) / 8 in
    let nonzero : (id == 0) ≡ false = ground arith in
    let updates = occupy-Updates repo pos i v h (omega arith) e in
    elim (Bool-cases (bit_and (mask i) v == 0)) [
      | inl free ↦ inr (
        record { id_state = set repo.id_state pos (bit_or v (mask i)) },
        ground arith,
        rw (nonzero, e, free) refl,
        subst
            (λ n.
              Updates repo (record { id_state = set repo.id_state pos (bit_or v (mask i)) }) n true)
            (id_split id c.0) updates,
      )
      | inr busy ↦ inl (ground arith, rw (nonzero, e, busy) refl)
    ]

-- A covered id is refused with nothing changed if it is free, and else is freed, with no other id
-- changed.
pub release_lem :
    (repo : ChannelIdRepository) (id : ℕ)
    → IsValid repo
    → Covers repo id
    → ((is_occupied repo id ≡ false) × (release repo id ≡ done (repo, false)))
      ⊎ ((repo' : ChannelIdRepository) × (is_occupied repo id ≡ true)
          × (release repo id ≡ done (repo', true))
          × Updates repo repo' id false)
unfolding release get_pos_mask is_free set_free has
release_lem repo id h c =
    let (v, e) = byte_of repo id c in
    let i : ℕ = (id - 1) % 8 in
    let pos : ℕ = (id - 1) / 8 in
    let nonzero : (id == 0) ≡ false = ground arith in
    let updates = vacate-Updates repo pos i v h (omega arith) e in
    elim (Bool-cases (bit_and (mask i) v == 0)) [
      | inl free ↦ inl (ground arith, rw (nonzero, e, free) refl)
      | inr busy ↦ inr (
        record { id_state = set repo.id_state pos (bit_and v (255 - mask i)) },
        ground arith,
        rw (nonzero, e, busy) refl,
        subst
            (λ n.
              Updates repo (record { id_state = set repo.id_state pos (bit_and v (255 - mask i)) })
                n false)
            (id_split id c.0) updates,
      )
    ]

-- Id 0 and an id past the last byte make both reserve and release panic.
pub outside-panic :
    (repo : ChannelIdRepository) (id : ℕ)
    → (id ≡ 0) ⊎ (8 * length repo.id_state < id)
    → (reserve repo id ≡ panic) × (release repo id ≡ panic)
unfolding reserve release get_pos_mask is_free
outside-panic repo id (inl e) = (rw e refl, rw e refl)
outside-panic repo id (inr h) =
    let none_there = get_elem?-ge repo.id_state ((id - 1) / 8) (omega arith) in
    let nonzero : (id == 0) ≡ false = ground arith in
    (rw (nonzero, none_there) refl, rw (nonzero, none_there) refl)
