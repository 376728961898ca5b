-- ===== src/Net/ChannelIdRepo/Laws/Cases.antt =====
-- Every call of `allocate` in amqprs/src/net/channel_id_repo.rs, whether or not there is a free id.
use amqprs.Prelude.{
  ℕ, ◌+◌, ◌*◌, ◌≤◌, ◌<◌, ◌≡◌, refl, ◌⊎◌, inl, inr, false, Bool-cases, length, ltb, panic, arith,
  All-get_elem?, lt_of_get_elem?,
}
use amqprs.Net.ChannelIdRepo.{ChannelIdRepository, allocate}
use amqprs.Net.ChannelIdRepo.Laws.{
  IsValid, IsByte, is_occupied, Allocates, allocate_bit_overflow, allocate_lem,
}
use amqprs.Net.ChannelIdRepo.Bitmap.{occupied_at, first_free_lem, position_cases}

-- A call on a repository of at most 8192 bytes panics or allocates.
pub allocate_cases :
    (repo : ChannelIdRepository)
    → IsValid repo
    → length repo.id_state ≤ 8192
    → (allocate repo ≡ panic) ⊎ ((repo' : ChannelIdRepository) × (id : ℕ) × Allocates repo repo' id)
unfolding allocate
allocate_cases repo h small = elim (position_cases repo.id_state 0) [
  | inl (n, _) ↦ inl (rw n refl)
  | inr (q, s, f) ↦
      let hv : f.v < 256 = All-get_elem? IsByte repo.id_state f.k f.v h f.here in
      let (i, found, hi, clear, set_before) = first_free_lem f.v hv f.not_full in
      let index : q ≡ f.k = omega (arith, f.index) in
      let lt = lt_of_get_elem? repo.id_state f.k f.v f.here in
      let was_free : is_occupied repo (f.k * 8 + i + 1) ≡ false =
        rw (occupied_at repo.id_state f.k i f.v hi f.here) clear in
      elim (Bool-cases (ltb (f.k * 8 + i + 1) 65536)) [
        | inl fits ↦
            let (repo', id, _, a) =
              allocate_lem repo (f.k * 8 + i + 1) h (omega arith, omega arith) (ground arith)
                was_free in
            inr (repo', id, a)
        | inr wide ↦ inl (
            rw (s, index)
              (allocate_bit_overflow 8 f.k i f.v repo f.here found (omega arith) (ground arith)))
      ]
]
