-- ===== src/Net/ChannelIdRepo/Laws.antt =====
-- What the operations of channel_id_repo.rs do to the set of occupied ids.
pub mod Cases
use amqprs.Prelude.{
  ℕ, zero, suc, ◌+◌, ◌-◌, ◌*◌, ◌/◌, ◌%◌, ◌≤◌, ◌<◌, ◌≡◌, refl, ap, ◌⊎◌, inl, inr, Bool, true, false,
  Option, some, ◌==◌, if◌then◌else◌, bit_and, bit_or, arith, get_elem?, set, length, length-set,
  length-replicate, get_elem?-replicate, get_elem?-lt, get_elem?-ge, lt_of_get_elem?, Bool-cases,
  ltb, lt→ltb, ltb→lt, replicate, All, All-get_elem?, All-set, All-replicate, done, panic, subst,
}
use amqprs.Prelude.Bits.{mask, has, has-bit_or, has-bit_and, bit_or-byte, bit_and-byte, has_zero}
use amqprs.Net.ChannelIdRepo.{
  ChannelIdRepository, new, new_len, is_free, set_occupied, set_free, get_pos_mask, allocate_bit,
  allocate, release, reserve,
}
use amqprs.Net.ChannelIdRepo.Bitmap.{
  occupied, has_at, occupied_at, occupied-set, occupied-full, first_free, first_free_lem, Found,
  position_cases,
}

abbrev pub IsByte : ℕ → Type 0
IsByte v = v < 256

abbrev pub IsValid : ChannelIdRepository → Type 0
IsValid repo = All IsByte repo.id_state

-- The ids that have a bit.
abbrev pub Covers : ChannelIdRepository → ℕ → Type 0
Covers repo id = (1 ≤ id) × (id ≤ 8 * length repo.id_state)

-- Whether an id is occupied.
abbrev pub is_occupied : ChannelIdRepository → ℕ → Bool
is_occupied repo id = occupied repo.id_state id

-- `after` is `before` with the id `id` occupied (`b` true) or free (`b` false), and nothing else.
pub record Updates (before after : ChannelIdRepository) (id : ℕ) (b : Bool) : Type 0 where
  pub bits : (j : ℕ) → 1 ≤ j → is_occupied after j ≡ (if id == j then b else is_occupied before j)
  pub valid : IsValid after
  pub size : length after.id_state ≡ length before.id_state

pub byte_of :
    (repo : ChannelIdRepository) (id : ℕ)
    → Covers repo id
    → (v : ℕ) × (get_elem? repo.id_state ((id - 1) / 8) ≡ some v)
byte_of repo id c = get_elem?-lt repo.id_state ((id - 1) / 8) (omega arith)

pub id_split : (id : ℕ) → 1 ≤ id → (id - 1) / 8 * 8 + (id - 1) % 8 + 1 ≡ id
id_split id h = omega arith

pub occupy-Updates :
    (repo : ChannelIdRepository) (pos i v : ℕ)
    → IsValid repo
    → i < 8
    → get_elem? repo.id_state pos ≡ some v
    → Updates repo
        (record { id_state = set repo.id_state pos (bit_or v (mask i)) })
        (pos * 8 + i + 1)
        true
occupy-Updates repo pos i v h hi e =
    let hv : v < 256 = All-get_elem? IsByte repo.id_state pos v h e in
    record {
      bits = λ j hj.
          occupied-set repo.id_state pos i v (bit_or v (mask i)) true j e hi
            (λ r hr. has-bit_or v i r hv hi hr) hj;
      valid = All-set IsByte repo.id_state pos (bit_or v (mask i)) h (bit_or-byte v i hv hi);
      size = length-set repo.id_state pos (bit_or v (mask i));
    }

pub vacate-Updates :
    (repo : ChannelIdRepository) (pos i v : ℕ)
    → IsValid repo
    → i < 8
    → get_elem? repo.id_state pos ≡ some v
    → Updates repo
        (record { id_state = set repo.id_state pos (bit_and v (255 - mask i)) })
        (pos * 8 + i + 1)
        false
vacate-Updates repo pos i v h hi e =
    let hv : v < 256 = All-get_elem? IsByte repo.id_state pos v h e in
    record {
      bits = λ j hj.
          occupied-set repo.id_state pos i v (bit_and v (255 - mask i)) false j e hi
            (λ r hr. has-bit_and v i r hv hi hr) hj;
      valid =
          All-set IsByte repo.id_state pos (bit_and v (255 - mask i)) h (bit_and-byte v i hv hi);
      size = length-set repo.id_state pos (bit_and v (255 - mask i));
    }

-- The loop over the bits takes the first clear one of the byte.
allocate_bit_lem :
    (k pos i v : ℕ) (repo : ChannelIdRepository)
    → get_elem? repo.id_state pos ≡ some v
    → first_free k v ≡ some i
    → pos * 8 + i + 1 < 65536
    → allocate_bit k pos repo
      ≡ done (record { id_state = set repo.id_state pos (bit_or v (mask i)) }, pos * 8 + i + 1)
unfolding allocate_bit first_free is_free set_occupied
allocate_bit_lem zero pos i v repo e f h = cc
allocate_bit_lem (suc k) pos i v repo e f h = elim (Bool-cases (bit_and (mask (7 - k)) v == 0)) [
  | inl free ↦
      let here : 7 - k ≡ i = ground arith in
      let small : pos % 65536 ≡ pos = omega arith in rw (e, free, here, small, lt→ltb _ _ h) refl
  | inr busy ↦
      let later : first_free k v ≡ some i = ground arith in
      rw (e, busy) (allocate_bit_lem k pos i v repo e later h)
]

allocate_bit_overflow :
    (k pos i v : ℕ) (repo : ChannelIdRepository)
    → get_elem? repo.id_state pos ≡ some v
    → first_free k v ≡ some i
    → pos < 65536
    → 65536 ≤ pos * 8 + i + 1
    → allocate_bit k pos repo ≡ panic
unfolding allocate_bit first_free is_free set_occupied
allocate_bit_overflow zero pos i v repo e f lt h = cc
allocate_bit_overflow (suc k) pos i v repo e f lt h =
    elim (Bool-cases (bit_and (mask (7 - k)) v == 0)) [
      | inl free ↦
          let here : 7 - k ≡ i = ground arith in
          let small : pos % 65536 ≡ pos = omega arith in rw (e, free, here, small) (ground arith)
      | inr busy ↦
          let later : first_free k v ≡ some i = ground arith in
          rw (e, busy) (allocate_bit_overflow k pos i v repo e later lt h)
    ]

-- What `allocate` promises: the least free id, which it occupies.
pub record Allocates (repo repo' : ChannelIdRepository) (id : ℕ) : Type 0 where
  pub result : allocate repo ≡ done (repo', id)
  pub covered : Covers repo id
  pub fits : id ≤ 65535
  pub was_free : is_occupied repo id ≡ false
  pub least : (j : ℕ) → 1 ≤ j → j < id → is_occupied repo j ≡ true
  pub updates : Updates repo repo' id true

module _ (repo : ChannelIdRepository) (q : ℕ) (f : Found repo.id_state 0 q) (i : ℕ) where
  earlier_occupied :
      ((j : ℕ) → j < i → has f.v (mask j) ≡ true)
      → (j : ℕ) → 1 ≤ j
      → j < f.k * 8 + i + 1
      → i < 8
      → is_occupied repo j ≡ true
  earlier_occupied set_before j hj lt hi = elim (Bool-cases (ltb ((j - 1) / 8) f.k)) [
    | inl low ↦
        occupied-full repo.id_state j (f.before ((j - 1) / 8) (ltb→lt ((j - 1) / 8) f.k low))
    | inr same ↦
        let e : (j - 1) / 8 ≡ f.k = ground arith in
        rw (e, f.here) (set_before ((j - 1) % 8) (omega arith))
  ]

-- Whenever some id of 16 bits that has a bit is free, allocate succeeds, returns the least free
-- id, occupies it, and changes no other id.
pub allocate_lem :
    (repo : ChannelIdRepository) (free : ℕ)
    → IsValid repo
    → Covers repo free
    → free ≤ 65535
    → is_occupied repo free ≡ false
    → (repo' : ChannelIdRepository) × (id : ℕ) × (id ≤ free) × Allocates repo repo' id
unfolding allocate
allocate_lem repo free h c fits e = elim (position_cases repo.id_state 0) [
  | inl (n, all) ↦
      absurd (cc (e, occupied-full repo.id_state free (all ((free - 1) / 8) (omega arith))))
  | inr (q, s, f) ↦
      let hv : f.v < 256 = All-get_elem? IsByte repo.id_state f.k f.v h f.here in
      let (i, found, hi, clear, set_before) = first_free_lem f.v hv f.not_full in
      let earlier = earlier_occupied repo q f i set_before in
      let index : q ≡ f.k = omega (arith, f.index) in
      let le : f.k * 8 + i + 1 ≤ free = elim (Bool-cases (ltb free (f.k * 8 + i + 1))) [
        | inl low ↦ absurd (cc (e, earlier free c.0 (ltb→lt free (f.k * 8 + i + 1) low) hi))
        | inr high ↦ ground arith
      ] in
      let lt = lt_of_get_elem? repo.id_state f.k f.v f.here in
      (
        record { id_state = set repo.id_state f.k (bit_or f.v (mask i)) },
        f.k * 8 + i + 1,
        le,
        record {
          result = rw (s, index) (allocate_bit_lem 8 f.k i f.v repo f.here found (omega arith));
          covered = omega arith;
          fits = omega arith;
          was_free = rw (occupied_at repo.id_state f.k i f.v hi f.here) clear;
          least = λ j hj lt'. earlier j hj lt' hi;
          updates = occupy-Updates repo f.k i f.v h hi f.here;
        },
      )
]

-- A repository of at most 8192 bytes in which every covered id of 16 bits is occupied makes
-- allocate panic.
pub allocate-panic :
    (repo : ChannelIdRepository)
    → IsValid repo
    → length repo.id_state ≤ 8192
    → ((j : ℕ) → Covers repo j → j ≤ 65535 → is_occupied repo j ≡ true)
    → allocate repo ≡ panic
unfolding allocate
allocate-panic repo h small all = elim (position_cases repo.id_state 0) [
  | inl (n, _) ↦ rw n refl
  | inr (q, s, f) ↦
      let hv : f.v < 256 = All-get_elem? IsByte repo.id_state f.k f.v h f.here in
      let (i, found, hi, clear, set_before) = first_free_lem f.v hv f.not_full in
      let index : q ≡ f.k = omega (arith, f.index) in
      let lt = lt_of_get_elem? repo.id_state f.k f.v f.here in
      let was_free : is_occupied repo (f.k * 8 + i + 1) ≡ false =
        rw (occupied_at repo.id_state f.k i f.v hi f.here) clear in
      elim (Bool-cases (ltb (f.k * 8 + i + 1) 65536)) [
        | inl fits ↦ absurd (cc (was_free, all (f.k * 8 + i + 1) (omega arith) (ground arith)))
        | inr wide ↦
            rw (s, index)
              (allocate_bit_overflow 8 f.k i f.v repo f.here found (omega arith) (ground arith))
      ]
]
