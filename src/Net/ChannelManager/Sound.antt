-- ===== src/Net/ChannelManager/Sound.antt =====
-- The invariant of channel_manager.rs through every call that returns, whatever its arguments.
use amqprs.Prelude.{
  ℕ, zero, suc, ◌<◌, ◌^◌, ◌*◌, ◌≤◌, ◌≡◌, refl, ◌⊎◌, inl, inr, false, Bool-cases, Option,
  Option-cases, none, some, Outcome, done, panic, ◌==◌, leb, length, arith, nat_eq,
}
use amqprs.Prelude.Map.{lookup}
use amqprs.Frame.MethodHeader.{MethodHeader}
use amqprs.Net.ChannelIdRepo.{ChannelIdRepository}
use amqprs.Net.ChannelIdRepo.Laws.{Covers}
use amqprs.Net.ChannelIdRepo.Fresh.{new_lem}
use amqprs.Net.ChannelIdRepo.Reserving.{outside-panic}
use amqprs.Net.ChannelIdRepo.Laws.Cases.{allocate_cases}
use amqprs.Net.ChannelManager.{
  ChannelResource, ChannelManager, new, insert_new, reserve_id, insert_resource, remove_resource,
  insert_responder, remove_responder,
}
use amqprs.Net.ChannelManager.Invariant.{
  Inv, Inserts, new-Inv, insert_resource-requested, insert_resource-allocated,
  insert_resource-default, remove_resource_lem, insert_responder_lem, remove_responder_lem,
  insert_responder-Inv, remove_responder-Inv,
}

covered_cases :
    (repo : ChannelIdRepository) (id : ℕ)
    → Covers repo id ⊎ ((id ≡ 0) ⊎ (8 * length repo.id_state < id))
covered_cases repo id = elim (Bool-cases (id == 0)) [
  | inl e ↦ inr (inl (ground arith))
  | inr e ↦ elim (Bool-cases (leb id (8 * length repo.id_state))) [
    | inl le ↦ inl (ground arith, ground arith)
    | inr gt ↦ inr (inr (ground arith))
  ]
]

module _ {R D : Type 0} where
  -- The invariant, and a bitmap that is no larger than a new one may be.
  pub record Sound (m : ChannelManager R D) : Type 0 where
    pub inv : Inv m
    pub small : length m.channel_id_repo.id_state ≤ 8192

  -- A call panics, or returns a sound manager.
  abbrev pub Returns : {X : Type 0} → Outcome (ChannelManager R D × X) → Type 0
  Returns {X} o = (o ≡ panic) ⊎ ((m : ChannelManager R D) × (x : X) × (o ≡ done (m, x)) × Sound m)

  pub new-Sound :
      (channel_max : ℕ)
      → channel_max < 2 ^ 16
      → Sound (new {Responder = R} {Dispatcher = D} channel_max)
  unfolding new
  new-Sound channel_max h =
      let (_, _, _, size) = new_lem channel_max in
      record { inv = new-Inv channel_max; small = ground (arith, size) }

  module _ (m : ChannelManager R D) (s : Sound m) where
    pub remove_resource-Sound : (id : ℕ) → Returns (remove_resource m id)
    unfolding remove_resource
    remove_resource-Sound id = elim (covered_cases m.channel_id_repo id) [
      | inr out ↦ inl (rw ((outside-panic m.channel_id_repo id out).1) refl)
      | inl c ↦ elim (remove_resource_lem m s.inv id c) [
        | inl (_, p) ↦ inl p
        | inr (r, m', _, e, v, size, _, _) ↦
            inr (m', some r, e, record { inv = v; small = omega (arith, size, s.small) })
      ]
    ]

    inserted :
        (m' : ChannelManager R D) (id : ℕ) (r : ChannelResource R D) → Inserts m m' id r → Sound m'
    inserted m' id r i = record { inv = i.inv; small = omega (arith, i.size, s.small) }

    insert_requested-Sound :
        (id : ℕ) (r : ChannelResource R D) → Returns (insert_resource m (some id) r)
    unfolding insert_resource reserve_id insert_new
    insert_requested-Sound zero r = elim (Option-cases (lookup 0 m.resource)) [
      | inl n ↦
          let (m', e, i) = insert_resource-default m s.inv r n in
          inr (m', some 0, e, inserted m' 0 r i)
      | inr (old, n) ↦ inl (rw (n, insert_new) refl)
    ]
    insert_requested-Sound (suc k) r =
        let nonzero : (suc k == 0) ≡ false = ground arith in
        elim (covered_cases m.channel_id_repo (suc k)) [
          | inr out ↦ inl (rw (nonzero, (outside-panic m.channel_id_repo (suc k) out).0) refl)
          | inl c ↦ elim (insert_resource-requested m s.inv (suc k) r c) [
            | inl (_, e) ↦ inr (m, none, e, s)
            | inr (m', _, e, i) ↦ inr (m', some (suc k), e, inserted m' (suc k) r i)
          ]
        ]

    pub insert_resource-Sound :
        (id : Option ℕ) (r : ChannelResource R D) → Returns (insert_resource m id r)
    unfolding insert_resource
    insert_resource-Sound (some id) r = insert_requested-Sound id r
    insert_resource-Sound none r = elim (allocate_cases m.channel_id_repo s.inv.valid s.small) [
      | inl p ↦ inl (rw p refl)
      | inr (repo, id, a) ↦
          let n : lookup id m.resource ≡ none =
            ground (arith, s.inv.agree id a.covered.0, a.was_free) in
          let (m', id', e, _, _, _, _, i) =
            insert_resource-allocated m s.inv id r a.covered a.fits n in
          inr (m', some id', e, inserted m' id' r i)
    ]

    pub insert_responder-Sound :
        (id : ℕ) (header : MethodHeader) (responder : R)
        → Sound (insert_responder m id header responder).0
    unfolding insert_responder
    insert_responder-Sound id header responder = record {
      inv = insert_responder-Inv m s.inv id header responder;
      small = same_size;
    }
      where
        same_size :
            length (insert_responder m id header responder).0.channel_id_repo.id_state ≤ 8192
        same_size = elim (Option-cases (lookup id m.resource)) [
          | inl e ↦ rw (e, insert_responder) s.small
          | inr (r, e) ↦ rw (insert_responder_lem m id header responder r e) s.small
        ]

    pub remove_responder-Sound :
        (id : ℕ) (header : MethodHeader) → Sound (remove_responder m id header).0
    unfolding remove_responder
    remove_responder-Sound id header = record {
      inv = remove_responder-Inv m s.inv id header;
      small = same_size;
    }
      where
        same_size : length (remove_responder m id header).0.channel_id_repo.id_state ≤ 8192
        same_size = elim (Option-cases (lookup id m.resource)) [
          | inl e ↦ rw (e, remove_responder) s.small
          | inr (r, e) ↦ rw (remove_responder_lem m id header r e) s.small
        ]
