-- ===== src/Net/ChannelManager/Invariant.antt =====
-- The invariant of channel_manager.rs: an id is occupied exactly when it has a resource, so none of
-- its `unreachable!` and `assert!` lines is reached.
use amqprs.Prelude.{
  ℕ, ◌≤◌, ◌<◌, ◌≡◌, refl, sym, ◌∙◌, ap, ◌⊎◌, inl, inr, true, false, none, some, done, panic, ◌==◌,
  if◌then◌else◌, arith, Option-cases, nat_eq, is_some, length,
}
use amqprs.Prelude.Map.{lookup, insert, remove, lookup-insert, lookup-remove}
use amqprs.Frame.MethodHeader.{MethodHeader, header_eq, header_beq, header_beq_iff}
use amqprs.Net.ChannelIdRepo.{ChannelIdRepository}
use amqprs.Net.ChannelIdRepo.Laws.{IsValid, Covers, is_occupied, Updates, allocate_lem}
use amqprs.Net.ChannelIdRepo.Fresh.{new_lem}
use amqprs.Net.ChannelIdRepo.Reserving.{reserve_lem, release_lem}
use amqprs.Net.ChannelManager.{
  ChannelResource, ChannelManager, new, new_resource, get_dispatcher, insert_new, reserve_id,
  insert_resource, remove_resource, insert_responder, remove_responder,
}

module _ {Responder Dispatcher : Type 0} where
  pub record Inv (m : ChannelManager Responder Dispatcher) : Type 0 where
    pub valid : IsValid m.channel_id_repo
    pub agree :
        (id : ℕ) → 1 ≤ id → is_occupied m.channel_id_repo id ≡ is_some (lookup id m.resource)

  -- `m'` is `m` with the resource `r` under `id`.
  pub record Inserts (m m' : ChannelManager Responder Dispatcher) (id : ℕ)
      (r : ChannelResource Responder Dispatcher) : Type 0 where
    pub inv : Inv m'
    pub size : length m'.channel_id_repo.id_state ≡ length m.channel_id_repo.id_state
    pub found : (j : ℕ) → lookup j m'.resource ≡ (if id == j then some r else lookup j m.resource)

  -- A new manager satisfies the invariant.
  pub new-Inv :
      (channel_max : ℕ) → Inv (new {Responder = Responder} {Dispatcher = Dispatcher} channel_max)
  unfolding new
  new-Inv channel_max =
      let (valid, free, _, _) = new_lem channel_max in
      record { valid = valid; agree = λ id h. free id }

  pub get_dispatcher_lem :
      (m : ChannelManager Responder Dispatcher) (id : ℕ) (dispatcher : Dispatcher)
      → lookup id m.resource ≡ some (new_resource (some dispatcher))
      → get_dispatcher m id ≡ some dispatcher
  unfolding get_dispatcher new_resource
  get_dispatcher_lem m id dispatcher e = rw (e, get_dispatcher) refl

  insert_new_lem :
      (m : ChannelManager Responder Dispatcher) (id : ℕ) (r : ChannelResource Responder Dispatcher)
      → lookup id m.resource ≡ none
      → insert_new m id r ≡ done (record m { resource = insert id r m.resource }, id)
  unfolding insert_new
  insert_new_lem m id r e = rw (e, insert_new) refl

  pub insert_responder_lem :
      (m : ChannelManager Responder Dispatcher) (id : ℕ) (header : MethodHeader)
      (responder : Responder) (r : ChannelResource Responder Dispatcher)
      → lookup id m.resource ≡ some r
      → insert_responder m id header responder ≡ (
        record m {
          resource =
              insert id (record r { responders = insert header responder r.responders }) m.resource;
        },
        lookup header r.responders,
      )
  unfolding insert_responder
  insert_responder_lem m id header responder r e = rw (e, insert_responder) refl

  pub remove_responder_lem :
      (m : ChannelManager Responder Dispatcher) (id : ℕ) (header : MethodHeader)
      (r : ChannelResource Responder Dispatcher)
      → lookup id m.resource ≡ some r
      → remove_responder m id header ≡ (
        record m {
          resource = insert id (record r { responders = remove header r.responders }) m.resource;
        },
        lookup header r.responders,
      )
  unfolding remove_responder
  remove_responder_lem m id header r e = rw (e, remove_responder) refl

  module _ (m : ChannelManager Responder Dispatcher) (v : Inv m) where
    inserts :
        (repo : ChannelIdRepository) (id : ℕ) (r : ChannelResource Responder Dispatcher)
        → Updates m.channel_id_repo repo id true
        → Inserts m (record { channel_id_repo = repo; resource = insert id r m.resource }) id r
    inserts repo id r u = record {
      inv = record {
        valid = u.valid;
        agree = λ j hj. ground (arith, u.bits j hj, v.agree j hj, lookup-insert id j r m.resource);
      };
      size = u.size;
      found = λ j. lookup-insert id j r m.resource;
    }

    free_id :
        (id : ℕ) → 1 ≤ id → is_occupied m.channel_id_repo id ≡ false → lookup id m.resource ≡ none
    free_id id h e = ground (arith, v.agree id h)

    -- Under the invariant that the occupied ids are those that have a resource, a request for an
    -- id that is covered is refused with nothing changed exactly when the id has a resource, and
    -- else stores the resource under it and keeps the invariant; it does not panic.
    pub insert_resource-requested :
        (id : ℕ) (r : ChannelResource Responder Dispatcher)
        → Covers m.channel_id_repo id
        → ((is_some (lookup id m.resource) ≡ true)
            × (insert_resource m (some id) r ≡ done (m, none)))
          ⊎ ((m' : ChannelManager Responder Dispatcher) × (lookup id m.resource ≡ none)
              × (insert_resource m (some id) r ≡ done (m', some id))
              × Inserts m m' id r)
    unfolding insert_resource reserve_id
    insert_resource-requested id r c =
        let nonzero : (id == 0) ≡ false = ground arith in
        elim (reserve_lem m.channel_id_repo id v.valid c) [
          | inl (busy, e) ↦ inl (sym (v.agree id c.0) ∙ busy, rw (nonzero, e) refl)
          | inr (repo, free, e, u) ↦
              let n = free_id id c.0 free in
              inr (
                record { channel_id_repo = repo; resource = insert id r m.resource },
                n,
                rw (nonzero, e, insert_new_lem (record m { channel_id_repo = repo }) id r n) refl,
                inserts repo id r u,
              )
        ]

    -- Under the invariant, a resource without a requested id is stored under the least id that has
    -- none, if there is such an id of 16 bits, and the invariant is kept.
    pub insert_resource-allocated :
        (free : ℕ) (r : ChannelResource Responder Dispatcher)
        → Covers m.channel_id_repo free
        → free ≤ 65535
        → lookup free m.resource ≡ none
        → (m' : ChannelManager Responder Dispatcher) × (id : ℕ) × (insert_resource m none r
            ≡ done (m', some id))
          × (1 ≤ id)
          × (id ≤ free)
          × (lookup id m.resource ≡ none)
          × ((j : ℕ) → 1 ≤ j → j < id → is_some (lookup j m.resource) ≡ true)
          × Inserts m m' id r
    unfolding insert_resource
    insert_resource-allocated free r c fits e =
        let unset : is_occupied m.channel_id_repo free ≡ false = v.agree free c.0 ∙ ap is_some e in
        let (repo, id, le, a) = allocate_lem m.channel_id_repo free v.valid c fits unset in
        let n = free_id id a.covered.0 a.was_free in
        (
          record { channel_id_repo = repo; resource = insert id r m.resource },
          id,
          rw (a.result, insert_new_lem (record m { channel_id_repo = repo }) id r n) refl,
          a.covered.0,
          le,
          n,
          λ j hj lt. sym (v.agree j hj) ∙ a.least j hj lt,
          inserts repo id r a.updates,
        )

    -- Under the invariant, the resource of the connection itself is stored under id 0, if there is
    -- none, without an id being reserved, and the invariant is kept.
    pub insert_resource-default :
        (r : ChannelResource Responder Dispatcher)
        → lookup 0 m.resource ≡ none
        → (m' : ChannelManager Responder Dispatcher) × (insert_resource m (some 0) r
            ≡ done (m', some 0))
          × Inserts m m' 0 r
    unfolding insert_resource reserve_id
    insert_resource-default r e = (
      record m { resource = insert 0 r m.resource },
      rw (insert_new_lem m 0 r e) refl,
      record {
        inv = record {
          valid = v.valid;
          agree = λ j hj. ground (arith, v.agree j hj, lookup-insert 0 j r m.resource);
        };
        size = refl;
        found = λ j. lookup-insert 0 j r m.resource;
      },
    )

    -- Under the invariant, removing a channel that has a resource returns it, frees its id, keeps
    -- the invariant and the size, and touches no other channel; for a covered id without a
    -- resource the call panics.
    pub remove_resource_lem :
        (id : ℕ)
        → Covers m.channel_id_repo id
        → ((lookup id m.resource ≡ none) × (remove_resource m id ≡ panic))
          ⊎ ((r : ChannelResource Responder Dispatcher) × (m' : ChannelManager Responder Dispatcher)
              × (lookup id m.resource ≡ some r)
              × (remove_resource m id ≡ done (m', some r))
              × Inv m'
              × (length m'.channel_id_repo.id_state ≡ length m.channel_id_repo.id_state)
              × (is_occupied m'.channel_id_repo id ≡ false)
              × ((j : ℕ) → lookup j m'.resource ≡ (if id == j then none else lookup j m.resource)))
    unfolding remove_resource
    remove_resource_lem id c = elim (release_lem m.channel_id_repo id v.valid c) [
      | inl (free, e) ↦ inl (free_id id c.0 free, rw e refl)
      | inr (repo, busy, e, u) ↦ elim (Option-cases (lookup id m.resource)) [
        | inl n ↦ absurd (cc (busy, v.agree id c.0, n))
        | inr (r, s) ↦ inr (
          r,
          record { channel_id_repo = repo; resource = remove id m.resource },
          s,
          rw (e, s) refl,
          record {
            valid = u.valid;
            agree =
                λ j hj. ground (arith, u.bits j hj, v.agree j hj, lookup-remove id j m.resource);
          },
          u.size,
          ground (arith, u.bits id c.0),
          λ j. lookup-remove id j m.resource,
        )
      ]
    ]

    -- A resource that takes the place of an old one.
    replaced :
        (id : ℕ) (old r : ChannelResource Responder Dispatcher)
        → lookup id m.resource ≡ some old
        → Inv (record m { resource = insert id r m.resource })
    replaced id old r e = record {
      valid = v.valid;
      agree = λ j hj. ground (arith, v.agree j hj, lookup-insert id j r m.resource, e);
    }

    pub insert_responder-Inv :
        (id : ℕ) (header : MethodHeader) (responder : Responder)
        → Inv (insert_responder m id header responder).0
    unfolding insert_responder
    insert_responder-Inv id header responder = elim (Option-cases (lookup id m.resource)) [
      | inl e ↦ rw (e, insert_responder) v
      | inr (r, e) ↦
          rw (insert_responder_lem m id header responder r e)
            (replaced id r (record r { responders = insert header responder r.responders }) e)
    ]

    pub remove_responder-Inv :
        (id : ℕ) (header : MethodHeader) → Inv (remove_responder m id header).0
    unfolding remove_responder
    remove_responder-Inv id header = elim (Option-cases (lookup id m.resource)) [
      | inl e ↦ rw (e, remove_responder) v
      | inr (r, e) ↦
          rw (remove_responder_lem m id header r e)
            (replaced id r (record r { responders = remove header r.responders }) e)
    ]

  -- A responder registered for a method of a channel that has a resource is given back by the
  -- first removal, and not by a second one.
  pub remove_responder-insert_responder :
      (m : ChannelManager Responder Dispatcher) (id : ℕ) (header : MethodHeader)
      (responder : Responder)
      → is_some (lookup id m.resource) ≡ true
      → let m₁ = (insert_responder m id header responder).0 in
        let (m₂, taken) = remove_responder m₁ id header in
        (taken ≡ some responder) × ((remove_responder m₂ id header).1 ≡ none)
  remove_responder-insert_responder m id header responder h =
      elim (Option-cases (lookup id m.resource)) [
        | inl e ↦ absurd (cc (h, e))
        | inr (r, e) ↦
            let r₁ : ChannelResource Responder Dispatcher = record r {
              responders = insert header responder r.responders;
            } in
            let m₁ : ChannelManager Responder Dispatcher = record m {
              resource = insert id r₁ m.resource;
            } in
            let r₂ : ChannelResource Responder Dispatcher = record r₁ {
              responders = remove header r₁.responders;
            } in
            let m₂ : ChannelManager Responder Dispatcher = record m₁ {
              resource = insert id r₂ m₁.resource;
            } in
            let e₁ : lookup id m₁.resource ≡ some r₁ =
              ground (arith, lookup-insert id id r₁ m.resource) in
            let e₂ : lookup id m₂.resource ≡ some r₂ =
              ground (arith, lookup-insert id id r₂ m₁.resource) in
            let same : header_beq header header ≡ true = (header_beq_iff header header).1 refl in
            rw
              (
                insert_responder_lem m id header responder r e,
                remove_responder_lem m₁ id header r₁ e₁,
                remove_responder_lem m₂ id header r₂ e₂,
              )
              (
                lookup-insert header header responder r.responders ∙ rw same refl,
                lookup-remove header header r₁.responders ∙ rw same refl,
              )
      ]
