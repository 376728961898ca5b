-- ===== src/Net/ChannelManager.antt =====
-- amqprs/src/net/channel_manager.rs: the resources of the open channels. The senders of tokio, to
-- which a frame is handed, are values of the parameters `Responder` and `Dispatcher`.
pub mod Invariant
pub mod Sound
mod Tests
use amqprs.Prelude.{
  ℕ, Bool, true, false, ◌||◌, List, [], ◌∷◌, Option, none, some, Outcome, done, panic, ◌>>=◌, ◌>>◌,
  assert, ◌==◌, if◌then◌else◌, nat_eq,
}
use amqprs.Prelude.Map.{lookup, insert, remove}
use amqprs.Frame.MethodHeader.{MethodHeader, header_eq}
use amqprs.Net.ChannelIdRepo.{ChannelIdRepository}
use amqprs.Net.ChannelIdRepo

pub record ChannelResource (Responder Dispatcher : Type 0) : Type 0 where
  pub responders : List (MethodHeader × Responder)
  pub dispatcher : Option Dispatcher

pub record ChannelManager (Responder Dispatcher : Type 0) : Type 0 where
  pub channel_id_repo : ChannelIdRepository
  pub resource : List (ℕ × ChannelResource Responder Dispatcher)

module _ {Responder Dispatcher : Type 0} where
  unfoldable pub new_resource : Option Dispatcher → ChannelResource Responder Dispatcher
  new_resource dispatcher = record { responders = []; dispatcher = dispatcher }

  unfoldable pub new : ℕ → ChannelManager Responder Dispatcher
  new channel_max = record { channel_id_repo = ChannelIdRepo.new channel_max; resource = [] }

  -- `match self.resource.insert(id, resource)`: an old resource is an implementation error.
  pub insert_new :
      ChannelManager Responder Dispatcher
      → ℕ
      → ChannelResource Responder Dispatcher
      → Outcome (ChannelManager Responder Dispatcher × ℕ)
  insert_new m id r = elim (lookup id m.resource) [
    | some old ↦ panic
    | none ↦ done (record m { resource = insert id r m.resource }, id)
  ]

  -- `self.channel_id_repo.reserve(id)` behind the test of the connection's own channel 0.
  pub reserve_id :
      ChannelManager Responder Dispatcher → ℕ → Outcome (ChannelManager Responder Dispatcher × Bool)
  reserve_id m id = if id == 0 then done (m, true) else (do
    (repo, b) ← ChannelIdRepo.reserve m.channel_id_repo id
    done (record m { channel_id_repo = repo }, b))

  -- The id asked for, or one that is allocated; `none`: the id asked for is not free.
  pub insert_resource :
      ChannelManager Responder Dispatcher
      → Option ℕ
      → ChannelResource Responder Dispatcher
      → Outcome (ChannelManager Responder Dispatcher × Option ℕ)
  unfolding insert_new reserve_id
  insert_resource m (some id) r = do
    (m', b) ← reserve_id m id
    if b then (do (m'', i) ← insert_new m' id r; done (m'', some i)) else done (m', none)
  insert_resource m none r = do
    (repo, id) ← ChannelIdRepo.allocate m.channel_id_repo
    (m', i) ← insert_new (record m { channel_id_repo = repo }) id r
    done (m', some i)

  -- To release a free id is an implementation error.
  pub remove_resource :
      ChannelManager Responder Dispatcher
      → ℕ
      → Outcome
          (ChannelManager Responder Dispatcher × Option (ChannelResource Responder Dispatcher))
  remove_resource m channel_id = do
    (repo, released) ← ChannelIdRepo.release m.channel_id_repo channel_id
    assert released
    done (
      record { channel_id_repo = repo; resource = remove channel_id m.resource },
      lookup channel_id m.resource,
    )

  pub get_dispatcher : ChannelManager Responder Dispatcher → ℕ → Option Dispatcher
  get_dispatcher m channel_id = elim (lookup channel_id m.resource) [
    | none ↦ none
    | some r ↦ r.dispatcher
  ]

  -- Returns the responder that the new one replaces; an unknown channel changes nothing.
  pub insert_responder :
      ChannelManager Responder Dispatcher
      → ℕ
      → MethodHeader
      → Responder
      → ChannelManager Responder Dispatcher × Option Responder
  insert_responder m channel_id header responder = elim (lookup channel_id m.resource) [
    | none ↦ (m, none)
    | some r ↦ (
      record m {
        resource =
            insert channel_id (record r { responders = insert header responder r.responders })
              m.resource;
      },
      lookup header r.responders,
    )
  ]

  pub remove_responder :
      ChannelManager Responder Dispatcher
      → ℕ
      → MethodHeader
      → ChannelManager Responder Dispatcher × Option Responder
  remove_responder m channel_id header = elim (lookup channel_id m.resource) [
    | none ↦ (m, none)
    | some r ↦ (
      record m {
        resource =
            insert channel_id (record r { responders = remove header r.responders }) m.resource;
      },
      lookup header r.responders,
    )
  ]
