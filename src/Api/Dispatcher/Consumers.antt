-- ===== src/Api/Dispatcher/Consumers.antt =====
-- `ConsumerResource` and the consumer methods of `ChannelDispatcher` in
-- amqprs/src/api/channel/dispatcher.rs. Times are in milliseconds.
use amqprs.Prelude.{
  ℕ, ◌+◌, Bool, false, List, [], ◌∷◌, ◌++◌, Option, none, some, Outcome, done, ◌>>=◌, unwrap, ltb,
  if◌then◌else◌, bytes_eq,
}
use amqprs.Prelude.Map.{lookup, insert, remove}
use amqprs.Frame.Method.Basic.{Return}
use amqprs.Frame.ContentHeader.{BasicProperties}
use amqprs.Api.Dispatcher.{
  Peers, ConsumerMessage, ConsumerResource, ChannelDispatcher, Output, to_consumer,
  call_publish_return,
}

abbrev pub consumer_purge_interval : ℕ
consumer_purge_interval = 10000

abbrev pub consumer_expiry_period : ℕ
consumer_expiry_period = 5000

abbrev pub is_expired : ℕ → Option ℕ → Bool
is_expired now none = false
is_expired now (some expiration) = ltb expiration now

module _ {P : Peers} where
  abbrev pub new_consumer_resource : ℕ → ConsumerResource P
  new_consumer_resource now = record {
    fifo = [];
    tx = none;
    expiration = some (now + consumer_expiry_period);
  }

  -- The old sender, which `replace` returns, is dropped.
  abbrev pub register_tx : P.ConsumerTx → ConsumerResource P → ConsumerResource P
  register_tx t r = record r { tx = some t; expiration = none }

  abbrev pub push_message : ConsumerMessage → ConsumerResource P → ConsumerResource P
  push_message message r = record r { fifo = r.fifo ++ (message ∷ []) }

  abbrev resource_or_new : ℕ → Option (ConsumerResource P) → ConsumerResource P
  resource_or_new now none = new_consumer_resource now
  resource_or_new now (some r) = r

  -- The resource that the returned reference names; `put_consumer_resource` is what the caller
  -- leaves behind it.
  abbrev pub get_or_new_consumer_resource : ℕ → List ℕ → ChannelDispatcher P → ConsumerResource P
  get_or_new_consumer_resource now consumer_tag d =
      resource_or_new now (lookup consumer_tag d.consumer_resources)

  abbrev pub put_consumer_resource :
      List ℕ → ConsumerResource P → ChannelDispatcher P → ChannelDispatcher P
  put_consumer_resource consumer_tag r d = record d {
    consumer_resources = insert consumer_tag r d.consumer_resources;
  }

  unfoldable pub purge_keys : ℕ → List (List ℕ × ConsumerResource P) → List (List ℕ)
  purge_keys now [] = []
  purge_keys now ((k, v) ∷ rest) =
      let keys = purge_keys now rest in if is_expired now v.expiration then k ∷ keys else keys

  unfoldable pub remove_all :
      List (List ℕ) → List (List ℕ × ConsumerResource P) → List (List ℕ × ConsumerResource P)
  remove_all [] resources = resources
  remove_all (key ∷ keys) resources = remove_all keys (remove key resources)

  unfoldable pub purge_consumer_resource : ℕ → ChannelDispatcher P → ChannelDispatcher P
  unfolding purge_keys remove_all
  purge_consumer_resource now d = record d {
    consumer_resources = remove_all (purge_keys now d.consumer_resources) d.consumer_resources;
  }

  -- The resource that is returned is only logged.
  abbrev pub remove_consumer_resource : List ℕ → ChannelDispatcher P → ChannelDispatcher P
  remove_consumer_resource consumer_tag d = record d {
    consumer_resources = remove consumer_tag d.consumer_resources;
  }

  abbrev pub forward :
      Option P.ConsumerTx
      → ConsumerMessage
      → ConsumerResource P
      → ConsumerResource P × List (Output P)
  forward (some t) message r = (r, to_consumer t message ∷ [])
  forward none message r = (push_message message r, [])

  unfoldable pub forward_deliver :
      ℕ → ConsumerMessage → ChannelDispatcher P → Outcome (ChannelDispatcher P × List (Output P))
  forward_deliver now message d = do
    m ← unwrap message.deliver
    let consumer_tag : List ℕ = m.consumer_tag.text in
        let r = get_or_new_consumer_resource now consumer_tag d in
        let (r', out) = forward r.tx message r in
        done (put_consumer_resource consumer_tag r' d, out)

  abbrev pub handle_return : Option P.Callback → Return → BasicProperties → List ℕ → List (Output P)
  handle_return none ret basic_properties content = []
  handle_return (some cb) ret basic_properties content =
      call_publish_return cb ret basic_properties content ∷ []
