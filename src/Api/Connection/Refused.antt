-- ===== src/Api/Connection/Refused.antt =====
-- `open_channel` of amqprs/src/api/connection.rs for an id that is taken.
use amqprs.Prelude.{
  ℕ, ◌≡◌, refl, sym, ap, subst, ◌∙◌, true, false, ◌==◌, [], ◌∷◌, none, some, is_some, inl, inr,
  done, arith, nat_eq,
}
use amqprs.Prelude.Map.{lookup}
use amqprs.Net.ChannelIdRepo.Laws.{Covers}
use amqprs.Net.ChannelManager.{new_resource}
use amqprs.Net.ChannelManager.Invariant.{Inv, insert_resource-requested}
use amqprs.Net.ReaderHandler.{Parties, register_channel_resource, to_acker_id}
use amqprs.Net.ReaderHandler.Loop.{command, Reading, handle_command, step, run, Run}
use amqprs.Api.Dispatcher.{Peers}
use amqprs.Api.Call.{Caller, World, channel_open_error, failed, managed}
use amqprs.Api.Connection.Calls.{register_resource, open_channel}
use amqprs.Api.Connection.Channels.{Among, first, ConnHears}

module _ {Q : Parties} where
  -- The reader keeps the resource that it has.
  pub run-refused :
      (max_interval now id : ℕ) (r : Reading Q) (acker : Q.Acker) (dispatcher : Q.Dispatcher)
      → Inv r.handler.channel_manager
      → Covers r.handler.channel_manager.channel_id_repo id
      → is_some (lookup id r.handler.channel_manager.resource) ≡ true
      → Q.acker_open now acker ≡ true
      → run max_interval
          (command now (register_channel_resource (some id) acker (new_resource (some dispatcher)))
            ∷ [])
          r
        ≡ done (record { last = r; outputs = to_acker_id acker none ∷ []; shutdown = none })
  unfolding run step handle_command
  run-refused max_interval now id r acker dispatcher v c busy a =
      let manager = r.handler.channel_manager in
      elim (insert_resource-requested manager v id (new_resource (some dispatcher)) c) [
        | inl (there, e) ↦ rw (e, a) refl
        | inr (m', free, e, i) ↦ absurd (cc (busy, free))
      ]

module _ {P : Peers} {Q : Parties} where
  -- For an id that is taken, under the invariant of the reader, the reader keeps its state and
  -- open_channel fails with an error of opening a channel, having sent nothing but the
  -- registration.
  pub open_channel-refused :
      (max_interval now id : ℕ) (r : Reading Q) (w : World P Q) (c : Caller P Q) (run_now : Run Q)
      → Inv r.handler.channel_manager
      → Covers r.handler.channel_manager.channel_id_repo id
      → is_some (lookup id r.handler.channel_manager.resource) ≡ true
      → Q.acker_open now (w.conn_acker c.log) ≡ true
      → w.takes_management c.log ≡ true
      → run max_interval
          (command now (
              register_channel_resource
                (some id)
                (w.conn_acker c.log)
                (new_resource (some (w.dispatcher c.log))))
            ∷ [])
          r
        ≡ done run_now
      → ConnHears w run_now.outputs
      → (run_now.last ≡ r)
        × (open_channel (some id) w c
            ≡ failed channel_open_error (record c {
              log =
                  managed (
                    register_channel_resource
                      (some id)
                      (w.conn_acker c.log)
                      (new_resource (some (w.dispatcher c.log))))
                  ∷ c.log;
            }))
  unfolding open_channel register_resource
  open_channel-refused max_interval now id r w c run_now v covered busy a manages ran hears =
      let acker = w.conn_acker c.log in
      let dispatcher = w.dispatcher c.log in
      let same = sym ran ∙ run-refused max_interval now id r acker dispatcher v covered busy a in
      let whole : run_now
          ≡ record { last = r; outputs = to_acker_id acker none ∷ []; shutdown = none } =
        cc same in
      let out = ap (λ (x : Run Q). x.outputs) whole in
      let not_zero : (id == 0) ≡ false = ground (arith, covered.0) in
      let granted =
        hears.ids
          (managed (register_channel_resource (some id) acker (new_resource (some dispatcher)))
            ∷ c.log)
          acker none (subst (Among (to_acker_id acker none)) (sym out) (first _)) in
      (ap (λ (x : Run Q). x.last) whole, rw (not_zero, manages, granted) refl)
