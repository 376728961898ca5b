-- ===== src/Api/Channel/Flags.antt =====
-- The byte of flags of the requests in amqprs/src/api/channel: exchange.rs, queue.rs and basic.rs.
use amqprs.Prelude.{
  ℕ, ◌+◌, ◌≡◌, refl, ap, arith, Bool, true, false, ◌&&◌, ◌==◌, ==_iff, if◌then◌else◌,
}
use amqprs.Frame.Flags.{set_flag}
use amqprs.Frame.Method.Exchange.{
  Declare, declare_set_passive, declare_set_durable, declare_set_auto_delete, declare_set_internal,
  declare_set_no_wait, Delete, delete_set_if_unused, delete_set_no_wait,
}
use amqprs.Frame.Method.Queue.{
  DeclareQueue, declare_queue_set_passive, declare_queue_set_durable, declare_queue_set_exclusive,
  declare_queue_set_auto_delete, declare_queue_set_no_wait, DeleteQueue, delete_queue_set_if_unused,
  delete_queue_set_if_empty, delete_queue_set_no_wait,
}
use amqprs.Frame.Method.Basic.{
  Consume, consume_set_no_local, consume_set_no_ack, consume_set_exclusive, consume_set_nowait,
  Nack, nack_set_multiple, nack_set_requeue, Publish, publish_set_mandatory, publish_set_immediate,
}
use amqprs.Api.Channel.Exchange.{
  ExchangeDeclareArguments, declare_flags, ExchangeDeleteArguments, delete_flags,
}
use amqprs.Api.Channel.Queue.{
  QueueDeclareArguments, declare_queue_flags, QueueDeleteArguments, delete_queue_flags,
}
use amqprs.Api.Channel.Basic.{BasicNackArguments, nack_flags, BasicPublishArguments, publish_flags}
use amqprs.Api.Channel.Consume.{BasicConsumeArguments, consume_flags}

-- A test that holds of both truth values holds of every one.
abbrev both : (Bool → Bool) → Bool
both p = p true && p false

abbrev both₂ : (Bool → Bool → Bool) → Bool
both₂ p = both (λ a. both (p a))

abbrev both₃ : (Bool → Bool → Bool → Bool) → Bool
both₃ p = both (λ a. both₂ (p a))

abbrev both₄ : (Bool → Bool → Bool → Bool → Bool) → Bool
both₄ p = both (λ a. both₃ (p a))

abbrev both₅ : (Bool → Bool → Bool → Bool → Bool → Bool) → Bool
both₅ p = both (λ a. both₄ (p a))

both_sound : (p : Bool → Bool) (a : Bool) → both p ≡ true → p a ≡ true
both_sound p true h = ground arith
both_sound p false h = ground arith

both₂-sound : (p : Bool → Bool → Bool) (a b : Bool) → both₂ p ≡ true → p a b ≡ true
both₂-sound p a b h = both_sound (p a) b (both_sound (λ x. both (p x)) a h)

both₃-sound : (p : Bool → Bool → Bool → Bool) (a b c : Bool) → both₃ p ≡ true → p a b c ≡ true
both₃-sound p a b c h = both₂-sound (p a) b c (both_sound (λ x. both₂ (p x)) a h)

both₄-sound :
    (p : Bool → Bool → Bool → Bool → Bool) (a b c d : Bool) → both₄ p ≡ true → p a b c d ≡ true
both₄-sound p a b c d h = both₃-sound (p a) b c d (both_sound (λ x. both₃ (p x)) a h)

both₅-sound :
    (p : Bool → Bool → Bool → Bool → Bool → Bool) (a b c d e : Bool)
    → both₅ p ≡ true
    → p a b c d e ≡ true
both₅-sound p a b c d e h = both₄-sound (p a) b c d e (both_sound (λ x. both₄ (p x)) a h)

-- The weight of a flag that is set.
abbrev pub weight : ℕ → Bool → ℕ
weight n b = if b then n else 0

abbrev sum₂ : Bool → Bool → ℕ
sum₂ a b = weight 1 a + weight 2 b

abbrev sum₃ : Bool → Bool → Bool → ℕ
sum₃ a b c = weight 1 a + (weight 2 b + weight 4 c)

abbrev sum₄ : Bool → Bool → Bool → Bool → ℕ
sum₄ a b c d = weight 1 a + (weight 2 b + (weight 4 c + weight 8 d))

abbrev sum₅ : Bool → Bool → Bool → Bool → Bool → ℕ
sum₅ a b c d e = weight 1 a + (weight 2 b + (weight 4 c + (weight 8 d + weight 16 e)))

two : (a b : Bool) → set_flag (set_flag 0 1 a) 2 b ≡ sum₂ a b
unfolding set_flag
two a b = (==_iff _ _).0 (both₂-sound (λ a b. set_flag (set_flag 0 1 a) 2 b == sum₂ a b) a b refl)

three : (a b c : Bool) → set_flag (set_flag (set_flag 0 1 a) 2 b) 4 c ≡ sum₃ a b c
unfolding set_flag
three a b c =
    (==_iff _ _).0
      (both₃-sound (λ a b c. set_flag (set_flag (set_flag 0 1 a) 2 b) 4 c == sum₃ a b c) a b c refl)

four : (a b c d : Bool) → set_flag (set_flag (set_flag (set_flag 0 1 a) 2 b) 4 c) 8 d ≡ sum₄ a b c d
unfolding set_flag
four a b c d = (==_iff _ _).0 (
    both₄-sound
      (λ a b c d. set_flag (set_flag (set_flag (set_flag 0 1 a) 2 b) 4 c) 8 d == sum₄ a b c d) a b c
      d refl)

five :
    (a b c d e : Bool)
    → set_flag (set_flag (set_flag (set_flag (set_flag 0 1 a) 2 b) 4 c) 8 d) 16 e ≡ sum₅ a b c d e
unfolding set_flag
five a b c d e = (==_iff _ _).0 (
    both₅-sound
      (λ a b c d e.
        set_flag (set_flag (set_flag (set_flag (set_flag 0 1 a) 2 b) 4 c) 8 d) 16 e
        == sum₅ a b c d e)
      a b c d e refl)

pub publish_flags_lem :
    (bp : BasicPublishArguments) (publish : Publish)
    → publish_flags bp (record publish { bits = 0 })
      ≡ record publish { bits = weight 1 bp.mandatory + weight 2 bp.immediate }
unfolding publish_set_mandatory publish_set_immediate
publish_flags_lem bp publish =
    ap (λ (b : ℕ). record publish { bits = b }) (two bp.mandatory bp.immediate)

-- In each request with flags, the byte of flags is the sum of the weights 1, 2, 4, 8, 16 of the
-- flags that the arguments set, in the order of the protocol.
pub requests-flags :
    (ed : ExchangeDeclareArguments) (ex : ExchangeDeleteArguments) (qd : QueueDeclareArguments)
    (qx : QueueDeleteArguments) (bc : BasicConsumeArguments) (bn : BasicNackArguments)
    (bp : BasicPublishArguments) (declare : Declare) (delete : Delete)
    (declare_queue : DeclareQueue) (delete_queue : DeleteQueue) (consume : Consume) (nack : Nack)
    (publish : Publish)
    → (declare_flags ed (record declare { bits = 0 }) ≡ record declare {
      bits =
          weight 1 ed.passive
          + (weight 2 ed.durable
              + (weight 4 ed.auto_delete + (weight 8 ed.internal + weight 16 ed.no_wait)));
    })
      × (delete_flags ex (record delete { bits = 0 })
          ≡ record delete { bits = weight 1 ex.if_unused + weight 2 ex.no_wait })
      × (declare_queue_flags qd (record declare_queue { bits = 0 }) ≡ record declare_queue {
        bits =
            weight 1 qd.passive
            + (weight 2 qd.durable
                + (weight 4 qd.exclusive + (weight 8 qd.auto_delete + weight 16 qd.no_wait)));
      })
      × (delete_queue_flags qx (record delete_queue { bits = 0 }) ≡ record delete_queue {
        bits = weight 1 qx.if_unused + (weight 2 qx.if_empty + weight 4 qx.no_wait);
      })
      × (consume_flags bc (record consume { bits = 0 }) ≡ record consume {
        bits =
            weight 1 bc.no_local
            + (weight 2 bc.no_ack + (weight 4 bc.exclusive + weight 8 bc.no_wait));
      })
      × (nack_flags bn (record nack { bits = 0 })
          ≡ record nack { bits = weight 1 bn.multiple + weight 2 bn.requeue })
      × (publish_flags bp (record publish { bits = 0 })
          ≡ record publish { bits = weight 1 bp.mandatory + weight 2 bp.immediate })
unfolding declare_set_passive declare_set_durable declare_set_auto_delete declare_set_internal
    declare_set_no_wait delete_set_if_unused delete_set_no_wait declare_queue_set_passive
    declare_queue_set_durable declare_queue_set_exclusive declare_queue_set_auto_delete
    declare_queue_set_no_wait delete_queue_set_if_unused delete_queue_set_if_empty
    delete_queue_set_no_wait consume_set_no_local consume_set_no_ack consume_set_exclusive
    consume_set_nowait nack_set_multiple nack_set_requeue publish_set_mandatory
    publish_set_immediate
requests-flags ed ex qd qx bc bn bp declare delete declare_queue delete_queue consume nack publish =
    (
      ap (λ (b : ℕ). record declare { bits = b })
          (five ed.passive ed.durable ed.auto_delete ed.internal ed.no_wait),
      ap (λ (b : ℕ). record delete { bits = b }) (two ex.if_unused ex.no_wait),
      ap (λ (b : ℕ). record declare_queue { bits = b })
          (five qd.passive qd.durable qd.exclusive qd.auto_delete qd.no_wait),
      ap (λ (b : ℕ). record delete_queue { bits = b }) (three qx.if_unused qx.if_empty qx.no_wait),
      ap (λ (b : ℕ). record consume { bits = b })
          (four bc.no_local bc.no_ack bc.exclusive bc.no_wait),
      ap (λ (b : ℕ). record nack { bits = b }) (two bn.multiple bn.requeue),
      publish_flags_lem bp publish,
    )
