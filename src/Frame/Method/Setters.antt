-- ===== src/Frame/Method/Setters.antt =====
-- The setters of amqprs/src/frame/method that pack flags into an octet: each writes its own bit.
use amqprs.Prelude.{◌<◌, Bool, arith}
use amqprs.Frame.Flags.{SetsBit, set_flag-SetsBit}
use amqprs.Frame.Method.Basic.{
  Consume, consume_set_no_local, consume_set_no_ack, consume_set_exclusive, consume_set_nowait,
}
use amqprs.Frame.Method.Basic.{Publish, publish_set_mandatory, publish_set_immediate}
use amqprs.Frame.Method.Basic.{Nack, nack_set_multiple, nack_set_requeue}
use amqprs.Frame.Method.Exchange.{
  Declare, declare_set_passive, declare_set_durable, declare_set_auto_delete, declare_set_internal,
  declare_set_no_wait,
}
use amqprs.Frame.Method.Exchange.{Delete, delete_set_if_unused, delete_set_no_wait}
use amqprs.Frame.Method.Queue.{
  DeclareQueue, declare_queue_set_passive, declare_queue_set_durable, declare_queue_set_auto_delete,
  declare_queue_set_exclusive, declare_queue_set_no_wait,
}
use amqprs.Frame.Method.Queue.{
  DeleteQueue, delete_queue_set_if_unused, delete_queue_set_if_empty, delete_queue_set_no_wait,
}

-- The setters no_local, no_ack, exclusive and nowait of Consume each set or clear one bit of the
-- flags, a different one each, change no other bit, and leave an octet, if the flags are one.
pub consume_setters-SetsBit :
    (m : Consume) (value : Bool)
    → m.bits < 256
    → SetsBit m.bits (consume_set_no_local m value).bits 7 value
      × SetsBit m.bits (consume_set_no_ack m value).bits 6 value
      × SetsBit m.bits (consume_set_exclusive m value).bits 5 value
      × SetsBit m.bits (consume_set_nowait m value).bits 4 value
unfolding consume_set_no_local consume_set_no_ack consume_set_exclusive consume_set_nowait
consume_setters-SetsBit m value h = (
  set_flag-SetsBit m.bits 7 value h (omega arith),
  set_flag-SetsBit m.bits 6 value h (omega arith),
  set_flag-SetsBit m.bits 5 value h (omega arith),
  set_flag-SetsBit m.bits 4 value h (omega arith),
)

-- The setters mandatory and immediate of Publish each set or clear one bit of the flags, and change no other.
pub publish_setters-SetsBit :
    (m : Publish) (value : Bool)
    → m.bits < 256
    → SetsBit m.bits (publish_set_mandatory m value).bits 7 value
      × SetsBit m.bits (publish_set_immediate m value).bits 6 value
unfolding publish_set_mandatory publish_set_immediate
publish_setters-SetsBit m value h = (
  set_flag-SetsBit m.bits 7 value h (omega arith),
  set_flag-SetsBit m.bits 6 value h (omega arith),
)

-- The setters multiple and requeue of Nack each set or clear one bit of the flags, and change no other.
pub nack_setters-SetsBit :
    (m : Nack) (value : Bool)
    → m.bits < 256
    → SetsBit m.bits (nack_set_multiple m value).bits 7 value
      × SetsBit m.bits (nack_set_requeue m value).bits 6 value
unfolding nack_set_multiple nack_set_requeue
nack_setters-SetsBit m value h = (
  set_flag-SetsBit m.bits 7 value h (omega arith),
  set_flag-SetsBit m.bits 6 value h (omega arith),
)

-- The setters passive, durable, auto_delete, internal and no_wait of Declare each set or clear one
-- bit of the flags, a different one each, change no other bit, and leave an octet, if the flags
-- are one.
pub declare_setters-SetsBit :
    (m : Declare) (value : Bool)
    → m.bits < 256
    → SetsBit m.bits (declare_set_passive m value).bits 7 value
      × SetsBit m.bits (declare_set_durable m value).bits 6 value
      × SetsBit m.bits (declare_set_auto_delete m value).bits 5 value
      × SetsBit m.bits (declare_set_internal m value).bits 4 value
      × SetsBit m.bits (declare_set_no_wait m value).bits 3 value
unfolding declare_set_passive declare_set_durable declare_set_auto_delete declare_set_internal
    declare_set_no_wait
declare_setters-SetsBit m value h = (
  set_flag-SetsBit m.bits 7 value h (omega arith),
  set_flag-SetsBit m.bits 6 value h (omega arith),
  set_flag-SetsBit m.bits 5 value h (omega arith),
  set_flag-SetsBit m.bits 4 value h (omega arith),
  set_flag-SetsBit m.bits 3 value h (omega arith),
)

-- The setters if_unused and no_wait of Delete each set or clear one bit of the flags, and change no other.
pub delete_setters-SetsBit :
    (m : Delete) (value : Bool)
    → m.bits < 256
    → SetsBit m.bits (delete_set_if_unused m value).bits 7 value
      × SetsBit m.bits (delete_set_no_wait m value).bits 6 value
unfolding delete_set_if_unused delete_set_no_wait
delete_setters-SetsBit m value h = (
  set_flag-SetsBit m.bits 7 value h (omega arith),
  set_flag-SetsBit m.bits 6 value h (omega arith),
)

-- The setters passive, durable, auto_delete, exclusive and no_wait of DeclareQueue each set or
-- clear one bit of the flags, a different one each, change no other bit, and leave an octet, if
-- the flags are one.
pub declare_queue_setters-SetsBit :
    (m : DeclareQueue) (value : Bool)
    → m.bits < 256
    → SetsBit m.bits (declare_queue_set_passive m value).bits 7 value
      × SetsBit m.bits (declare_queue_set_durable m value).bits 6 value
      × SetsBit m.bits (declare_queue_set_auto_delete m value).bits 4 value
      × SetsBit m.bits (declare_queue_set_exclusive m value).bits 5 value
      × SetsBit m.bits (declare_queue_set_no_wait m value).bits 3 value
unfolding declare_queue_set_passive declare_queue_set_durable declare_queue_set_auto_delete
    declare_queue_set_exclusive declare_queue_set_no_wait
declare_queue_setters-SetsBit m value h = (
  set_flag-SetsBit m.bits 7 value h (omega arith),
  set_flag-SetsBit m.bits 6 value h (omega arith),
  set_flag-SetsBit m.bits 4 value h (omega arith),
  set_flag-SetsBit m.bits 5 value h (omega arith),
  set_flag-SetsBit m.bits 3 value h (omega arith),
)

-- The setters if_unused, if_empty and no_wait of DeleteQueue each set or clear one bit of the
-- flags, a different one each, change no other bit, and leave an octet, if the flags are one.
pub delete_queue_setters-SetsBit :
    (m : DeleteQueue) (value : Bool)
    → m.bits < 256
    → SetsBit m.bits (delete_queue_set_if_unused m value).bits 7 value
      × SetsBit m.bits (delete_queue_set_if_empty m value).bits 6 value
      × SetsBit m.bits (delete_queue_set_no_wait m value).bits 5 value
unfolding delete_queue_set_if_unused delete_queue_set_if_empty delete_queue_set_no_wait
delete_queue_setters-SetsBit m value h = (
  set_flag-SetsBit m.bits 7 value h (omega arith),
  set_flag-SetsBit m.bits 6 value h (omega arith),
  set_flag-SetsBit m.bits 5 value h (omega arith),
)
