-- ===== src/Frame/Methods.antt =====
-- The method variants of the enum `Frame` of amqprs/src/frame/mod.rs, with the headers that
-- `impl_frame!` gives them and what is written for them.
use amqprs.Prelude.{ℕ, List}
use amqprs.Frame.MethodHeader.{MethodHeader}
use amqprs.Serde.Wire.{Wire}
use amqprs.Frame.Method.Connection.{
  Start, start_wire, StartOk, start_ok_wire, Secure, secure_wire, SecureOk, secure_ok_wire, Tune,
  tune_wire, TuneOk, tune_ok_wire, Open, open_wire, OpenOk, open_ok_wire, Close, close_wire,
  CloseOk, close_ok_wire, Blocked, blocked_wire, Unblocked, unblocked_wire, UpdateSecret,
  update_secret_wire, UpdateSecretOk, update_secret_ok_wire,
}
use amqprs.Frame.Method.Channel.{
  OpenChannel, open_channel_wire, OpenChannelOk, open_channel_ok_wire, Flow, flow_wire, FlowOk,
  flow_ok_wire, CloseChannel, close_channel_wire, CloseChannelOk, close_channel_ok_wire,
}
use amqprs.Frame.Method.Exchange.{
  Declare, declare_wire, DeclareOk, declare_ok_wire, Delete, delete_wire, DeleteOk, delete_ok_wire,
  Bind, bind_wire, BindOk, bind_ok_wire, Unbind, unbind_wire, UnbindOk, unbind_ok_wire,
}
use amqprs.Frame.Method.Queue.{
  DeclareQueue, declare_queue_wire, DeclareQueueOk, declare_queue_ok_wire, BindQueue,
  bind_queue_wire, BindQueueOk, bind_queue_ok_wire, PurgeQueue, purge_queue_wire, PurgeQueueOk,
  purge_queue_ok_wire, DeleteQueue, delete_queue_wire, DeleteQueueOk, delete_queue_ok_wire,
  UnbindQueue, unbind_queue_wire, UnbindQueueOk, unbind_queue_ok_wire,
}
use amqprs.Frame.Method.Basic.{
  Qos, qos_wire, QosOk, qos_ok_wire, Consume, consume_wire, ConsumeOk, consume_ok_wire, Cancel,
  cancel_wire, CancelOk, cancel_ok_wire, Publish, publish_wire, Return, return_wire, Deliver,
  deliver_wire, Get, get_wire, GetOk, get_ok_wire, GetEmpty, get_empty_wire, Ack, ack_wire, Reject,
  reject_wire, Recover, recover_wire, RecoverOk, recover_ok_wire, Nack, nack_wire,
}
use amqprs.Frame.Method.Confirm.{Select, select_wire, SelectOk, select_ok_wire}
use amqprs.Frame.Method.Tx.{
  TxSelect, tx_select_wire, TxSelectOk, tx_select_ok_wire, TxCommit, tx_commit_wire, TxCommitOk,
  tx_commit_ok_wire, TxRollback, tx_rollback_wire, TxRollbackOk, tx_rollback_ok_wire,
}

pub data Method : Type 0 where
  start : Start → Method
  start_ok : StartOk → Method
  secure : Secure → Method
  secure_ok : SecureOk → Method
  tune : Tune → Method
  tune_ok : TuneOk → Method
  open_connection : Open → Method
  open_ok : OpenOk → Method
  close : Close → Method
  close_ok : CloseOk → Method
  blocked : Blocked → Method
  unblocked : Unblocked → Method
  update_secret : UpdateSecret → Method
  update_secret_ok : UpdateSecretOk → Method
  open_channel : OpenChannel → Method
  open_channel_ok : OpenChannelOk → Method
  flow : Flow → Method
  flow_ok : FlowOk → Method
  close_channel : CloseChannel → Method
  close_channel_ok : CloseChannelOk → Method
  declare : Declare → Method
  declare_ok : DeclareOk → Method
  delete : Delete → Method
  delete_ok : DeleteOk → Method
  bind : Bind → Method
  bind_ok : BindOk → Method
  unbind : Unbind → Method
  unbind_ok : UnbindOk → Method
  declare_queue : DeclareQueue → Method
  declare_queue_ok : DeclareQueueOk → Method
  bind_queue : BindQueue → Method
  bind_queue_ok : BindQueueOk → Method
  purge_queue : PurgeQueue → Method
  purge_queue_ok : PurgeQueueOk → Method
  delete_queue : DeleteQueue → Method
  delete_queue_ok : DeleteQueueOk → Method
  unbind_queue : UnbindQueue → Method
  unbind_queue_ok : UnbindQueueOk → Method
  qos : Qos → Method
  qos_ok : QosOk → Method
  consume : Consume → Method
  consume_ok : ConsumeOk → Method
  cancel : Cancel → Method
  cancel_ok : CancelOk → Method
  publish : Publish → Method
  return : Return → Method
  deliver : Deliver → Method
  get : Get → Method
  get_ok : GetOk → Method
  get_empty : GetEmpty → Method
  ack : Ack → Method
  reject : Reject → Method
  recover : Recover → Method
  recover_ok : RecoverOk → Method
  nack : Nack → Method
  select : Select → Method
  select_ok : SelectOk → Method
  tx_select : TxSelect → Method
  tx_select_ok : TxSelectOk → Method
  tx_commit : TxCommit → Method
  tx_commit_ok : TxCommitOk → Method
  tx_rollback : TxRollback → Method
  tx_rollback_ok : TxRollbackOk → Method

-- `header` of the method.
unfoldable pub method_header : Method → MethodHeader
method_header (start _) = record { class_id = 10; method_id = 10 }
method_header (start_ok _) = record { class_id = 10; method_id = 11 }
method_header (secure _) = record { class_id = 10; method_id = 20 }
method_header (secure_ok _) = record { class_id = 10; method_id = 21 }
method_header (tune _) = record { class_id = 10; method_id = 30 }
method_header (tune_ok _) = record { class_id = 10; method_id = 31 }
method_header (open_connection _) = record { class_id = 10; method_id = 40 }
method_header (open_ok _) = record { class_id = 10; method_id = 41 }
method_header (close _) = record { class_id = 10; method_id = 50 }
method_header (close_ok _) = record { class_id = 10; method_id = 51 }
method_header (blocked _) = record { class_id = 10; method_id = 60 }
method_header (unblocked _) = record { class_id = 10; method_id = 61 }
method_header (update_secret _) = record { class_id = 10; method_id = 70 }
method_header (update_secret_ok _) = record { class_id = 10; method_id = 71 }
method_header (open_channel _) = record { class_id = 20; method_id = 10 }
method_header (open_channel_ok _) = record { class_id = 20; method_id = 11 }
method_header (flow _) = record { class_id = 20; method_id = 20 }
method_header (flow_ok _) = record { class_id = 20; method_id = 21 }
method_header (close_channel _) = record { class_id = 20; method_id = 40 }
method_header (close_channel_ok _) = record { class_id = 20; method_id = 41 }
method_header (declare _) = record { class_id = 40; method_id = 10 }
method_header (declare_ok _) = record { class_id = 40; method_id = 11 }
method_header (delete _) = record { class_id = 40; method_id = 20 }
method_header (delete_ok _) = record { class_id = 40; method_id = 21 }
method_header (bind _) = record { class_id = 40; method_id = 30 }
method_header (bind_ok _) = record { class_id = 40; method_id = 31 }
method_header (unbind _) = record { class_id = 40; method_id = 40 }
method_header (unbind_ok _) = record { class_id = 40; method_id = 51 }
method_header (declare_queue _) = record { class_id = 50; method_id = 10 }
method_header (declare_queue_ok _) = record { class_id = 50; method_id = 11 }
method_header (bind_queue _) = record { class_id = 50; method_id = 20 }
method_header (bind_queue_ok _) = record { class_id = 50; method_id = 21 }
method_header (purge_queue _) = record { class_id = 50; method_id = 30 }
method_header (purge_queue_ok _) = record { class_id = 50; method_id = 31 }
method_header (delete_queue _) = record { class_id = 50; method_id = 40 }
method_header (delete_queue_ok _) = record { class_id = 50; method_id = 41 }
method_header (unbind_queue _) = record { class_id = 50; method_id = 50 }
method_header (unbind_queue_ok _) = record { class_id = 50; method_id = 51 }
method_header (qos _) = record { class_id = 60; method_id = 10 }
method_header (qos_ok _) = record { class_id = 60; method_id = 11 }
method_header (consume _) = record { class_id = 60; method_id = 20 }
method_header (consume_ok _) = record { class_id = 60; method_id = 21 }
method_header (cancel _) = record { class_id = 60; method_id = 30 }
method_header (cancel_ok _) = record { class_id = 60; method_id = 31 }
method_header (publish _) = record { class_id = 60; method_id = 40 }
method_header (return _) = record { class_id = 60; method_id = 50 }
method_header (deliver _) = record { class_id = 60; method_id = 60 }
method_header (get _) = record { class_id = 60; method_id = 70 }
method_header (get_ok _) = record { class_id = 60; method_id = 71 }
method_header (get_empty _) = record { class_id = 60; method_id = 72 }
method_header (ack _) = record { class_id = 60; method_id = 80 }
method_header (reject _) = record { class_id = 60; method_id = 90 }
method_header (recover _) = record { class_id = 60; method_id = 110 }
method_header (recover_ok _) = record { class_id = 60; method_id = 111 }
method_header (nack _) = record { class_id = 60; method_id = 120 }
method_header (select _) = record { class_id = 85; method_id = 10 }
method_header (select_ok _) = record { class_id = 85; method_id = 11 }
method_header (tx_select _) = record { class_id = 90; method_id = 10 }
method_header (tx_select_ok _) = record { class_id = 90; method_id = 11 }
method_header (tx_commit _) = record { class_id = 90; method_id = 20 }
method_header (tx_commit_ok _) = record { class_id = 90; method_id = 21 }
method_header (tx_rollback _) = record { class_id = 90; method_id = 30 }
method_header (tx_rollback_ok _) = record { class_id = 90; method_id = 31 }

-- The arguments, behind the header.
unfoldable pub ser_arguments : Method → List ℕ
ser_arguments (start a) = Wire.ser start_wire a
ser_arguments (start_ok a) = Wire.ser start_ok_wire a
ser_arguments (secure a) = Wire.ser secure_wire a
ser_arguments (secure_ok a) = Wire.ser secure_ok_wire a
ser_arguments (tune a) = Wire.ser tune_wire a
ser_arguments (tune_ok a) = Wire.ser tune_ok_wire a
ser_arguments (open_connection a) = Wire.ser open_wire a
ser_arguments (open_ok a) = Wire.ser open_ok_wire a
ser_arguments (close a) = Wire.ser close_wire a
ser_arguments (close_ok a) = Wire.ser close_ok_wire a
ser_arguments (blocked a) = Wire.ser blocked_wire a
ser_arguments (unblocked a) = Wire.ser unblocked_wire a
ser_arguments (update_secret a) = Wire.ser update_secret_wire a
ser_arguments (update_secret_ok a) = Wire.ser update_secret_ok_wire a
ser_arguments (open_channel a) = Wire.ser open_channel_wire a
ser_arguments (open_channel_ok a) = Wire.ser open_channel_ok_wire a
ser_arguments (flow a) = Wire.ser flow_wire a
ser_arguments (flow_ok a) = Wire.ser flow_ok_wire a
ser_arguments (close_channel a) = Wire.ser close_channel_wire a
ser_arguments (close_channel_ok a) = Wire.ser close_channel_ok_wire a
ser_arguments (declare a) = Wire.ser declare_wire a
ser_arguments (declare_ok a) = Wire.ser declare_ok_wire a
ser_arguments (delete a) = Wire.ser delete_wire a
ser_arguments (delete_ok a) = Wire.ser delete_ok_wire a
ser_arguments (bind a) = Wire.ser bind_wire a
ser_arguments (bind_ok a) = Wire.ser bind_ok_wire a
ser_arguments (unbind a) = Wire.ser unbind_wire a
ser_arguments (unbind_ok a) = Wire.ser unbind_ok_wire a
ser_arguments (declare_queue a) = Wire.ser declare_queue_wire a
ser_arguments (declare_queue_ok a) = Wire.ser declare_queue_ok_wire a
ser_arguments (bind_queue a) = Wire.ser bind_queue_wire a
ser_arguments (bind_queue_ok a) = Wire.ser bind_queue_ok_wire a
ser_arguments (purge_queue a) = Wire.ser purge_queue_wire a
ser_arguments (purge_queue_ok a) = Wire.ser purge_queue_ok_wire a
ser_arguments (delete_queue a) = Wire.ser delete_queue_wire a
ser_arguments (delete_queue_ok a) = Wire.ser delete_queue_ok_wire a
ser_arguments (unbind_queue a) = Wire.ser unbind_queue_wire a
ser_arguments (unbind_queue_ok a) = Wire.ser unbind_queue_ok_wire a
ser_arguments (qos a) = Wire.ser qos_wire a
ser_arguments (qos_ok a) = Wire.ser qos_ok_wire a
ser_arguments (consume a) = Wire.ser consume_wire a
ser_arguments (consume_ok a) = Wire.ser consume_ok_wire a
ser_arguments (cancel a) = Wire.ser cancel_wire a
ser_arguments (cancel_ok a) = Wire.ser cancel_ok_wire a
ser_arguments (publish a) = Wire.ser publish_wire a
ser_arguments (return a) = Wire.ser return_wire a
ser_arguments (deliver a) = Wire.ser deliver_wire a
ser_arguments (get a) = Wire.ser get_wire a
ser_arguments (get_ok a) = Wire.ser get_ok_wire a
ser_arguments (get_empty a) = Wire.ser get_empty_wire a
ser_arguments (ack a) = Wire.ser ack_wire a
ser_arguments (reject a) = Wire.ser reject_wire a
ser_arguments (recover a) = Wire.ser recover_wire a
ser_arguments (recover_ok a) = Wire.ser recover_ok_wire a
ser_arguments (nack a) = Wire.ser nack_wire a
ser_arguments (select a) = Wire.ser select_wire a
ser_arguments (select_ok a) = Wire.ser select_ok_wire a
ser_arguments (tx_select a) = Wire.ser tx_select_wire a
ser_arguments (tx_select_ok a) = Wire.ser tx_select_ok_wire a
ser_arguments (tx_commit a) = Wire.ser tx_commit_wire a
ser_arguments (tx_commit_ok a) = Wire.ser tx_commit_ok_wire a
ser_arguments (tx_rollback a) = Wire.ser tx_rollback_wire a
ser_arguments (tx_rollback_ok a) = Wire.ser tx_rollback_ok_wire a

-- The arguments fit their fields.
abbrev pub ArgumentsFit : Method → Type 0
ArgumentsFit (start a) = Wire.Fits start_wire a
ArgumentsFit (start_ok a) = Wire.Fits start_ok_wire a
ArgumentsFit (secure a) = Wire.Fits secure_wire a
ArgumentsFit (secure_ok a) = Wire.Fits secure_ok_wire a
ArgumentsFit (tune a) = Wire.Fits tune_wire a
ArgumentsFit (tune_ok a) = Wire.Fits tune_ok_wire a
ArgumentsFit (open_connection a) = Wire.Fits open_wire a
ArgumentsFit (open_ok a) = Wire.Fits open_ok_wire a
ArgumentsFit (close a) = Wire.Fits close_wire a
ArgumentsFit (close_ok a) = Wire.Fits close_ok_wire a
ArgumentsFit (blocked a) = Wire.Fits blocked_wire a
ArgumentsFit (unblocked a) = Wire.Fits unblocked_wire a
ArgumentsFit (update_secret a) = Wire.Fits update_secret_wire a
ArgumentsFit (update_secret_ok a) = Wire.Fits update_secret_ok_wire a
ArgumentsFit (open_channel a) = Wire.Fits open_channel_wire a
ArgumentsFit (open_channel_ok a) = Wire.Fits open_channel_ok_wire a
ArgumentsFit (flow a) = Wire.Fits flow_wire a
ArgumentsFit (flow_ok a) = Wire.Fits flow_ok_wire a
ArgumentsFit (close_channel a) = Wire.Fits close_channel_wire a
ArgumentsFit (close_channel_ok a) = Wire.Fits close_channel_ok_wire a
ArgumentsFit (declare a) = Wire.Fits declare_wire a
ArgumentsFit (declare_ok a) = Wire.Fits declare_ok_wire a
ArgumentsFit (delete a) = Wire.Fits delete_wire a
ArgumentsFit (delete_ok a) = Wire.Fits delete_ok_wire a
ArgumentsFit (bind a) = Wire.Fits bind_wire a
ArgumentsFit (bind_ok a) = Wire.Fits bind_ok_wire a
ArgumentsFit (unbind a) = Wire.Fits unbind_wire a
ArgumentsFit (unbind_ok a) = Wire.Fits unbind_ok_wire a
ArgumentsFit (declare_queue a) = Wire.Fits declare_queue_wire a
ArgumentsFit (declare_queue_ok a) = Wire.Fits declare_queue_ok_wire a
ArgumentsFit (bind_queue a) = Wire.Fits bind_queue_wire a
ArgumentsFit (bind_queue_ok a) = Wire.Fits bind_queue_ok_wire a
ArgumentsFit (purge_queue a) = Wire.Fits purge_queue_wire a
ArgumentsFit (purge_queue_ok a) = Wire.Fits purge_queue_ok_wire a
ArgumentsFit (delete_queue a) = Wire.Fits delete_queue_wire a
ArgumentsFit (delete_queue_ok a) = Wire.Fits delete_queue_ok_wire a
ArgumentsFit (unbind_queue a) = Wire.Fits unbind_queue_wire a
ArgumentsFit (unbind_queue_ok a) = Wire.Fits unbind_queue_ok_wire a
ArgumentsFit (qos a) = Wire.Fits qos_wire a
ArgumentsFit (qos_ok a) = Wire.Fits qos_ok_wire a
ArgumentsFit (consume a) = Wire.Fits consume_wire a
ArgumentsFit (consume_ok a) = Wire.Fits consume_ok_wire a
ArgumentsFit (cancel a) = Wire.Fits cancel_wire a
ArgumentsFit (cancel_ok a) = Wire.Fits cancel_ok_wire a
ArgumentsFit (publish a) = Wire.Fits publish_wire a
ArgumentsFit (return a) = Wire.Fits return_wire a
ArgumentsFit (deliver a) = Wire.Fits deliver_wire a
ArgumentsFit (get a) = Wire.Fits get_wire a
ArgumentsFit (get_ok a) = Wire.Fits get_ok_wire a
ArgumentsFit (get_empty a) = Wire.Fits get_empty_wire a
ArgumentsFit (ack a) = Wire.Fits ack_wire a
ArgumentsFit (reject a) = Wire.Fits reject_wire a
ArgumentsFit (recover a) = Wire.Fits recover_wire a
ArgumentsFit (recover_ok a) = Wire.Fits recover_ok_wire a
ArgumentsFit (nack a) = Wire.Fits nack_wire a
ArgumentsFit (select a) = Wire.Fits select_wire a
ArgumentsFit (select_ok a) = Wire.Fits select_ok_wire a
ArgumentsFit (tx_select a) = Wire.Fits tx_select_wire a
ArgumentsFit (tx_select_ok a) = Wire.Fits tx_select_ok_wire a
ArgumentsFit (tx_commit a) = Wire.Fits tx_commit_wire a
ArgumentsFit (tx_commit_ok a) = Wire.Fits tx_commit_ok_wire a
ArgumentsFit (tx_rollback a) = Wire.Fits tx_rollback_wire a
ArgumentsFit (tx_rollback_ok a) = Wire.Fits tx_rollback_ok_wire a
