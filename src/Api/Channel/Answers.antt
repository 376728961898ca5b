-- ===== src/Api/Channel/Answers.antt =====
-- The responses that the calls wait for: the static `header()` and the variant of `Frame` that
-- `synchronous_request!` is given, for the ids of amqprs/src/frame/mod.rs.
use amqprs.Prelude.{Option, none, some}
use amqprs.Frame.Methods
use amqprs.Frame.Methods.{Method}
use amqprs.Frame.Method.Channel.{CloseChannelOk, FlowOk, OpenChannelOk}
use amqprs.Frame.Method.Exchange.{DeclareOk, DeleteOk, BindOk, UnbindOk}
use amqprs.Frame.Method.Queue.{
  DeclareQueueOk, BindQueueOk, PurgeQueueOk, DeleteQueueOk, UnbindQueueOk,
}
use amqprs.Frame.Method.Basic.{QosOk, ConsumeOk, CancelOk, RecoverOk}
use amqprs.Frame.Method.Confirm.{SelectOk}
use amqprs.Frame.Method.Tx.{TxSelectOk, TxCommitOk, TxRollbackOk}
use amqprs.Frame.Method.Connection.{CloseOk}
use amqprs.Api.Call.{Answer}

abbrev pub as_close_channel_ok : Method → Option CloseChannelOk
as_close_channel_ok (Methods.close_channel_ok m) = some m
as_close_channel_ok _ = none

abbrev pub for_close_channel : Answer CloseChannelOk
for_close_channel = record {
  header = record { class_id = 20; method_id = 41 };
  expected = as_close_channel_ok;
}

abbrev pub as_flow_ok : Method → Option FlowOk
as_flow_ok (Methods.flow_ok m) = some m
as_flow_ok _ = none

abbrev pub for_flow : Answer FlowOk
for_flow = record { header = record { class_id = 20; method_id = 21 }; expected = as_flow_ok }

abbrev pub as_declare_ok : Method → Option DeclareOk
as_declare_ok (Methods.declare_ok m) = some m
as_declare_ok _ = none

abbrev pub for_declare : Answer DeclareOk
for_declare = record { header = record { class_id = 40; method_id = 11 }; expected = as_declare_ok }

abbrev pub as_delete_ok : Method → Option DeleteOk
as_delete_ok (Methods.delete_ok m) = some m
as_delete_ok _ = none

abbrev pub for_delete : Answer DeleteOk
for_delete = record { header = record { class_id = 40; method_id = 21 }; expected = as_delete_ok }

abbrev pub as_bind_ok : Method → Option BindOk
as_bind_ok (Methods.bind_ok m) = some m
as_bind_ok _ = none

abbrev pub for_bind : Answer BindOk
for_bind = record { header = record { class_id = 40; method_id = 31 }; expected = as_bind_ok }

abbrev pub as_unbind_ok : Method → Option UnbindOk
as_unbind_ok (Methods.unbind_ok m) = some m
as_unbind_ok _ = none

abbrev pub for_unbind : Answer UnbindOk
for_unbind = record { header = record { class_id = 40; method_id = 51 }; expected = as_unbind_ok }

abbrev pub as_declare_queue_ok : Method → Option DeclareQueueOk
as_declare_queue_ok (Methods.declare_queue_ok m) = some m
as_declare_queue_ok _ = none

abbrev pub for_declare_queue : Answer DeclareQueueOk
for_declare_queue = record {
  header = record { class_id = 50; method_id = 11 };
  expected = as_declare_queue_ok;
}

abbrev pub as_bind_queue_ok : Method → Option BindQueueOk
as_bind_queue_ok (Methods.bind_queue_ok m) = some m
as_bind_queue_ok _ = none

abbrev pub for_bind_queue : Answer BindQueueOk
for_bind_queue = record {
  header = record { class_id = 50; method_id = 21 };
  expected = as_bind_queue_ok;
}

abbrev pub as_purge_queue_ok : Method → Option PurgeQueueOk
as_purge_queue_ok (Methods.purge_queue_ok m) = some m
as_purge_queue_ok _ = none

abbrev pub for_purge_queue : Answer PurgeQueueOk
for_purge_queue = record {
  header = record { class_id = 50; method_id = 31 };
  expected = as_purge_queue_ok;
}

abbrev pub as_delete_queue_ok : Method → Option DeleteQueueOk
as_delete_queue_ok (Methods.delete_queue_ok m) = some m
as_delete_queue_ok _ = none

abbrev pub for_delete_queue : Answer DeleteQueueOk
for_delete_queue = record {
  header = record { class_id = 50; method_id = 41 };
  expected = as_delete_queue_ok;
}

abbrev pub as_unbind_queue_ok : Method → Option UnbindQueueOk
as_unbind_queue_ok (Methods.unbind_queue_ok m) = some m
as_unbind_queue_ok _ = none

abbrev pub for_unbind_queue : Answer UnbindQueueOk
for_unbind_queue = record {
  header = record { class_id = 50; method_id = 51 };
  expected = as_unbind_queue_ok;
}

abbrev pub as_qos_ok : Method → Option QosOk
as_qos_ok (Methods.qos_ok m) = some m
as_qos_ok _ = none

abbrev pub for_qos : Answer QosOk
for_qos = record { header = record { class_id = 60; method_id = 11 }; expected = as_qos_ok }

abbrev pub as_consume_ok : Method → Option ConsumeOk
as_consume_ok (Methods.consume_ok m) = some m
as_consume_ok _ = none

abbrev pub for_consume : Answer ConsumeOk
for_consume = record { header = record { class_id = 60; method_id = 21 }; expected = as_consume_ok }

abbrev pub as_cancel_ok : Method → Option CancelOk
as_cancel_ok (Methods.cancel_ok m) = some m
as_cancel_ok _ = none

abbrev pub for_cancel : Answer CancelOk
for_cancel = record { header = record { class_id = 60; method_id = 31 }; expected = as_cancel_ok }

abbrev pub as_recover_ok : Method → Option RecoverOk
as_recover_ok (Methods.recover_ok m) = some m
as_recover_ok _ = none

abbrev pub for_recover : Answer RecoverOk
for_recover = record {
  header = record { class_id = 60; method_id = 111 };
  expected = as_recover_ok;
}

abbrev pub as_select_ok : Method → Option SelectOk
as_select_ok (Methods.select_ok m) = some m
as_select_ok _ = none

abbrev pub for_select : Answer SelectOk
for_select = record { header = record { class_id = 85; method_id = 11 }; expected = as_select_ok }

abbrev pub as_tx_select_ok : Method → Option TxSelectOk
as_tx_select_ok (Methods.tx_select_ok m) = some m
as_tx_select_ok _ = none

abbrev pub for_tx_select : Answer TxSelectOk
for_tx_select = record {
  header = record { class_id = 90; method_id = 11 };
  expected = as_tx_select_ok;
}

abbrev pub as_tx_commit_ok : Method → Option TxCommitOk
as_tx_commit_ok (Methods.tx_commit_ok m) = some m
as_tx_commit_ok _ = none

abbrev pub for_tx_commit : Answer TxCommitOk
for_tx_commit = record {
  header = record { class_id = 90; method_id = 21 };
  expected = as_tx_commit_ok;
}

abbrev pub as_tx_rollback_ok : Method → Option TxRollbackOk
as_tx_rollback_ok (Methods.tx_rollback_ok m) = some m
as_tx_rollback_ok _ = none

abbrev pub for_tx_rollback : Answer TxRollbackOk
for_tx_rollback = record {
  header = record { class_id = 90; method_id = 31 };
  expected = as_tx_rollback_ok;
}

abbrev pub as_open_channel_ok : Method → Option OpenChannelOk
as_open_channel_ok (Methods.open_channel_ok m) = some m
as_open_channel_ok _ = none

abbrev pub for_open_channel : Answer OpenChannelOk
for_open_channel = record {
  header = record { class_id = 20; method_id = 11 };
  expected = as_open_channel_ok;
}

abbrev pub as_close_ok : Method → Option CloseOk
as_close_ok (Methods.close_ok m) = some m
as_close_ok _ = none

abbrev pub for_close : Answer CloseOk
for_close = record { header = record { class_id = 10; method_id = 51 }; expected = as_close_ok }
