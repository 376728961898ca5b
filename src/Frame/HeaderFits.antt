-- ===== src/Frame/HeaderFits.antt =====
-- The ids that amqprs/src/frame/mod.rs gives to the methods fit their fields.
use amqprs.Prelude.{◌<◌, ◌^◌, arith}
use amqprs.Frame.Methods.{
  Method, method_header, start, start_ok, secure, secure_ok, tune, tune_ok, open_connection,
  open_ok, close, close_ok, blocked, unblocked, update_secret, update_secret_ok, open_channel,
  open_channel_ok, flow, flow_ok, close_channel, close_channel_ok, declare, declare_ok, delete,
  delete_ok, bind, bind_ok, unbind, unbind_ok, declare_queue, declare_queue_ok, bind_queue,
  bind_queue_ok, purge_queue, purge_queue_ok, delete_queue, delete_queue_ok, unbind_queue,
  unbind_queue_ok, qos, qos_ok, consume, consume_ok, cancel, cancel_ok, publish, return, deliver,
  get, get_ok, get_empty, ack, reject, recover, recover_ok, nack, select, select_ok, tx_select,
  tx_select_ok, tx_commit, tx_commit_ok, tx_rollback, tx_rollback_ok,
}

pub method_header-Fits :
    (m : Method) → ((method_header m).class_id < 2 ^ 16) × ((method_header m).method_id < 2 ^ 16)
unfolding method_header
method_header-Fits (start a) = (omega arith, omega arith)
method_header-Fits (start_ok a) = (omega arith, omega arith)
method_header-Fits (secure a) = (omega arith, omega arith)
method_header-Fits (secure_ok a) = (omega arith, omega arith)
method_header-Fits (tune a) = (omega arith, omega arith)
method_header-Fits (tune_ok a) = (omega arith, omega arith)
method_header-Fits (open_connection a) = (omega arith, omega arith)
method_header-Fits (open_ok a) = (omega arith, omega arith)
method_header-Fits (close a) = (omega arith, omega arith)
method_header-Fits (close_ok a) = (omega arith, omega arith)
method_header-Fits (blocked a) = (omega arith, omega arith)
method_header-Fits (unblocked a) = (omega arith, omega arith)
method_header-Fits (update_secret a) = (omega arith, omega arith)
method_header-Fits (update_secret_ok a) = (omega arith, omega arith)
method_header-Fits (open_channel a) = (omega arith, omega arith)
method_header-Fits (open_channel_ok a) = (omega arith, omega arith)
method_header-Fits (flow a) = (omega arith, omega arith)
method_header-Fits (flow_ok a) = (omega arith, omega arith)
method_header-Fits (close_channel a) = (omega arith, omega arith)
method_header-Fits (close_channel_ok a) = (omega arith, omega arith)
method_header-Fits (declare a) = (omega arith, omega arith)
method_header-Fits (declare_ok a) = (omega arith, omega arith)
method_header-Fits (delete a) = (omega arith, omega arith)
method_header-Fits (delete_ok a) = (omega arith, omega arith)
method_header-Fits (bind a) = (omega arith, omega arith)
method_header-Fits (bind_ok a) = (omega arith, omega arith)
method_header-Fits (unbind a) = (omega arith, omega arith)
method_header-Fits (unbind_ok a) = (omega arith, omega arith)
method_header-Fits (declare_queue a) = (omega arith, omega arith)
method_header-Fits (declare_queue_ok a) = (omega arith, omega arith)
method_header-Fits (bind_queue a) = (omega arith, omega arith)
method_header-Fits (bind_queue_ok a) = (omega arith, omega arith)
method_header-Fits (purge_queue a) = (omega arith, omega arith)
method_header-Fits (purge_queue_ok a) = (omega arith, omega arith)
method_header-Fits (delete_queue a) = (omega arith, omega arith)
method_header-Fits (delete_queue_ok a) = (omega arith, omega arith)
method_header-Fits (unbind_queue a) = (omega arith, omega arith)
method_header-Fits (unbind_queue_ok a) = (omega arith, omega arith)
method_header-Fits (qos a) = (omega arith, omega arith)
method_header-Fits (qos_ok a) = (omega arith, omega arith)
method_header-Fits (consume a) = (omega arith, omega arith)
method_header-Fits (consume_ok a) = (omega arith, omega arith)
method_header-Fits (cancel a) = (omega arith, omega arith)
method_header-Fits (cancel_ok a) = (omega arith, omega arith)
method_header-Fits (publish a) = (omega arith, omega arith)
method_header-Fits (return a) = (omega arith, omega arith)
method_header-Fits (deliver a) = (omega arith, omega arith)
method_header-Fits (get a) = (omega arith, omega arith)
method_header-Fits (get_ok a) = (omega arith, omega arith)
method_header-Fits (get_empty a) = (omega arith, omega arith)
method_header-Fits (ack a) = (omega arith, omega arith)
method_header-Fits (reject a) = (omega arith, omega arith)
method_header-Fits (recover a) = (omega arith, omega arith)
method_header-Fits (recover_ok a) = (omega arith, omega arith)
method_header-Fits (nack a) = (omega arith, omega arith)
method_header-Fits (select a) = (omega arith, omega arith)
method_header-Fits (select_ok a) = (omega arith, omega arith)
method_header-Fits (tx_select a) = (omega arith, omega arith)
method_header-Fits (tx_select_ok a) = (omega arith, omega arith)
method_header-Fits (tx_commit a) = (omega arith, omega arith)
method_header-Fits (tx_commit_ok a) = (omega arith, omega arith)
method_header-Fits (tx_rollback a) = (omega arith, omega arith)
method_header-Fits (tx_rollback_ok a) = (omega arith, omega arith)
