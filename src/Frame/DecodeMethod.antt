-- ===== src/Frame/DecodeMethod.antt =====
-- `decode_method_frame` of amqprs/src/frame/mod.rs, and that it reads back what is written.
use amqprs.Prelude.{ℕ, List, ◌≡◌, refl, ◌==◌, if◌then◌else◌}
use amqprs.Frame.MethodHeader.{MethodHeader}
use amqprs.Frame.Methods.{
  Method, method_header, ser_arguments, ArgumentsFit, start, start_ok, secure, secure_ok, tune,
  tune_ok, open_connection, open_ok, close, close_ok, blocked, unblocked, update_secret,
  update_secret_ok, open_channel, open_channel_ok, flow, flow_ok, close_channel, close_channel_ok,
  declare, declare_ok, delete, delete_ok, bind, bind_ok, unbind, unbind_ok, declare_queue,
  declare_queue_ok, bind_queue, bind_queue_ok, purge_queue, purge_queue_ok, delete_queue,
  delete_queue_ok, unbind_queue, unbind_queue_ok, qos, qos_ok, consume, consume_ok, cancel,
  cancel_ok, publish, return, deliver, get, get_ok, get_empty, ack, reject, recover, recover_ok,
  nack, select, select_ok, tx_select, tx_select_ok, tx_commit, tx_commit_ok, tx_rollback,
  tx_rollback_ok,
}
use amqprs.Serde.De.{Read, value_read, error_read, panic_read, stuck_read, from_bytes}
use amqprs.Serde.Wire.{Wire, from_bytes-ser}
use amqprs.Frame.Method.Connection.{
  start_wire, start_ok_wire, secure_wire, secure_ok_wire, tune_wire, tune_ok_wire, open_wire,
  open_ok_wire, close_wire, close_ok_wire, blocked_wire, unblocked_wire, update_secret_wire,
  update_secret_ok_wire,
}
use amqprs.Frame.Method.Channel.{
  open_channel_wire, open_channel_ok_wire, flow_wire, flow_ok_wire, close_channel_wire,
  close_channel_ok_wire,
}
use amqprs.Frame.Method.Exchange.{
  declare_wire, declare_ok_wire, delete_wire, delete_ok_wire, bind_wire, bind_ok_wire, unbind_wire,
  unbind_ok_wire,
}
use amqprs.Frame.Method.Queue.{
  declare_queue_wire, declare_queue_ok_wire, bind_queue_wire, bind_queue_ok_wire, purge_queue_wire,
  purge_queue_ok_wire, delete_queue_wire, delete_queue_ok_wire, unbind_queue_wire,
  unbind_queue_ok_wire,
}
use amqprs.Frame.Method.Basic.{
  qos_wire, qos_ok_wire, consume_wire, consume_ok_wire, cancel_wire, cancel_ok_wire, publish_wire,
  return_wire, deliver_wire, get_wire, get_ok_wire, get_empty_wire, ack_wire, reject_wire,
  recover_wire, recover_ok_wire, nack_wire,
}
use amqprs.Frame.Method.Confirm.{select_wire, select_ok_wire}
use amqprs.Frame.Method.Tx.{
  tx_select_wire, tx_select_ok_wire, tx_commit_wire, tx_commit_ok_wire, tx_rollback_wire,
  tx_rollback_ok_wire,
}

abbrev pub map_read {ℓ κ} : {A : Type ℓ} {B : Type κ} → (A → B) → Read A → Read B
map_read f (value_read a) = value_read (f a)
map_read f (error_read e) = error_read e
map_read f panic_read = panic_read
map_read f stuck_read = stuck_read

-- The methods of one class by their id; `unimplemented!` for another.

unfoldable pub decode_connection : ℕ → List ℕ → Read Method
decode_connection id content =
    if id == 10
    then map_read start (from_bytes (Wire.de start_wire) content)
    else if id == 11
    then map_read start_ok (from_bytes (Wire.de start_ok_wire) content)
    else if id == 20
    then map_read secure (from_bytes (Wire.de secure_wire) content)
    else if id == 21
    then map_read secure_ok (from_bytes (Wire.de secure_ok_wire) content)
    else if id == 30
    then map_read tune (from_bytes (Wire.de tune_wire) content)
    else if id == 31
    then map_read tune_ok (from_bytes (Wire.de tune_ok_wire) content)
    else if id == 40
    then map_read open_connection (from_bytes (Wire.de open_wire) content)
    else if id == 41
    then map_read open_ok (from_bytes (Wire.de open_ok_wire) content)
    else if id == 50
    then map_read close (from_bytes (Wire.de close_wire) content)
    else if id == 51
    then map_read close_ok (from_bytes (Wire.de close_ok_wire) content)
    else if id == 60
    then map_read blocked (from_bytes (Wire.de blocked_wire) content)
    else if id == 61
    then map_read unblocked (from_bytes (Wire.de unblocked_wire) content)
    else if id == 70
    then map_read update_secret (from_bytes (Wire.de update_secret_wire) content)
    else if id == 71
    then map_read update_secret_ok (from_bytes (Wire.de update_secret_ok_wire) content)
    else panic_read

unfoldable pub decode_channel : ℕ → List ℕ → Read Method
decode_channel id content =
    if id == 10
    then map_read open_channel (from_bytes (Wire.de open_channel_wire) content)
    else if id == 11
    then map_read open_channel_ok (from_bytes (Wire.de open_channel_ok_wire) content)
    else if id == 20
    then map_read flow (from_bytes (Wire.de flow_wire) content)
    else if id == 21
    then map_read flow_ok (from_bytes (Wire.de flow_ok_wire) content)
    else if id == 40
    then map_read close_channel (from_bytes (Wire.de close_channel_wire) content)
    else if id == 41
    then map_read close_channel_ok (from_bytes (Wire.de close_channel_ok_wire) content)
    else panic_read

unfoldable pub decode_exchange : ℕ → List ℕ → Read Method
decode_exchange id content =
    if id == 10
    then map_read declare (from_bytes (Wire.de declare_wire) content)
    else if id == 11
    then map_read declare_ok (from_bytes (Wire.de declare_ok_wire) content)
    else if id == 20
    then map_read delete (from_bytes (Wire.de delete_wire) content)
    else if id == 21
    then map_read delete_ok (from_bytes (Wire.de delete_ok_wire) content)
    else if id == 30
    then map_read bind (from_bytes (Wire.de bind_wire) content)
    else if id == 31
    then map_read bind_ok (from_bytes (Wire.de bind_ok_wire) content)
    else if id == 40
    then map_read unbind (from_bytes (Wire.de unbind_wire) content)
    else if id == 51
    then map_read unbind_ok (from_bytes (Wire.de unbind_ok_wire) content)
    else panic_read

unfoldable pub decode_queue : ℕ → List ℕ → Read Method
decode_queue id content =
    if id == 10
    then map_read declare_queue (from_bytes (Wire.de declare_queue_wire) content)
    else if id == 11
    then map_read declare_queue_ok (from_bytes (Wire.de declare_queue_ok_wire) content)
    else if id == 20
    then map_read bind_queue (from_bytes (Wire.de bind_queue_wire) content)
    else if id == 21
    then map_read bind_queue_ok (from_bytes (Wire.de bind_queue_ok_wire) content)
    else if id == 30
    then map_read purge_queue (from_bytes (Wire.de purge_queue_wire) content)
    else if id == 31
    then map_read purge_queue_ok (from_bytes (Wire.de purge_queue_ok_wire) content)
    else if id == 40
    then map_read delete_queue (from_bytes (Wire.de delete_queue_wire) content)
    else if id == 41
    then map_read delete_queue_ok (from_bytes (Wire.de delete_queue_ok_wire) content)
    else if id == 50
    then map_read unbind_queue (from_bytes (Wire.de unbind_queue_wire) content)
    else if id == 51
    then map_read unbind_queue_ok (from_bytes (Wire.de unbind_queue_ok_wire) content)
    else panic_read

unfoldable pub decode_basic : ℕ → List ℕ → Read Method
decode_basic id content =
    if id == 10
    then map_read qos (from_bytes (Wire.de qos_wire) content)
    else if id == 11
    then map_read qos_ok (from_bytes (Wire.de qos_ok_wire) content)
    else if id == 20
    then map_read consume (from_bytes (Wire.de consume_wire) content)
    else if id == 21
    then map_read consume_ok (from_bytes (Wire.de consume_ok_wire) content)
    else if id == 30
    then map_read cancel (from_bytes (Wire.de cancel_wire) content)
    else if id == 31
    then map_read cancel_ok (from_bytes (Wire.de cancel_ok_wire) content)
    else if id == 40
    then map_read publish (from_bytes (Wire.de publish_wire) content)
    else if id == 50
    then map_read return (from_bytes (Wire.de return_wire) content)
    else if id == 60
    then map_read deliver (from_bytes (Wire.de deliver_wire) content)
    else if id == 70
    then map_read get (from_bytes (Wire.de get_wire) content)
    else if id == 71
    then map_read get_ok (from_bytes (Wire.de get_ok_wire) content)
    else if id == 72
    then map_read get_empty (from_bytes (Wire.de get_empty_wire) content)
    else if id == 80
    then map_read ack (from_bytes (Wire.de ack_wire) content)
    else if id == 90
    then map_read reject (from_bytes (Wire.de reject_wire) content)
    else if id == 110
    then map_read recover (from_bytes (Wire.de recover_wire) content)
    else if id == 111
    then map_read recover_ok (from_bytes (Wire.de recover_ok_wire) content)
    else if id == 120
    then map_read nack (from_bytes (Wire.de nack_wire) content)
    else panic_read

unfoldable pub decode_confirm : ℕ → List ℕ → Read Method
decode_confirm id content =
    if id == 10
    then map_read select (from_bytes (Wire.de select_wire) content)
    else if id == 11
    then map_read select_ok (from_bytes (Wire.de select_ok_wire) content)
    else panic_read

unfoldable pub decode_tx : ℕ → List ℕ → Read Method
decode_tx id content =
    if id == 10
    then map_read tx_select (from_bytes (Wire.de tx_select_wire) content)
    else if id == 11
    then map_read tx_select_ok (from_bytes (Wire.de tx_select_ok_wire) content)
    else if id == 20
    then map_read tx_commit (from_bytes (Wire.de tx_commit_wire) content)
    else if id == 21
    then map_read tx_commit_ok (from_bytes (Wire.de tx_commit_ok_wire) content)
    else if id == 30
    then map_read tx_rollback (from_bytes (Wire.de tx_rollback_wire) content)
    else if id == 31
    then map_read tx_rollback_ok (from_bytes (Wire.de tx_rollback_ok_wire) content)
    else panic_read

unfoldable pub decode_method_frame : MethodHeader → List ℕ → Read Method
unfolding decode_connection decode_channel decode_exchange decode_queue decode_basic decode_confirm
    decode_tx
decode_method_frame header content =
    if header.class_id == 10
    then decode_connection header.method_id content
    else if header.class_id == 20
    then decode_channel header.method_id content
    else if header.class_id == 40
    then decode_exchange header.method_id content
    else if header.class_id == 50
    then decode_queue header.method_id content
    else if header.class_id == 60
    then decode_basic header.method_id content
    else if header.class_id == 85
    then decode_confirm header.method_id content
    else if header.class_id == 90
    then decode_tx header.method_id content
    else panic_read

-- Each of the 63 methods whose arguments fit their fields is decoded from its header and the bytes
-- of its arguments.
pub decode-ser_arguments :
    (m : Method)
    → ArgumentsFit m
    → decode_method_frame (method_header m) (ser_arguments m) ≡ value_read m
unfolding decode_method_frame method_header ser_arguments
decode-ser_arguments (start a) h = rw (from_bytes-ser start_wire a h) refl
decode-ser_arguments (start_ok a) h = rw (from_bytes-ser start_ok_wire a h) refl
decode-ser_arguments (secure a) h = rw (from_bytes-ser secure_wire a h) refl
decode-ser_arguments (secure_ok a) h = rw (from_bytes-ser secure_ok_wire a h) refl
decode-ser_arguments (tune a) h = rw (from_bytes-ser tune_wire a h) refl
decode-ser_arguments (tune_ok a) h = rw (from_bytes-ser tune_ok_wire a h) refl
decode-ser_arguments (open_connection a) h = rw (from_bytes-ser open_wire a h) refl
decode-ser_arguments (open_ok a) h = rw (from_bytes-ser open_ok_wire a h) refl
decode-ser_arguments (close a) h = rw (from_bytes-ser close_wire a h) refl
decode-ser_arguments (close_ok a) h = rw (from_bytes-ser close_ok_wire a h) refl
decode-ser_arguments (blocked a) h = rw (from_bytes-ser blocked_wire a h) refl
decode-ser_arguments (unblocked a) h = rw (from_bytes-ser unblocked_wire a h) refl
decode-ser_arguments (update_secret a) h = rw (from_bytes-ser update_secret_wire a h) refl
decode-ser_arguments (update_secret_ok a) h = rw (from_bytes-ser update_secret_ok_wire a h) refl
decode-ser_arguments (open_channel a) h = rw (from_bytes-ser open_channel_wire a h) refl
decode-ser_arguments (open_channel_ok a) h = rw (from_bytes-ser open_channel_ok_wire a h) refl
decode-ser_arguments (flow a) h = rw (from_bytes-ser flow_wire a h) refl
decode-ser_arguments (flow_ok a) h = rw (from_bytes-ser flow_ok_wire a h) refl
decode-ser_arguments (close_channel a) h = rw (from_bytes-ser close_channel_wire a h) refl
decode-ser_arguments (close_channel_ok a) h = rw (from_bytes-ser close_channel_ok_wire a h) refl
decode-ser_arguments (declare a) h = rw (from_bytes-ser declare_wire a h) refl
decode-ser_arguments (declare_ok a) h = rw (from_bytes-ser declare_ok_wire a h) refl
decode-ser_arguments (delete a) h = rw (from_bytes-ser delete_wire a h) refl
decode-ser_arguments (delete_ok a) h = rw (from_bytes-ser delete_ok_wire a h) refl
decode-ser_arguments (bind a) h = rw (from_bytes-ser bind_wire a h) refl
decode-ser_arguments (bind_ok a) h = rw (from_bytes-ser bind_ok_wire a h) refl
decode-ser_arguments (unbind a) h = rw (from_bytes-ser unbind_wire a h) refl
decode-ser_arguments (unbind_ok a) h = rw (from_bytes-ser unbind_ok_wire a h) refl
decode-ser_arguments (declare_queue a) h = rw (from_bytes-ser declare_queue_wire a h) refl
decode-ser_arguments (declare_queue_ok a) h = rw (from_bytes-ser declare_queue_ok_wire a h) refl
decode-ser_arguments (bind_queue a) h = rw (from_bytes-ser bind_queue_wire a h) refl
decode-ser_arguments (bind_queue_ok a) h = rw (from_bytes-ser bind_queue_ok_wire a h) refl
decode-ser_arguments (purge_queue a) h = rw (from_bytes-ser purge_queue_wire a h) refl
decode-ser_arguments (purge_queue_ok a) h = rw (from_bytes-ser purge_queue_ok_wire a h) refl
decode-ser_arguments (delete_queue a) h = rw (from_bytes-ser delete_queue_wire a h) refl
decode-ser_arguments (delete_queue_ok a) h = rw (from_bytes-ser delete_queue_ok_wire a h) refl
decode-ser_arguments (unbind_queue a) h = rw (from_bytes-ser unbind_queue_wire a h) refl
decode-ser_arguments (unbind_queue_ok a) h = rw (from_bytes-ser unbind_queue_ok_wire a h) refl
decode-ser_arguments (qos a) h = rw (from_bytes-ser qos_wire a h) refl
decode-ser_arguments (qos_ok a) h = rw (from_bytes-ser qos_ok_wire a h) refl
decode-ser_arguments (consume a) h = rw (from_bytes-ser consume_wire a h) refl
decode-ser_arguments (consume_ok a) h = rw (from_bytes-ser consume_ok_wire a h) refl
decode-ser_arguments (cancel a) h = rw (from_bytes-ser cancel_wire a h) refl
decode-ser_arguments (cancel_ok a) h = rw (from_bytes-ser cancel_ok_wire a h) refl
decode-ser_arguments (publish a) h = rw (from_bytes-ser publish_wire a h) refl
decode-ser_arguments (return a) h = rw (from_bytes-ser return_wire a h) refl
decode-ser_arguments (deliver a) h = rw (from_bytes-ser deliver_wire a h) refl
decode-ser_arguments (get a) h = rw (from_bytes-ser get_wire a h) refl
decode-ser_arguments (get_ok a) h = rw (from_bytes-ser get_ok_wire a h) refl
decode-ser_arguments (get_empty a) h = rw (from_bytes-ser get_empty_wire a h) refl
decode-ser_arguments (ack a) h = rw (from_bytes-ser ack_wire a h) refl
decode-ser_arguments (reject a) h = rw (from_bytes-ser reject_wire a h) refl
decode-ser_arguments (recover a) h = rw (from_bytes-ser recover_wire a h) refl
decode-ser_arguments (recover_ok a) h = rw (from_bytes-ser recover_ok_wire a h) refl
decode-ser_arguments (nack a) h = rw (from_bytes-ser nack_wire a h) refl
decode-ser_arguments (select a) h = rw (from_bytes-ser select_wire a h) refl
decode-ser_arguments (select_ok a) h = rw (from_bytes-ser select_ok_wire a h) refl
decode-ser_arguments (tx_select a) h = rw (from_bytes-ser tx_select_wire a h) refl
decode-ser_arguments (tx_select_ok a) h = rw (from_bytes-ser tx_select_ok_wire a h) refl
decode-ser_arguments (tx_commit a) h = rw (from_bytes-ser tx_commit_wire a h) refl
decode-ser_arguments (tx_commit_ok a) h = rw (from_bytes-ser tx_commit_ok_wire a h) refl
decode-ser_arguments (tx_rollback a) h = rw (from_bytes-ser tx_rollback_wire a h) refl
decode-ser_arguments (tx_rollback_ok a) h = rw (from_bytes-ser tx_rollback_ok_wire a h) refl
