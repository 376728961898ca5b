-- ===== src/Frame/Method/Tx.antt =====
-- amqprs/src/frame/method/tx.rs: the arguments of the methods, in the order in which they are
-- written.
use amqprs.Prelude.{refl}
use amqprs.Serde.Wire
use amqprs.Serde.Wire.{Wire, ◌then◌, struct, unit_struct}

pub record TxSelect : Type 0 where

unfoldable pub tx_select_wire : Wire TxSelect
tx_select_wire = Wire.unit_struct (record {}) (λ a. refl)

pub record TxSelectOk : Type 0 where

unfoldable pub tx_select_ok_wire : Wire TxSelectOk
tx_select_ok_wire = Wire.unit_struct (record {}) (λ a. refl)

pub record TxCommit : Type 0 where

unfoldable pub tx_commit_wire : Wire TxCommit
tx_commit_wire = Wire.unit_struct (record {}) (λ a. refl)

pub record TxCommitOk : Type 0 where

unfoldable pub tx_commit_ok_wire : Wire TxCommitOk
tx_commit_ok_wire = Wire.unit_struct (record {}) (λ a. refl)

pub record TxRollback : Type 0 where

unfoldable pub tx_rollback_wire : Wire TxRollback
tx_rollback_wire = Wire.unit_struct (record {}) (λ a. refl)

pub record TxRollbackOk : Type 0 where

unfoldable pub tx_rollback_ok_wire : Wire TxRollbackOk
tx_rollback_ok_wire = Wire.unit_struct (record {}) (λ a. refl)
