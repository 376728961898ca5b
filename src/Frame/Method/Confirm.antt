-- ===== src/Frame/Method/Confirm.antt =====
-- amqprs/src/frame/method/confirm.rs: the arguments of the methods, in the order in which they are
-- written.
use amqprs.Prelude.{Bool, refl}
use amqprs.Serde.Wire
use amqprs.Serde.Wire.{Wire, ◌then◌, struct, unit_struct}

pub record Select : Type 0 where
  pub no_wait : Bool

unfoldable pub select_wire : Wire Select
select_wire = struct (Wire.boolean) (λ a. a.no_wait) (λ p. record { no_wait = p }) (λ a. refl)

pub record SelectOk : Type 0 where

unfoldable pub select_ok_wire : Wire SelectOk
select_ok_wire = Wire.unit_struct (record {}) (λ a. refl)
