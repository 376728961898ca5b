-- ===== src/Frame/MethodHeader.antt =====
-- The method header of amqprs/src/frame/method/mod.rs, by which responders are registered.
use amqprs.Prelude.{ℕ, ◌≡◌, ◌↔◌, Bool, true, ◌&&◌, ◌==◌, Eq, arith}

pub record MethodHeader : Type 0 where
  pub class_id : ℕ
  pub method_id : ℕ

-- The derived `PartialEq`.
abbrev pub header_beq : MethodHeader → MethodHeader → Bool
header_beq a b = (a.class_id == b.class_id) && (a.method_id == b.method_id)

pub header_beq_iff : (a b : MethodHeader) → (header_beq a b ≡ true) ↔ (a ≡ b)
header_beq_iff a b = ground arith

instance abbrev pub header_eq : Eq MethodHeader
header_eq = record { beq = header_beq; beq_iff = header_beq_iff }
