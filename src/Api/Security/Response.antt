-- ===== src/Api/Security/Response.antt =====
-- The response to the challenge of the server in amqprs/src/api/security.rs, with long names.
use amqprs.Prelude.{
  ℕ, ◌≤◌, ◌<◌, ◌^◌, ◌≡◌, refl, true, false, List, ◌∷◌, panic, Bool-cases, inl, inr, ltb, lt→ltb,
  length, arith,
}
use amqprs.Prelude.Bytes.{to_be_bytes-small}
use amqprs.Serde.Types.{short_str, long_str}
use amqprs.Serde.Ser.{ser_short_str, ser_long_str, serialize_u8, serialize_u32, serialize_str}
use amqprs.Serde.Utf8.{from_utf8, from_utf8-not_lead}
use amqprs.Api.Security.{new_amqplain, get_response, response_table}

-- What stands in the text before the last byte of the length: a byte 5, "LOGIN", 'S' and three bytes 0.
text-not_utf8 :
    (n : ℕ) (bs : List ℕ)
    → 0x80 ≤ n
    → n < 0xc2
    → from_utf8 (5 ∷ 76 ∷ 79 ∷ 71 ∷ 73 ∷ 78 ∷ 83 ∷ 0 ∷ 0 ∷ 0 ∷ n ∷ bs) ≡ false
unfolding from_utf8
text-not_utf8 n bs low high = from_utf8-not_lead n bs low high

-- With the mechanism AMQPLAIN and a username of 128 to 193 bytes the response to the server is a
-- panic, whatever the password.
pub get_response-long_username :
    (username password : List ℕ)
    → 0x80 ≤ length username
    → length username < 0xc2
    → get_response (new_amqplain username password) ≡ panic
unfolding response_table short_str long_str ser_short_str ser_long_str serialize_u8 serialize_u32
    serialize_str
get_response-long_username username password low high =
    let fits : ltb (length username) (2 ^ 32) ≡ true =
      lt→ltb (length username) (2 ^ 32) (omega arith) in
    let bytes = to_be_bytes-small (length username) (omega arith) in
    elim (Bool-cases (ltb (length password) (2 ^ 32))) [
      | inr long ↦ rw (fits, long, response_table) refl
      | inl short ↦
          rw (fits, short, bytes, text-not_utf8 (length username) _ low high, response_table) refl
    ]
