-- ===== src/Api/Security/Tests.antt =====
-- A name of 128 bytes.
use amqprs.Prelude.{ℕ, zero, suc, ◌≡◌, List, [], ◌∷◌, panic, arith}
use amqprs.Api.Security.{new_amqplain, get_response}
use amqprs.Api.Security.Response.{get_response-long_username}

abbrev long_name : ℕ → List ℕ
long_name zero = []
long_name (suc n) = 97 ∷ long_name n

get_response-long_username_example :
    get_response (new_amqplain (long_name 128) (long_name 5)) ≡ panic
get_response-long_username_example =
    get_response-long_username (long_name 128) (long_name 5) (ground arith) (ground arith)
