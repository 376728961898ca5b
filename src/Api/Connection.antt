-- ===== src/Api/Connection.antt =====
-- amqprs/src/api/connection.rs: the arguments of a connection and how one is opened.
pub mod ServerProperties
pub mod Handshake
pub mod Opening
pub mod Calls
pub mod Channels
pub mod Closing
pub mod Once
pub mod Refused
mod Tests
use amqprs.Prelude.{ℕ, List, [], ◌∷◌, Option, none, some}
use amqprs.Api.Security.{SecurityCredentials, new_plain}

abbrev pub default_amqp_port : ℕ
default_amqp_port = 5672

-- "localhost", "/" and "guest".
abbrev localhost : List ℕ
localhost = 108 ∷ 111 ∷ 99 ∷ 97 ∷ 108 ∷ 104 ∷ 111 ∷ 115 ∷ 116 ∷ []

abbrev root : List ℕ
root = 47 ∷ []

abbrev guest : List ℕ
guest = 103 ∷ 117 ∷ 101 ∷ 115 ∷ 116 ∷ []

-- Without the adaptor of TLS, which is behind a feature.
pub record OpenConnectionArguments : Type 0 where
  pub host : List ℕ
  pub port : ℕ
  pub virtual_host : List ℕ
  pub connection_name : Option (List ℕ)
  pub credentials : SecurityCredentials
  pub heartbeat : ℕ
  pub scheme : Option (List ℕ)

unfoldable pub new : List ℕ → ℕ → List ℕ → List ℕ → OpenConnectionArguments
new host port username password = record {
  host = host;
  port = port;
  virtual_host = root;
  connection_name = none;
  credentials = new_plain username password;
  heartbeat = 60;
  scheme = none;
}

abbrev pub default_arguments : OpenConnectionArguments
default_arguments = record {
  host = localhost;
  port = default_amqp_port;
  virtual_host = root;
  connection_name = none;
  credentials = new_plain guest guest;
  heartbeat = 60;
  scheme = none;
}

abbrev pub set_host : List ℕ → OpenConnectionArguments → OpenConnectionArguments
set_host host a = record a { host = host }

abbrev pub set_port : ℕ → OpenConnectionArguments → OpenConnectionArguments
set_port port a = record a { port = port }

abbrev pub set_virtual_host : List ℕ → OpenConnectionArguments → OpenConnectionArguments
set_virtual_host virtual_host a = record a { virtual_host = virtual_host }

abbrev pub set_connection_name : List ℕ → OpenConnectionArguments → OpenConnectionArguments
set_connection_name name a = record a { connection_name = some name }

abbrev pub set_credentials : SecurityCredentials → OpenConnectionArguments → OpenConnectionArguments
set_credentials credentials a = record a { credentials = credentials }

abbrev pub set_heartbeat : ℕ → OpenConnectionArguments → OpenConnectionArguments
set_heartbeat heartbeat a = record a { heartbeat = heartbeat }
