-- ===== src/Api/Security.antt =====
-- amqprs/src/api/security.rs: the credentials that open a connection.
pub mod Response
mod Tests
use amqprs.Prelude.{ℕ, List, [], ◌∷◌, ◌++◌, Outcome, done, panic, ◌>>=◌, unwrap, if◌then◌else◌}
use amqprs.Serde.Types.{short_str, long_str}
use amqprs.Serde.Ser.{ser_short_str, ser_long_str}
use amqprs.Serde.Utf8.{from_utf8}

pub data AuthenticationMechanism : Type 0 where
  plain : AuthenticationMechanism
  amqplain : AuthenticationMechanism
  external : AuthenticationMechanism

pub record SecurityCredentials : Type 0 where
  pub username : List ℕ
  pub password : List ℕ
  pub mechanism : AuthenticationMechanism

abbrev pub new_plain : List ℕ → List ℕ → SecurityCredentials
new_plain username password = record { username = username; password = password; mechanism = plain }

abbrev pub new_amqplain : List ℕ → List ℕ → SecurityCredentials
new_amqplain username password = record {
  username = username;
  password = password;
  mechanism = amqplain;
}

abbrev pub new_external : SecurityCredentials
new_external = record { username = []; password = []; mechanism = external }

-- "PLAIN", "AMQPLAIN" and "EXTERNAL".
abbrev name_of : AuthenticationMechanism → List ℕ
name_of plain = 80 ∷ 76 ∷ 65 ∷ 73 ∷ 78 ∷ []
name_of amqplain = 65 ∷ 77 ∷ 81 ∷ 80 ∷ 76 ∷ 65 ∷ 73 ∷ 78 ∷ []
name_of external = 69 ∷ 88 ∷ 84 ∷ 69 ∷ 82 ∷ 78 ∷ 65 ∷ 76 ∷ []

abbrev pub get_mechanism_name : SecurityCredentials → List ℕ
get_mechanism_name c = name_of c.mechanism

-- "LOGIN" and "PASSWORD".
abbrev login : List ℕ
login = 76 ∷ 79 ∷ 71 ∷ 73 ∷ 78 ∷ []

abbrev password_name : List ℕ
password_name = 80 ∷ 65 ∷ 83 ∷ 83 ∷ 87 ∷ 79 ∷ 82 ∷ 68 ∷ []

-- A name, the tag 'S' and a text, of which `String::from_utf8` is taken at the end.
unfoldable pub response_table : List ℕ → List ℕ → Outcome (List ℕ)
response_table username password = do
  name ← unwrap (short_str login)
  user ← unwrap (long_str username)
  key ← unwrap (short_str password_name)
  secret ← unwrap (long_str password)
  done (
      ser_short_str name
      ++ (83 ∷ ser_long_str user)
      ++ (ser_short_str key ++ (83 ∷ ser_long_str secret)))

abbrev text_of_buffer : List ℕ → Outcome (List ℕ)
text_of_buffer buf = if from_utf8 buf then done buf else panic

abbrev response_of : AuthenticationMechanism → List ℕ → List ℕ → Outcome (List ℕ)
response_of plain username password = done (0 ∷ (username ++ (0 ∷ password)))
response_of amqplain username password = response_table username password >>= text_of_buffer
response_of external username password = done []

abbrev pub get_response : SecurityCredentials → Outcome (List ℕ)
get_response c = response_of c.mechanism c.username c.password
