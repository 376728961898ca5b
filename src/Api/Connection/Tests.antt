-- ===== src/Api/Connection/Tests.antt =====
-- Two handshakes: one that agrees, and one with a server of another locale.
use amqprs.Prelude.{ℕ, ◌≡◌, refl, false, List, [], ◌∷◌, Outcome, done, panic}
use amqprs.Serde.Types.{
  FieldTable, table_new, table_insert, table_remove, short_str, long_str, LongStr, ShortStr,
}
use amqprs.Frame.Method.Connection.{Start, StartOk, Tune, Open, OpenOk}
use amqprs.Frame.Methods
use amqprs.Frame.Frames.{method}
use amqprs.Api.Connection.{default_arguments}
use amqprs.Api.Connection.ServerProperties.{
  ServerProperties, bool_field, longstr_field, capabilities_of, server_properties_of,
  client_properties_of,
}
use amqprs.Api.Call.{connection_open_error}
use amqprs.Api.Connection.Handshake.{
  succeeded, failed, raw, ser_protocol, protocol_default, make_start_ok, handshake, default_locale,
}
use amqprs.Api.Connection.Opening.{
  Agreed, on_default, conversation, tune_ok_of, handshake-Agreed, handshake-unsupported,
}

abbrev value_of : {A : Type 0} → A → Outcome A → A
value_of default (done a) = a
value_of default panic = default

abbrev generated : List ℕ
generated = 65 ∷ []

abbrev locale_text : LongStr
locale_text = record { len = 5; text = default_locale }

-- "PLAIN AMQPLAIN".
abbrev mechanisms_text : LongStr
mechanisms_text = record {
  len = 14;
  text = 80 ∷ 76 ∷ 65 ∷ 73 ∷ 78 ∷ 32 ∷ 65 ∷ 77 ∷ 81 ∷ 80 ∷ 76 ∷ 65 ∷ 73 ∷ 78 ∷ [];
}

abbrev start_of : LongStr → Start
start_of locales = record {
  version_major = 0;
  version_minor = 9;
  server_properties = table_new;
  mechanisms = mechanisms_text;
  locales = locales;
}

abbrev test_tune : Tune
test_tune = record { channel_max = 2047; frame_max = 131072; heartbeat = 30 }

abbrev test_open_ok : OpenOk
test_open_ok = record { know_hosts = record { len = 0; text = [] } }

abbrev test_properties : FieldTable
unfolding client_properties_of table_insert table_new short_str long_str
test_properties = value_of table_new (client_properties_of generated)

abbrev unknown_text : List ℕ
unknown_text = 117 ∷ 110 ∷ 107 ∷ 110 ∷ 111 ∷ 119 ∷ 110 ∷ []

abbrev test_server : ServerProperties
test_server = record {
  capabilities = record {
    consumer_cancel_notify = false;
    publisher_confirms = false;
    consumer_priorities = false;
    authentication_failure_close = false;
    per_consumer_qos = false;
    connection_blocked = false;
    exchange_exchange_bindings = false;
    basic_nack = false;
    direct_reply_to = false;
  };
  product = unknown_text;
  cluster_name = unknown_text;
  version = unknown_text;
}

abbrev plain_text : ShortStr
plain_text = record { len = 5; text = 80 ∷ 76 ∷ 65 ∷ 73 ∷ 78 ∷ [] }

-- The response of "guest" with the password "guest".
abbrev response_text : LongStr
response_text = record {
  len = 12;
  text = 0 ∷ 103 ∷ 117 ∷ 101 ∷ 115 ∷ 116 ∷ 0 ∷ 103 ∷ 117 ∷ 101 ∷ 115 ∷ 116 ∷ [];
}

abbrev test_start_ok : StartOk
test_start_ok = record {
  client_properties = test_properties;
  machanisms = plain_text;
  response = response_text;
  locale = record { len = 5; text = default_locale };
}

abbrev test_open : Open
test_open = record {
  virtual_host = record { len = 1; text = 47 ∷ [] };
  capabilities = record { len = 0; text = [] };
  insist = 0;
}

handshake-Agreed_example :
    (h : ℕ) × Agreed 30 60 h
    × (handshake generated default_arguments (record {
      incoming = conversation (start_of locale_text) test_tune test_open_ok [];
      written = [];
    })
        ≡ succeeded
            (record {
              server_properties = test_server;
              connection_name = generated;
              channel_max = 2047;
              frame_max = 131072;
              heartbeat = h;
            })
            (record {
              incoming = [];
              written =
                  raw (ser_protocol protocol_default)
                  ∷ on_default (Methods.start_ok test_start_ok)
                  ∷ on_default (tune_ok_of test_tune h)
                  ∷ on_default (Methods.open_connection test_open)
                  ∷ [];
            }))
unfolding client_properties_of table_insert table_remove table_new short_str long_str
    server_properties_of capabilities_of bool_field longstr_field make_start_ok
handshake-Agreed_example =
    handshake-Agreed default_arguments generated (start_of locale_text) [] test_tune test_open_ok
      test_properties test_server test_start_ok test_open refl refl refl refl refl refl refl

handshake-unsupported_example :
    handshake generated default_arguments
      (record { incoming = method (Methods.start (start_of response_text)) ∷ []; written = [] })
    ≡ failed connection_open_error
        (record { incoming = []; written = raw (ser_protocol protocol_default) ∷ [] })
unfolding client_properties_of table_insert table_new short_str long_str
handshake-unsupported_example =
    handshake-unsupported default_arguments generated (start_of response_text) [] test_properties
      refl refl refl
