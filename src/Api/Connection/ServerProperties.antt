-- ===== src/Api/Connection/ServerProperties.antt =====
-- What a server and a client say of themselves when a connection is opened, in
-- amqprs/src/api/connection.rs.
use amqprs.Prelude.{
  ℕ, Bool, true, false, List, [], ◌∷◌, Option, none, some, Outcome, done, panic, ◌>>=◌, unwrap,
}
use amqprs.Serde.Types.{
  LongStr, FieldValue, boolean, long_string, field_table, no_entries, FieldTable, short_str,
  long_str, table_new, table_insert, table_remove,
}

pub record ServerCapabilities : Type 0 where
  pub consumer_cancel_notify : Bool
  pub publisher_confirms : Bool
  pub consumer_priorities : Bool
  pub authentication_failure_close : Bool
  pub per_consumer_qos : Bool
  pub connection_blocked : Bool
  pub exchange_exchange_bindings : Bool
  pub basic_nack : Bool
  pub direct_reply_to : Bool

pub record ServerProperties : Type 0 where
  pub capabilities : ServerCapabilities
  pub product : List ℕ
  pub cluster_name : List ℕ
  pub version : List ℕ

-- `try_into().unwrap()` of a field value.
abbrev as_bool : FieldValue → Outcome Bool
as_bool (boolean v) = done v
as_bool _ = panic

abbrev as_table : FieldValue → Outcome FieldTable
as_table (field_table len entries) = done (record { len = len; entries = entries })
as_table _ = panic

abbrev as_long_str : FieldValue → Outcome (List ℕ)
as_long_str (long_string v) = done v.text
as_long_str _ = panic

abbrev or_else : Option FieldValue → FieldValue → FieldValue
or_else none default = default
or_else (some v) default = v

abbrev pub key_consumer_cancel_notify : List ℕ
key_consumer_cancel_notify =
    99 ∷ 111 ∷ 110 ∷ 115 ∷ 117 ∷ 109 ∷ 101 ∷ 114 ∷ 95 ∷ 99 ∷ 97 ∷ 110 ∷ 99 ∷ 101 ∷ 108 ∷ 95 ∷ 110
    ∷ 111 ∷ 116 ∷ 105 ∷ 102 ∷ 121 ∷ []

abbrev pub key_publisher_confirms : List ℕ
key_publisher_confirms =
    112 ∷ 117 ∷ 98 ∷ 108 ∷ 105 ∷ 115 ∷ 104 ∷ 101 ∷ 114 ∷ 95 ∷ 99 ∷ 111 ∷ 110 ∷ 102 ∷ 105 ∷ 114 ∷ 109
    ∷ 115 ∷ []

abbrev pub key_consumer_priorities : List ℕ
key_consumer_priorities =
    99 ∷ 111 ∷ 110 ∷ 115 ∷ 117 ∷ 109 ∷ 101 ∷ 114 ∷ 95 ∷ 112 ∷ 114 ∷ 105 ∷ 111 ∷ 114 ∷ 105 ∷ 116
    ∷ 105 ∷ 101 ∷ 115 ∷ []

abbrev pub key_authentication_failure_close : List ℕ
key_authentication_failure_close =
    97 ∷ 117 ∷ 116 ∷ 104 ∷ 101 ∷ 110 ∷ 116 ∷ 105 ∷ 99 ∷ 97 ∷ 116 ∷ 105 ∷ 111 ∷ 110 ∷ 95 ∷ 102 ∷ 97
    ∷ 105 ∷ 108 ∷ 117 ∷ 114 ∷ 101 ∷ 95 ∷ 99 ∷ 108 ∷ 111 ∷ 115 ∷ 101 ∷ []

abbrev pub key_per_consumer_qos : List ℕ
key_per_consumer_qos =
    112 ∷ 101 ∷ 114 ∷ 95 ∷ 99 ∷ 111 ∷ 110 ∷ 115 ∷ 117 ∷ 109 ∷ 101 ∷ 114 ∷ 95 ∷ 113 ∷ 111 ∷ 115 ∷ []

abbrev pub key_connection_blocked : List ℕ
key_connection_blocked =
    99 ∷ 111 ∷ 110 ∷ 110 ∷ 101 ∷ 99 ∷ 116 ∷ 105 ∷ 111 ∷ 110 ∷ 46 ∷ 98 ∷ 108 ∷ 111 ∷ 99 ∷ 107 ∷ 101
    ∷ 100 ∷ []

abbrev pub key_exchange_exchange_bindings : List ℕ
key_exchange_exchange_bindings =
    101 ∷ 120 ∷ 99 ∷ 104 ∷ 97 ∷ 110 ∷ 103 ∷ 101 ∷ 95 ∷ 101 ∷ 120 ∷ 99 ∷ 104 ∷ 97 ∷ 110 ∷ 103 ∷ 101
    ∷ 95 ∷ 98 ∷ 105 ∷ 110 ∷ 100 ∷ 105 ∷ 110 ∷ 103 ∷ 115 ∷ []

abbrev pub key_basic_nack : List ℕ
key_basic_nack = 98 ∷ 97 ∷ 115 ∷ 105 ∷ 99 ∷ 46 ∷ 110 ∷ 97 ∷ 99 ∷ 107 ∷ []

abbrev pub key_direct_reply_to : List ℕ
key_direct_reply_to =
    100 ∷ 105 ∷ 114 ∷ 101 ∷ 99 ∷ 116 ∷ 95 ∷ 114 ∷ 101 ∷ 112 ∷ 108 ∷ 121 ∷ 95 ∷ 116 ∷ 111 ∷ []

-- "capabilities", "product", "cluster_name", "version" and "unknown".
abbrev pub key_capabilities : List ℕ
key_capabilities = 99 ∷ 97 ∷ 112 ∷ 97 ∷ 98 ∷ 105 ∷ 108 ∷ 105 ∷ 116 ∷ 105 ∷ 101 ∷ 115 ∷ []

abbrev pub key_product : List ℕ
key_product = 112 ∷ 114 ∷ 111 ∷ 100 ∷ 117 ∷ 99 ∷ 116 ∷ []

abbrev pub key_cluster_name : List ℕ
key_cluster_name = 99 ∷ 108 ∷ 117 ∷ 115 ∷ 116 ∷ 101 ∷ 114 ∷ 95 ∷ 110 ∷ 97 ∷ 109 ∷ 101 ∷ []

abbrev pub key_version : List ℕ
key_version = 118 ∷ 101 ∷ 114 ∷ 115 ∷ 105 ∷ 111 ∷ 110 ∷ []

abbrev unknown : LongStr
unknown = record { len = 7; text = 117 ∷ 110 ∷ 107 ∷ 110 ∷ 111 ∷ 119 ∷ 110 ∷ [] }

-- The closure `unwrap_bool_field`, with the table that it leaves.
unfoldable pub bool_field : FieldTable → List ℕ → Outcome (FieldTable × Bool)
bool_field t key = do
  k ← unwrap (short_str key)
  (t', found) ← table_remove t k
  v ← as_bool (or_else found (boolean false))
  done (t', v)

-- The closure `unwrap_longstr_field`.
unfoldable pub longstr_field : FieldTable → List ℕ → Outcome (FieldTable × List ℕ)
longstr_field t key = do
  k ← unwrap (short_str key)
  (t', found) ← table_remove t k
  v ← as_long_str (or_else found (long_string unknown))
  done (t', v)

unfoldable pub capabilities_of : FieldTable → Outcome ServerCapabilities
unfolding bool_field
capabilities_of t = do
  (t1, b1) ← bool_field t key_consumer_cancel_notify
  (t2, b2) ← bool_field t1 key_publisher_confirms
  (t3, b3) ← bool_field t2 key_consumer_priorities
  (t4, b4) ← bool_field t3 key_authentication_failure_close
  (t5, b5) ← bool_field t4 key_per_consumer_qos
  (t6, b6) ← bool_field t5 key_connection_blocked
  (t7, b7) ← bool_field t6 key_exchange_exchange_bindings
  (t8, b8) ← bool_field t7 key_basic_nack
  (t9, b9) ← bool_field t8 key_direct_reply_to
  done (record {
    consumer_cancel_notify = b1;
    publisher_confirms = b2;
    consumer_priorities = b3;
    authentication_failure_close = b4;
    per_consumer_qos = b5;
    connection_blocked = b6;
    exchange_exchange_bindings = b7;
    basic_nack = b8;
    direct_reply_to = b9;
  })

unfoldable pub server_properties_of : FieldTable → Outcome ServerProperties
unfolding longstr_field capabilities_of
server_properties_of t = do
  k ← unwrap (short_str key_capabilities)
  (t', found) ← table_remove t k
  caps ← as_table (or_else found (field_table 0 no_entries))
  capabilities ← capabilities_of caps
  (t₁, product) ← longstr_field t' key_product
  (t₂, cluster_name) ← longstr_field t₁ key_cluster_name
  (t₃, version) ← longstr_field t₂ key_version
  done (record {
    capabilities = capabilities;
    product = product;
    cluster_name = cluster_name;
    version = version;
  })

-- "connection_name", "AMQPRS", "platform", "Rust" and "0.1".
abbrev key_connection_name : List ℕ
key_connection_name =
    99 ∷ 111 ∷ 110 ∷ 110 ∷ 101 ∷ 99 ∷ 116 ∷ 105 ∷ 111 ∷ 110 ∷ 95 ∷ 110 ∷ 97 ∷ 109 ∷ 101 ∷ []

abbrev product_name : List ℕ
product_name = 65 ∷ 77 ∷ 81 ∷ 80 ∷ 82 ∷ 83 ∷ []

abbrev key_platform : List ℕ
key_platform = 112 ∷ 108 ∷ 97 ∷ 116 ∷ 102 ∷ 111 ∷ 114 ∷ 109 ∷ []

abbrev platform_name : List ℕ
platform_name = 82 ∷ 117 ∷ 115 ∷ 116 ∷ []

abbrev version_text : List ℕ
version_text = 48 ∷ 46 ∷ 49 ∷ []

abbrev insert_value : FieldTable → List ℕ → FieldValue → Outcome FieldTable
insert_value t key value = do
  k ← unwrap (short_str key)
  (t', old) ← table_insert t k value
  done t'

abbrev insert_text : FieldTable → List ℕ → List ℕ → Outcome FieldTable
insert_text t key text = do v ← unwrap (long_str text); insert_value t key (long_string v)

unfoldable pub client_properties_of : List ℕ → Outcome FieldTable
client_properties_of connection_name = do
  t₁ ← insert_text table_new key_connection_name connection_name
  t₂ ← insert_text t₁ key_product product_name
  t₃ ← insert_text t₂ key_platform platform_name
  t₄ ← insert_text t₃ key_version version_text
  capabilities ← insert_value table_new key_consumer_cancel_notify (boolean true)
  insert_value t₄ key_capabilities (field_table capabilities.len capabilities.entries)
