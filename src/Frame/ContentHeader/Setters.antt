-- ===== src/Frame/ContentHeader/Setters.antt =====
-- The setters of the message properties in amqprs/src/frame/content_header.rs.
use amqprs.Prelude.{
  ℕ, List, [], ◌∷◌, Bool, Option, none, some, Outcome, done, ◌>>=◌, unwrap, if◌then◌else◌,
}
use amqprs.Serde.Types.{ShortStr, FieldTable, short_str}
use amqprs.Frame.ContentHeader.{
  BasicProperties, set_content_type_flag, set_content_encoding_flag, set_headers_flag,
  set_delivery_mode_flag, set_priority_flag, set_correlation_id_flag, set_reply_to_flag,
  set_expiration_flag, set_message_id_flag, set_timestamp_flag, set_message_type_flag,
  set_user_id_flag, set_app_id_flag, set_cluster_id_flag, delivery_mode_transient,
  delivery_mode_persistent,
}

-- The setters; a text that is too long for a short string is a panic of `unwrap`.
unfoldable pub with_content_type : BasicProperties → List ℕ → Outcome BasicProperties
unfolding set_content_type_flag
with_content_type p content_type = do
  s ← unwrap (short_str content_type)
  done (record p { property_flags = set_content_type_flag p.property_flags; content_type = some s })

unfoldable pub with_content_encoding : BasicProperties → List ℕ → Outcome BasicProperties
unfolding set_content_encoding_flag
with_content_encoding p content_encoding = do
  s ← unwrap (short_str content_encoding)
  done (record p {
    property_flags = set_content_encoding_flag p.property_flags;
    content_encoding = some s;
  })

unfoldable pub with_headers : BasicProperties → FieldTable → BasicProperties
unfolding set_headers_flag
with_headers p headers = record p {
  property_flags = set_headers_flag p.property_flags;
  headers = some headers;
}

unfoldable pub with_delivery_mode : BasicProperties → ℕ → BasicProperties
unfolding set_delivery_mode_flag
with_delivery_mode p delivery_mode = record p {
  property_flags = set_delivery_mode_flag p.property_flags;
  delivery_mode = some delivery_mode;
}

unfoldable pub with_persistence : BasicProperties → Bool → BasicProperties
unfolding set_delivery_mode_flag
with_persistence p persistent = record p {
  property_flags = set_delivery_mode_flag p.property_flags;
  delivery_mode = some (if persistent then delivery_mode_persistent else delivery_mode_transient);
}

unfoldable pub with_priority : BasicProperties → ℕ → BasicProperties
unfolding set_priority_flag
with_priority p priority = record p {
  property_flags = set_priority_flag p.property_flags;
  priority = some priority;
}

unfoldable pub with_correlation_id : BasicProperties → List ℕ → Outcome BasicProperties
unfolding set_correlation_id_flag
with_correlation_id p correlation_id = do
  s ← unwrap (short_str correlation_id)
  done (record p {
    property_flags = set_correlation_id_flag p.property_flags;
    correlation_id = some s;
  })

unfoldable pub with_reply_to : BasicProperties → List ℕ → Outcome BasicProperties
unfolding set_reply_to_flag
with_reply_to p reply_to = do
  s ← unwrap (short_str reply_to)
  done (record p { property_flags = set_reply_to_flag p.property_flags; reply_to = some s })

unfoldable pub with_expiration : BasicProperties → List ℕ → Outcome BasicProperties
unfolding set_expiration_flag
with_expiration p expiration = do
  s ← unwrap (short_str expiration)
  done (record p { property_flags = set_expiration_flag p.property_flags; expiration = some s })

unfoldable pub with_message_id : BasicProperties → List ℕ → Outcome BasicProperties
unfolding set_message_id_flag
with_message_id p message_id = do
  s ← unwrap (short_str message_id)
  done (record p { property_flags = set_message_id_flag p.property_flags; message_id = some s })

unfoldable pub with_timestamp : BasicProperties → ℕ → BasicProperties
unfolding set_timestamp_flag
with_timestamp p timestamp = record p {
  property_flags = set_timestamp_flag p.property_flags;
  timestamp = some timestamp;
}

unfoldable pub with_message_type : BasicProperties → List ℕ → Outcome BasicProperties
unfolding set_message_type_flag
with_message_type p message_type = do
  s ← unwrap (short_str message_type)
  done (record p { property_flags = set_message_type_flag p.property_flags; message_type = some s })

unfoldable pub with_user_id : BasicProperties → List ℕ → Outcome BasicProperties
unfolding set_user_id_flag
with_user_id p user_id = do
  s ← unwrap (short_str user_id)
  done (record p { property_flags = set_user_id_flag p.property_flags; user_id = some s })

unfoldable pub with_app_id : BasicProperties → List ℕ → Outcome BasicProperties
unfolding set_app_id_flag
with_app_id p app_id = do
  s ← unwrap (short_str app_id)
  done (record p { property_flags = set_app_id_flag p.property_flags; app_id = some s })

unfoldable pub with_cluster_id : BasicProperties → List ℕ → Outcome BasicProperties
unfolding set_cluster_id_flag
with_cluster_id p cluster_id = do
  s ← unwrap (short_str cluster_id)
  done (record p { property_flags = set_cluster_id_flag p.property_flags; cluster_id = some s })

-- A setter with its argument, and a chain of calls that starts at some properties.
pub data Setter : Type 0 where
  set_content_type : List ℕ → Setter
  set_content_encoding : List ℕ → Setter
  set_headers : FieldTable → Setter
  set_delivery_mode : ℕ → Setter
  set_priority : ℕ → Setter
  set_correlation_id : List ℕ → Setter
  set_reply_to : List ℕ → Setter
  set_expiration : List ℕ → Setter
  set_message_id : List ℕ → Setter
  set_timestamp : ℕ → Setter
  set_message_type : List ℕ → Setter
  set_user_id : List ℕ → Setter
  set_app_id : List ℕ → Setter
  set_cluster_id : List ℕ → Setter
  set_persistence : Bool → Setter

unfoldable pub apply : Setter → BasicProperties → Outcome BasicProperties
unfolding with_content_type with_content_encoding with_headers with_delivery_mode with_priority
    with_correlation_id with_reply_to with_expiration with_message_id with_timestamp
    with_message_type with_user_id with_app_id with_cluster_id with_persistence
apply (set_content_type v) p = with_content_type p v
apply (set_content_encoding v) p = with_content_encoding p v
apply (set_headers v) p = done (with_headers p v)
apply (set_delivery_mode v) p = done (with_delivery_mode p v)
apply (set_priority v) p = done (with_priority p v)
apply (set_correlation_id v) p = with_correlation_id p v
apply (set_reply_to v) p = with_reply_to p v
apply (set_expiration v) p = with_expiration p v
apply (set_message_id v) p = with_message_id p v
apply (set_timestamp v) p = done (with_timestamp p v)
apply (set_message_type v) p = with_message_type p v
apply (set_user_id v) p = with_user_id p v
apply (set_app_id v) p = with_app_id p v
apply (set_cluster_id v) p = with_cluster_id p v
apply (set_persistence v) p = done (with_persistence p v)

unfoldable pub build : List Setter → BasicProperties → Outcome BasicProperties
unfolding apply
build [] p = done p
build (s ∷ ss) p = do p' ← apply s p; build ss p'

abbrev pub flag_of {ℓ} : {A : Type ℓ} → Option A → (ℕ × ℕ → ℕ × ℕ) → ℕ × ℕ → ℕ × ℕ
flag_of none set flags = flags
flag_of (some v) set flags = set flags

abbrev pub text_of : Option (List ℕ) → Outcome (Option ShortStr)
text_of none = done none
text_of (some s) = do t ← unwrap (short_str s); done (some t)

-- `BasicProperties::new`.
unfoldable pub new_properties :
    Option (List ℕ)
    → Option (List ℕ)
    → Option FieldTable
    → Option ℕ
    → Option ℕ
    → Option (List ℕ)
    → Option (List ℕ)
    → Option (List ℕ)
    → Option (List ℕ)
    → Option ℕ
    → Option (List ℕ)
    → Option (List ℕ)
    → Option (List ℕ)
    → Option (List ℕ)
    → Outcome BasicProperties
unfolding set_content_type_flag set_content_encoding_flag set_headers_flag set_delivery_mode_flag
    set_priority_flag set_correlation_id_flag set_reply_to_flag set_expiration_flag
    set_message_id_flag set_timestamp_flag set_message_type_flag set_user_id_flag set_app_id_flag
    set_cluster_id_flag
new_properties content_type content_encoding headers delivery_mode priority correlation_id reply_to
      expiration message_id timestamp message_type user_id app_id cluster_id =
    let flags₀ : ℕ × ℕ = (0, 0) in
    let flags₁ : ℕ × ℕ = flag_of content_type set_content_type_flag flags₀ in
    let flags₂ : ℕ × ℕ = flag_of content_encoding set_content_encoding_flag flags₁ in
    let flags₃ : ℕ × ℕ = flag_of headers set_headers_flag flags₂ in
    let flags₄ : ℕ × ℕ = flag_of delivery_mode set_delivery_mode_flag flags₃ in
    let flags₅ : ℕ × ℕ = flag_of priority set_priority_flag flags₄ in
    let flags₆ : ℕ × ℕ = flag_of correlation_id set_correlation_id_flag flags₅ in
    let flags₇ : ℕ × ℕ = flag_of reply_to set_reply_to_flag flags₆ in
    let flags₈ : ℕ × ℕ = flag_of expiration set_expiration_flag flags₇ in
    let flags₉ : ℕ × ℕ = flag_of message_id set_message_id_flag flags₈ in
    let flags₁₀ : ℕ × ℕ = flag_of timestamp set_timestamp_flag flags₉ in
    let flags₁₁ : ℕ × ℕ = flag_of message_type set_message_type_flag flags₁₀ in
    let flags₁₂ : ℕ × ℕ = flag_of user_id set_user_id_flag flags₁₁ in
    let flags₁₃ : ℕ × ℕ = flag_of app_id set_app_id_flag flags₁₂ in
    let flags₁₄ : ℕ × ℕ = flag_of cluster_id set_cluster_id_flag flags₁₃ in
    do
      content_type' ← text_of content_type
      content_encoding' ← text_of content_encoding
      correlation_id' ← text_of correlation_id
      reply_to' ← text_of reply_to
      expiration' ← text_of expiration
      message_id' ← text_of message_id
      message_type' ← text_of message_type
      user_id' ← text_of user_id
      app_id' ← text_of app_id
      cluster_id' ← text_of cluster_id
      done (record {
        property_flags = flags₁₄;
        content_type = content_type';
        content_encoding = content_encoding';
        headers = headers;
        delivery_mode = delivery_mode;
        priority = priority;
        correlation_id = correlation_id';
        reply_to = reply_to';
        expiration = expiration';
        message_id = message_id';
        timestamp = timestamp;
        message_type = message_type';
        user_id = user_id';
        app_id = app_id';
        cluster_id = cluster_id';
      })
