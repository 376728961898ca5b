-- ===== src/Frame/ContentHeader/Flags.antt =====
-- The flags of amqprs/src/frame/content_header.rs say which properties are set.
use amqprs.Prelude.{
  ℕ, suc, ◌+◌, ◌≤◌, ◌<◌, ◌≡◌, refl, Bool, true, List, [], ◌∷◌, Option, none, some, is_some, bit_or,
  ◌==◌, if◌then◌else◌, length, arith, sym, ap, subst, Outcome, done, panic, ◌>>=◌, unwrap,
}
use amqprs.Prelude.Bits.{mask, has, has-bit_or, bit_or-byte}
use amqprs.Prelude.Bytes.{IsByte}
use amqprs.Serde.Types.{short_str}
use amqprs.Frame.ContentHeader.{
  BasicProperties, basic_default, set_content_type_flag, set_content_encoding_flag,
  set_headers_flag, set_delivery_mode_flag, set_priority_flag, set_correlation_id_flag,
  set_reply_to_flag, set_expiration_flag, set_message_id_flag, set_timestamp_flag,
  set_message_type_flag, set_user_id_flag, set_app_id_flag, set_cluster_id_flag,
}
use amqprs.Frame.ContentHeader.Setters.{
  Setter, apply, build, with_content_type, with_content_encoding, with_headers, with_delivery_mode,
  with_priority, with_correlation_id, with_reply_to, with_expiration, with_message_id,
  with_timestamp, with_message_type, with_user_id, with_app_id, with_cluster_id, with_persistence,
  set_content_type, set_content_encoding, set_headers, set_delivery_mode, set_priority,
  set_correlation_id, set_reply_to, set_expiration, set_message_id, set_timestamp, set_message_type,
  set_user_id, set_app_id, set_cluster_id, set_persistence,
}

-- The bits of `v` from the `j`th on, counted from the top, are `bs`.
abbrev pub Agrees : ℕ → ℕ → List Bool → Type 0
Agrees v j [] = Unit
Agrees v j (b ∷ bs) = (has v (mask j) ≡ b) × Agrees v (suc j) bs

abbrev pub set_from : ℕ → ℕ → List Bool → List Bool
set_from i j [] = []
set_from i j (b ∷ bs) = (if i == j then true else b) ∷ set_from i (suc j) bs

pub Agrees-set :
    (v i j : ℕ) (bs : List Bool)
    → v < 256
    → i < 8
    → j + length bs ≤ 8
    → Agrees v j bs
    → Agrees (bit_or v (mask i)) j (set_from i j bs)
Agrees-set v i j [] hv hi hj a = tt
Agrees-set v i j (b ∷ bs) hv hi hj a = (
  ground (arith, has-bit_or v i j hv hi (omega arith), a.0),
  Agrees-set v i (suc j) bs hv hi (omega arith) a.1,
)

pub Agrees-same :
    {v v' : ℕ} {bs bs' : List Bool} → v' ≡ v → bs' ≡ bs → Agrees v 0 bs → Agrees v' 0 bs'
Agrees-same {v} {v'} {bs} {bs'} e f a =
    subst (λ (n : ℕ). Agrees n 0 bs') (sym e) (subst (λ (cs : List Bool). Agrees v 0 cs) (sym f) a)

abbrev pub first_set : BasicProperties → List Bool
first_set p =
    is_some p.content_type
    ∷ is_some p.content_encoding
    ∷ is_some p.headers
    ∷ is_some p.delivery_mode
    ∷ is_some p.priority
    ∷ is_some p.correlation_id
    ∷ is_some p.reply_to
    ∷ is_some p.expiration
    ∷ []

abbrev pub second_set : BasicProperties → List Bool
second_set p =
    is_some p.message_id
    ∷ is_some p.timestamp
    ∷ is_some p.message_type
    ∷ is_some p.user_id
    ∷ is_some p.app_id
    ∷ is_some p.cluster_id
    ∷ []

-- Bit `7 - j` of a byte of flags is set exactly when the `j`th of its properties is.
pub record IsFlagged (p : BasicProperties) : Type 0 where
  pub first_byte : p.property_flags.0 < 256
  pub second_byte : p.property_flags.1 < 256
  pub first_agrees : Agrees p.property_flags.0 0 (first_set p)
  pub second_agrees : Agrees p.property_flags.1 0 (second_set p)

-- What a call returns, unless it panics.
abbrev pub Returns {ℓ} : {A : Type ℓ} → (A → Type 0) → Outcome A → Type 0
Returns P (done a) = P a
Returns P panic = Unit

Returns-unwrap {ℓ κ} :
    {A : Type ℓ} {B : Type κ} (P : B → Type 0) (o : Option A) (f : A → Outcome B)
    → ((a : A) → Returns P (f a))
    → Returns P (unwrap o >>= f)
Returns-unwrap P none f h = tt
Returns-unwrap P (some a) f h = h a

pub Returns-bind {ℓ κ} :
    {A : Type ℓ} {B : Type κ} (Q : A → Type 0) (P : B → Type 0) (r : Outcome A) (f : A → Outcome B)
    → Returns Q r
    → ((a : A) → Q a → Returns P (f a))
    → Returns P (r >>= f)
Returns-bind Q P panic f q h = tt
Returns-bind Q P (done a) f q h = h a q

flag_first :
    (p p' : BasicProperties) (i : ℕ)
    → IsFlagged p
    → i < 8
    → p'.property_flags ≡ (bit_or p.property_flags.0 (mask i), p.property_flags.1)
    → first_set p' ≡ set_from i 0 (first_set p)
    → second_set p' ≡ second_set p
    → IsFlagged p'
flag_first p p' i v h e f s = record {
  first_byte =
      subst IsByte (sym (ap (λ (x : ℕ × ℕ). x.0) e))
        (bit_or-byte p.property_flags.0 i v.first_byte h);
  second_byte = subst IsByte (sym (ap (λ (x : ℕ × ℕ). x.1) e)) v.second_byte;
  first_agrees =
      Agrees-same (ap (λ (x : ℕ × ℕ). x.0) e) f (
        Agrees-set p.property_flags.0 i 0 (first_set p) v.first_byte h (omega arith)
          v.first_agrees);
  second_agrees = Agrees-same (ap (λ (x : ℕ × ℕ). x.1) e) s v.second_agrees;
}

flag_second :
    (p p' : BasicProperties) (i : ℕ)
    → IsFlagged p
    → i < 8
    → p'.property_flags ≡ (p.property_flags.0, bit_or p.property_flags.1 (mask i))
    → first_set p' ≡ first_set p
    → second_set p' ≡ set_from i 0 (second_set p)
    → IsFlagged p'
flag_second p p' i v h e f s = record {
  first_byte = subst IsByte (sym (ap (λ (x : ℕ × ℕ). x.0) e)) v.first_byte;
  second_byte =
      subst IsByte (sym (ap (λ (x : ℕ × ℕ). x.1) e))
        (bit_or-byte p.property_flags.1 i v.second_byte h);
  first_agrees = Agrees-same (ap (λ (x : ℕ × ℕ). x.0) e) f v.first_agrees;
  second_agrees = Agrees-same (ap (λ (x : ℕ × ℕ). x.1) e) s (
      Agrees-set p.property_flags.1 i 0 (second_set p) v.second_byte h (omega arith)
        v.second_agrees);
}

pub basic_default-IsFlagged : IsFlagged basic_default
unfolding has
basic_default-IsFlagged = record {
  first_byte = omega arith;
  second_byte = omega arith;
  first_agrees = (refl, (refl, (refl, (refl, (refl, (refl, (refl, (refl, tt))))))));
  second_agrees = (refl, (refl, (refl, (refl, (refl, (refl, tt))))));
}

-- A setter keeps the flags in agreement with the properties.
apply-IsFlagged : (s : Setter) (p : BasicProperties) → IsFlagged p → Returns IsFlagged (apply s p)
unfolding apply with_content_type with_content_encoding with_headers with_delivery_mode
    with_priority with_correlation_id with_reply_to with_expiration with_message_id with_timestamp
    with_message_type with_user_id with_app_id with_cluster_id with_persistence
    set_content_type_flag set_content_encoding_flag set_headers_flag set_delivery_mode_flag
    set_priority_flag set_correlation_id_flag set_reply_to_flag set_expiration_flag
    set_message_id_flag set_timestamp_flag set_message_type_flag set_user_id_flag set_app_id_flag
    set_cluster_id_flag
apply-IsFlagged (set_content_type t) p v =
    Returns-unwrap IsFlagged (short_str t)
      (λ s. done (record p {
        property_flags = set_content_type_flag p.property_flags;
        content_type = some s;
      }))
      (λ s.
        flag_first p
          (record p {
            property_flags = set_content_type_flag p.property_flags;
            content_type = some s;
          })
          0 v (omega arith) refl refl refl)
apply-IsFlagged (set_content_encoding t) p v =
    Returns-unwrap IsFlagged (short_str t)
      (λ s. done (record p {
        property_flags = set_content_encoding_flag p.property_flags;
        content_encoding = some s;
      }))
      (λ s.
        flag_first p
          (record p {
            property_flags = set_content_encoding_flag p.property_flags;
            content_encoding = some s;
          })
          1 v (omega arith) refl refl refl)
apply-IsFlagged (set_headers t) p v =
    flag_first p (record p { property_flags = set_headers_flag p.property_flags; headers = some t })
      2 v (omega arith) refl refl refl
apply-IsFlagged (set_delivery_mode t) p v =
    flag_first p
      (record p {
        property_flags = set_delivery_mode_flag p.property_flags;
        delivery_mode = some t;
      })
      3 v (omega arith) refl refl refl
apply-IsFlagged (set_priority t) p v =
    flag_first p
      (record p { property_flags = set_priority_flag p.property_flags; priority = some t }) 4 v
      (omega arith) refl refl refl
apply-IsFlagged (set_correlation_id t) p v =
    Returns-unwrap IsFlagged (short_str t)
      (λ s. done (record p {
        property_flags = set_correlation_id_flag p.property_flags;
        correlation_id = some s;
      }))
      (λ s.
        flag_first p
          (record p {
            property_flags = set_correlation_id_flag p.property_flags;
            correlation_id = some s;
          })
          5 v (omega arith) refl refl refl)
apply-IsFlagged (set_reply_to t) p v =
    Returns-unwrap IsFlagged (short_str t)
      (λ s.
        done (record p { property_flags = set_reply_to_flag p.property_flags; reply_to = some s }))
      (λ s.
        flag_first p
          (record p { property_flags = set_reply_to_flag p.property_flags; reply_to = some s }) 6 v
          (omega arith) refl refl refl)
apply-IsFlagged (set_expiration t) p v =
    Returns-unwrap IsFlagged (short_str t)
      (λ s.
        done
          (record p { property_flags = set_expiration_flag p.property_flags; expiration = some s }))
      (λ s.
        flag_first p
          (record p { property_flags = set_expiration_flag p.property_flags; expiration = some s })
          7 v (omega arith) refl refl refl)
apply-IsFlagged (set_message_id t) p v =
    Returns-unwrap IsFlagged (short_str t)
      (λ s.
        done
          (record p { property_flags = set_message_id_flag p.property_flags; message_id = some s }))
      (λ s.
        flag_second p
          (record p { property_flags = set_message_id_flag p.property_flags; message_id = some s })
          0 v (omega arith) refl refl refl)
apply-IsFlagged (set_timestamp t) p v =
    flag_second p
      (record p { property_flags = set_timestamp_flag p.property_flags; timestamp = some t }) 1 v
      (omega arith) refl refl refl
apply-IsFlagged (set_message_type t) p v =
    Returns-unwrap IsFlagged (short_str t)
      (λ s. done (record p {
        property_flags = set_message_type_flag p.property_flags;
        message_type = some s;
      }))
      (λ s.
        flag_second p
          (record p {
            property_flags = set_message_type_flag p.property_flags;
            message_type = some s;
          })
          2 v (omega arith) refl refl refl)
apply-IsFlagged (set_user_id t) p v =
    Returns-unwrap IsFlagged (short_str t)
      (λ s.
        done (record p { property_flags = set_user_id_flag p.property_flags; user_id = some s }))
      (λ s.
        flag_second p
          (record p { property_flags = set_user_id_flag p.property_flags; user_id = some s }) 3 v
          (omega arith) refl refl refl)
apply-IsFlagged (set_app_id t) p v =
    Returns-unwrap IsFlagged (short_str t)
      (λ s. done (record p { property_flags = set_app_id_flag p.property_flags; app_id = some s }))
      (λ s.
        flag_second p
          (record p { property_flags = set_app_id_flag p.property_flags; app_id = some s }) 4 v
          (omega arith) refl refl refl)
apply-IsFlagged (set_cluster_id t) p v =
    Returns-unwrap IsFlagged (short_str t)
      (λ s.
        done
          (record p { property_flags = set_cluster_id_flag p.property_flags; cluster_id = some s }))
      (λ s.
        flag_second p
          (record p { property_flags = set_cluster_id_flag p.property_flags; cluster_id = some s })
          5 v (omega arith) refl refl refl)
apply-IsFlagged (set_persistence t) p v =
    flag_first p
      (record p {
        property_flags = set_delivery_mode_flag p.property_flags;
        delivery_mode = some (if t then 2 else 1);
      })
      3 v (omega arith) refl refl refl

-- A chain of the setters of message properties, begun on properties whose flag bits are set
-- exactly where a property is, returns such properties again, or panics.
pub build-IsFlagged :
    (ss : List Setter) (p : BasicProperties) → IsFlagged p → Returns IsFlagged (build ss p)
unfolding build
build-IsFlagged [] p v = v
build-IsFlagged (s ∷ ss) p v =
    Returns-bind IsFlagged IsFlagged (apply s p) (build ss) (apply-IsFlagged s p v)
      (λ p' v'. build-IsFlagged ss p' v')
