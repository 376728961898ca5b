-- ===== src/Frame/ContentHeader/New.antt =====
-- `BasicProperties::new` of amqprs/src/frame/content_header.rs sets the flags of what it is given.
use amqprs.Prelude.{
  ℕ, zero, suc, ◌+◌, ◌≤◌, ◌<◌, ◌≡◌, refl, sym, ap, ap₂, subst, Bool, true, false, List, [], ◌∷◌,
  Option, none, some, is_some, bit_or, ◌==◌, if◌then◌else◌, length, arith, Outcome, done, panic,
  ◌>>=◌,
}
use amqprs.Prelude
use amqprs.Prelude.Bits.{mask, has, bit_or-byte}
use amqprs.Serde.Types.{FieldTable, ShortStr, short_str}
use amqprs.Frame.ContentHeader.{
  set_content_type_flag, set_content_encoding_flag, set_headers_flag, set_delivery_mode_flag,
  set_priority_flag, set_correlation_id_flag, set_reply_to_flag, set_expiration_flag,
  set_message_id_flag, set_timestamp_flag, set_message_type_flag, set_user_id_flag, set_app_id_flag,
  set_cluster_id_flag,
}
use amqprs.Frame.ContentHeader.Setters.{new_properties}
use amqprs.Frame.ContentHeader.Setters.{flag_of, text_of}
use amqprs.Frame.ContentHeader.Flags.{
  Agrees, Agrees-set, Agrees-same, set_from, IsFlagged, Returns, Returns-bind,
}

abbrev put : ℕ → Bool → ℕ → List Bool → List Bool
put i b j [] = []
put i b j (x ∷ xs) = (if i == j then b else x) ∷ put i b (suc j) xs

set_from-put : (i j : ℕ) (bs : List Bool) → put i true j bs ≡ set_from i j bs
set_from-put i j [] = refl
set_from-put i j (b ∷ bs) =
    ap (λ (cs : List Bool). (if i == j then true else b) ∷ cs) (set_from-put i (suc j) bs)

-- Two bytes of flags that agree with two lists.
record FlagsAgree (flags : ℕ × ℕ) (one two : List Bool) : Type 0 where
  first_byte : flags.0 < 256
  second_byte : flags.1 < 256
  first_agrees : Agrees flags.0 0 one
  second_agrees : Agrees flags.1 0 two

step_first :
    {A : Type 0} {flags : ℕ × ℕ} {one two : List Bool} (o : Option A) (i : ℕ)
    → FlagsAgree flags one two
    → i < 8
    → length one ≤ 8
    → put i false 0 one ≡ one
    → FlagsAgree
        (flag_of o (λ fs. (bit_or fs.0 (mask i), fs.1)) flags)
        (put i (is_some o) 0 one)
        two
step_first {flags = flags} {one = one} {two = two} none i f h l e =
    subst (λ (bs : List Bool). FlagsAgree flags bs two) (sym e) f
step_first {flags = flags} {one = one} {two = two} (some a) i f h l e = record {
  first_byte = bit_or-byte flags.0 i f.first_byte h;
  second_byte = f.second_byte;
  first_agrees =
      Agrees-same refl (set_from-put i 0 one)
        (Agrees-set flags.0 i 0 one f.first_byte h (omega arith) f.first_agrees);
  second_agrees = f.second_agrees;
}

step_second :
    {A : Type 0} {flags : ℕ × ℕ} {one two : List Bool} (o : Option A) (i : ℕ)
    → FlagsAgree flags one two
    → i < 8
    → length two ≤ 8
    → put i false 0 two ≡ two
    → FlagsAgree
        (flag_of o (λ fs. (fs.0, bit_or fs.1 (mask i))) flags)
        one
        (put i (is_some o) 0 two)
step_second {flags = flags} {one = one} {two = two} none i f h l e =
    subst (λ (bs : List Bool). FlagsAgree flags one bs) (sym e) f
step_second {flags = flags} {one = one} {two = two} (some a) i f h l e = record {
  first_byte = f.first_byte;
  second_byte = bit_or-byte flags.1 i f.second_byte h;
  first_agrees = f.first_agrees;
  second_agrees =
      Agrees-same refl (set_from-put i 0 two)
        (Agrees-set flags.1 i 0 two f.second_byte h (omega arith) f.second_agrees);
}

text_of-Returns : (o : Option (List ℕ)) → Returns (λ t. is_some t ≡ is_some o) (text_of o)
text_of-Returns none = refl
text_of-Returns (some s) = of_short (short_str s)
  where
    of_short :
        (r : Option ShortStr)
        → Returns (λ t. is_some t ≡ true) (Prelude.unwrap r >>= λ t. done (some t))
    of_short none = tt
    of_short (some t) = refl

-- To bind a text: what comes behind may use that it is there exactly where the argument is.
Returns-text :
    {A : Type 0} (P : A → Type 0) (o : Option (List ℕ)) (k : Option ShortStr → Outcome A)
    → ((t : Option ShortStr) → is_some t ≡ is_some o → Returns P (k t))
    → Returns P (text_of o >>= k)
Returns-text P o k h =
    Returns-bind (λ t. is_some t ≡ is_some o) P (text_of o) k (text_of-Returns o) h

abbrev all_flags :
    Option (List ℕ)
    → Option (List ℕ)
    → Option FieldTable
    → Option ℕ
    → Option ℕ
    → Option (List ℕ)
    → Option (List ℕ)
    → Option (List ℕ)
    → Option (List ℕ)
    → Option ℕ
    → Option (List ℕ)
    → Option (List ℕ)
    → Option (List ℕ)
    → Option (List ℕ)
    → ℕ × ℕ
all_flags content_type content_encoding headers delivery_mode priority correlation_id reply_to
      expiration message_id timestamp message_type user_id app_id cluster_id =
    let flags₁ : ℕ × ℕ = flag_of content_type set_content_type_flag (0, 0) in
    let flags₂ : ℕ × ℕ = flag_of content_encoding set_content_encoding_flag flags₁ in
    let flags₃ : ℕ × ℕ = flag_of headers set_headers_flag flags₂ in
    let flags₄ : ℕ × ℕ = flag_of delivery_mode set_delivery_mode_flag flags₃ in
    let flags₅ : ℕ × ℕ = flag_of priority set_priority_flag flags₄ in
    let flags₆ : ℕ × ℕ = flag_of correlation_id set_correlation_id_flag flags₅ in
    let flags₇ : ℕ × ℕ = flag_of reply_to set_reply_to_flag flags₆ in
    let flags₈ : ℕ × ℕ = flag_of expiration set_expiration_flag flags₇ in
    let flags₉ : ℕ × ℕ = flag_of message_id set_message_id_flag flags₈ in
    let flags₁₀ : ℕ × ℕ = flag_of timestamp set_timestamp_flag flags₉ in
    let flags₁₁ : ℕ × ℕ = flag_of message_type set_message_type_flag flags₁₀ in
    let flags₁₂ : ℕ × ℕ = flag_of user_id set_user_id_flag flags₁₁ in
    let flags₁₃ : ℕ × ℕ = flag_of app_id set_app_id_flag flags₁₂ in
    let flags₁₄ : ℕ × ℕ = flag_of cluster_id set_cluster_id_flag flags₁₃ in flags₁₄

no_flags :
    FlagsAgree
      (0, 0)
      (false ∷ false ∷ false ∷ false ∷ false ∷ false ∷ false ∷ false ∷ [])
      (false ∷ false ∷ false ∷ false ∷ false ∷ false ∷ [])
unfolding has
no_flags = record {
  first_byte = omega arith;
  second_byte = omega arith;
  first_agrees = (refl, (refl, (refl, (refl, (refl, (refl, (refl, (refl, tt))))))));
  second_agrees = (refl, (refl, (refl, (refl, (refl, (refl, tt))))));
}

all_flags-Agree :
    (content_type : Option (List ℕ)) (content_encoding : Option (List ℕ))
    (headers : Option FieldTable) (delivery_mode : Option ℕ) (priority : Option ℕ)
    (correlation_id : Option (List ℕ)) (reply_to : Option (List ℕ)) (expiration : Option (List ℕ))
    (message_id : Option (List ℕ)) (timestamp : Option ℕ) (message_type : Option (List ℕ))
    (user_id : Option (List ℕ)) (app_id : Option (List ℕ)) (cluster_id : Option (List ℕ))
    → FlagsAgree
        (all_flags content_type content_encoding headers delivery_mode priority correlation_id
          reply_to expiration message_id timestamp message_type user_id app_id cluster_id)
        (is_some content_type
          ∷ is_some content_encoding
          ∷ is_some headers
          ∷ is_some delivery_mode
          ∷ is_some priority
          ∷ is_some correlation_id
          ∷ is_some reply_to
          ∷ is_some expiration
          ∷ [])
        (is_some message_id
          ∷ is_some timestamp
          ∷ is_some message_type
          ∷ is_some user_id
          ∷ is_some app_id
          ∷ is_some cluster_id
          ∷ [])
unfolding set_content_type_flag set_content_encoding_flag set_headers_flag set_delivery_mode_flag
    set_priority_flag set_correlation_id_flag set_reply_to_flag set_expiration_flag
    set_message_id_flag set_timestamp_flag set_message_type_flag set_user_id_flag set_app_id_flag
    set_cluster_id_flag
all_flags-Agree content_type content_encoding headers delivery_mode priority correlation_id reply_to
      expiration message_id timestamp message_type user_id app_id cluster_id =
    let f₁ = step_first content_type 0 no_flags (omega arith) (omega arith) refl in
    let f₂ = step_first content_encoding 1 f₁ (omega arith) (omega arith) refl in
    let f₃ = step_first headers 2 f₂ (omega arith) (omega arith) refl in
    let f₄ = step_first delivery_mode 3 f₃ (omega arith) (omega arith) refl in
    let f₅ = step_first priority 4 f₄ (omega arith) (omega arith) refl in
    let f₆ = step_first correlation_id 5 f₅ (omega arith) (omega arith) refl in
    let f₇ = step_first reply_to 6 f₆ (omega arith) (omega arith) refl in
    let f₈ = step_first expiration 7 f₇ (omega arith) (omega arith) refl in
    let f₉ = step_second message_id 0 f₈ (omega arith) (omega arith) refl in
    let f₁₀ = step_second timestamp 1 f₉ (omega arith) (omega arith) refl in
    let f₁₁ = step_second message_type 2 f₁₀ (omega arith) (omega arith) refl in
    let f₁₂ = step_second user_id 3 f₁₁ (omega arith) (omega arith) refl in
    let f₁₃ = step_second app_id 4 f₁₂ (omega arith) (omega arith) refl in
    step_second cluster_id 5 f₁₃ (omega arith) (omega arith) refl

-- BasicProperties::new returns properties whose flag bits are set exactly where a property is, or
-- panics.
pub new_properties-IsFlagged :
    (content_type : Option (List ℕ)) (content_encoding : Option (List ℕ))
    (headers : Option FieldTable) (delivery_mode : Option ℕ) (priority : Option ℕ)
    (correlation_id : Option (List ℕ)) (reply_to : Option (List ℕ)) (expiration : Option (List ℕ))
    (message_id : Option (List ℕ)) (timestamp : Option ℕ) (message_type : Option (List ℕ))
    (user_id : Option (List ℕ)) (app_id : Option (List ℕ)) (cluster_id : Option (List ℕ))
    → Returns IsFlagged (
        new_properties content_type content_encoding headers delivery_mode priority correlation_id
          reply_to expiration message_id timestamp message_type user_id app_id cluster_id)
unfolding new_properties
new_properties-IsFlagged content_type content_encoding headers delivery_mode priority correlation_id
      reply_to expiration message_id timestamp message_type user_id app_id cluster_id =
    let f =
      all_flags-Agree content_type content_encoding headers delivery_mode priority correlation_id
        reply_to expiration message_id timestamp message_type user_id app_id cluster_id in
    Returns-text IsFlagged content_type _ λ content_type' e_content_type.
      Returns-text IsFlagged content_encoding _ λ content_encoding' e_content_encoding.
        Returns-text IsFlagged correlation_id _ λ correlation_id' e_correlation_id.
          Returns-text IsFlagged reply_to _ λ reply_to' e_reply_to.
            Returns-text IsFlagged expiration _ λ expiration' e_expiration.
              Returns-text IsFlagged message_id _ λ message_id' e_message_id.
                Returns-text IsFlagged message_type _ λ message_type' e_message_type.
                  Returns-text IsFlagged user_id _ λ user_id' e_user_id.
                    Returns-text IsFlagged app_id _ λ app_id' e_app_id.
                      Returns-text IsFlagged cluster_id _ λ cluster_id' e_cluster_id.
                        let one : (is_some content_type'
                              ∷ is_some content_encoding'
                              ∷ is_some headers
                              ∷ is_some delivery_mode
                              ∷ is_some priority
                              ∷ is_some correlation_id'
                              ∷ is_some reply_to'
                              ∷ is_some expiration'
                              ∷ [])
                            ≡ (is_some content_type
                                ∷ is_some content_encoding
                                ∷ is_some headers
                                ∷ is_some delivery_mode
                                ∷ is_some priority
                                ∷ is_some correlation_id
                                ∷ is_some reply_to
                                ∷ is_some expiration
                                ∷ []) =
                          rw
                            (
                              e_content_type, e_content_encoding, e_correlation_id, e_reply_to,
                              e_expiration,
                            )
                            refl in
                        let two : (is_some message_id'
                              ∷ is_some timestamp
                              ∷ is_some message_type'
                              ∷ is_some user_id'
                              ∷ is_some app_id'
                              ∷ is_some cluster_id'
                              ∷ [])
                            ≡ (is_some message_id
                                ∷ is_some timestamp
                                ∷ is_some message_type
                                ∷ is_some user_id
                                ∷ is_some app_id
                                ∷ is_some cluster_id
                                ∷ []) =
                          rw (e_message_id, e_message_type, e_user_id, e_app_id, e_cluster_id)
                            refl in
                        record {
                          first_byte = f.first_byte;
                          second_byte = f.second_byte;
                          first_agrees = Agrees-same refl one f.first_agrees;
                          second_agrees = Agrees-same refl two f.second_agrees;
                        }
