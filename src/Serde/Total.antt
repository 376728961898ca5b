-- ===== src/Serde/Total.antt =====
-- The deserializer of de.rs on any input: with the fuel that the length of the input gives, the
-- parsers of field values do not run out of it, whatever they come to.
use amqprs.Prelude.{ℕ, zero, suc, ◌+◌, ◌≤◌, ◌<◌, inl, inr, length, ◌==◌, arith, Bool-cases}
use amqprs.Serde.Types.{FieldValue, FieldValues, FieldEntries, no_entries, insert_entry}
use amqprs.Serde.De.{
  Deserializer, t_, b_, b_upper, s_, u_, i_upper, i_, l_, f_, d_, d_upper, s_upper, a_upper,
  t_upper, f_upper, v_upper, x_, M, bind, ◌>>=◌, return, Tag, parse_num, parse_bool, parse_u8,
  parse_u32, get_parsed_length, de_short_str, de_long_str, de_decimal, de_byte_array, variant_seed,
  counted, de_payload, de_value, de_values, de_entries,
}
use amqprs.Serde.Takes.{
  Takes, Takes-bind, parse_num-Takes, parse_bool-Takes, parse_u8-Takes, parse_u32-Takes,
  get_parsed_length-Takes, Takes-weaken, Takes-map, counted-Takes, de_short_str-Takes,
  de_long_str-Takes, de_byte_array-Takes, de_decimal-Takes, variant_seed-Takes,
}

-- A number of some width, made into a value.
number-Takes :
    (size : ℕ) (d : Deserializer) (f : ℕ → FieldValue)
    → Takes 0 d (bind (parse_num size d) (λ v. return (f v)))
number-Takes size d f =
    Takes-map 0 d (parse_num size d) f
      (Takes-weaken 0 size d (parse_num size d) (omega arith) (parse_num-Takes size d))

-- A sequence behind its length.
sized-Takes {ℓ} :
    {B : Type ℓ} (k : ℕ → ℕ → M B) (d : Deserializer)
    → ((n len : ℕ) (d' : Deserializer)
        → length d'.input + 4 ≤ length d.input
        → Takes 0 d' (k n len d'))
    → Takes 0 d ((parse_u32 >>= λ n. get_parsed_length >>= λ len. k n len) d)
sized-Takes k d h = Takes-weaken 0 4 d _ (omega arith) (
    Takes-bind 4 0 d (parse_u32 d) _ (parse_u32-Takes d) λ n d₁ h₁.
      Takes-bind 0 0 d₁ (get_parsed_length d₁) _ (get_parsed_length-Takes d₁)
        λ len d₂ h₂. h n len d₂ (omega arith))

module _ (values : ℕ → M FieldValues) (entries : ℕ → M FieldEntries) (d : Deserializer) where
  de_payload-Takes :
      ((len : ℕ) (d' : Deserializer)
        → length d'.input + 4 ≤ length d.input
        → Takes 0 d' (values len d'))
      → ((len : ℕ) (d' : Deserializer)
          → length d'.input + 4 ≤ length d.input
          → Takes 0 d' (entries len d'))
      → (t : Tag) → Takes 0 d (de_payload values entries t d)
  unfolding de_payload
  de_payload-Takes hv he t_ =
      Takes-map 0 d (parse_bool d) _
        (Takes-weaken 0 1 d (parse_bool d) (omega arith) (parse_bool-Takes d))
  de_payload-Takes hv he b_ = number-Takes 1 d _
  de_payload-Takes hv he b_upper =
      Takes-map 0 d (parse_u8 d) _
        (Takes-weaken 0 1 d (parse_u8 d) (omega arith) (parse_u8-Takes d))
  de_payload-Takes hv he s_ = number-Takes 2 d _
  de_payload-Takes hv he u_ = number-Takes 2 d _
  de_payload-Takes hv he i_upper = number-Takes 4 d _
  de_payload-Takes hv he i_ =
      Takes-map 0 d (parse_u32 d) _
        (Takes-weaken 0 4 d (parse_u32 d) (omega arith) (parse_u32-Takes d))
  de_payload-Takes hv he l_ = number-Takes 8 d _
  de_payload-Takes hv he f_ = number-Takes 4 d _
  de_payload-Takes hv he d_ = number-Takes 8 d _
  de_payload-Takes hv he d_upper = Takes-map 0 d (de_decimal d) _ (de_decimal-Takes d)
  de_payload-Takes hv he s_upper = Takes-map 0 d (de_long_str d) _ (de_long_str-Takes d)
  de_payload-Takes hv he a_upper =
      sized-Takes (λ n len. values len >>= λ vs. return (FieldValue.field_array n vs)) d
        (λ n len d' h. Takes-map 0 d' (values len d') _ (hv len d' h))
  de_payload-Takes hv he t_upper = number-Takes 8 d _
  de_payload-Takes hv he f_upper =
      sized-Takes (λ n len. entries len >>= λ es. return (FieldValue.field_table n es)) d
        (λ n len d' h. Takes-map 0 d' (entries len d') _ (he len d' h))
  de_payload-Takes hv he v_upper = omega arith
  de_payload-Takes hv he x_ = Takes-map 0 d (de_byte_array d) _ (de_byte_array-Takes d)

mutual
  unfolding de_values

  de_value-Takes :
      (fuel : ℕ) (d : Deserializer) → length d.input < fuel → Takes 1 d (de_value fuel d)
  de_value-Takes zero d h = absurd (omega arith)
  de_value-Takes (suc fuel) d h =
      Takes-bind 1 0 d (variant_seed d) _ (variant_seed-Takes d) λ t d' h'.
        de_payload-Takes (de_values fuel) (de_entries fuel no_entries) d'
          (λ len d'' h''. de_values-Takes fuel len d'' (omega arith))
          (λ len d'' h''. de_entries-Takes fuel no_entries len d'' (omega arith)) t

  de_values-Takes :
      (fuel len : ℕ) (d : Deserializer)
      → 1 + length d.input < fuel
      → Takes 0 d (de_values fuel len d)
  de_values-Takes zero len d h = absurd (omega arith)
  de_values-Takes (suc fuel) len d h = elim (Bool-cases (len == 0)) [
    | inl e ↦ rw e (omega arith)
    | inr e ↦ rw e (
        Takes-weaken 0 1 d _ (omega arith) (
          Takes-bind 1 0 d (counted len (de_value fuel) d) _
            (counted-Takes 1 len d (de_value fuel) (de_value-Takes fuel d (omega arith)))
            λ r d' h'.
              Takes-map 0 d' (de_values fuel r.1 d') _ (de_values-Takes fuel r.1 d' (omega arith))))
  ]

  de_entries-Takes :
      (fuel : ℕ) (acc : FieldEntries) (len : ℕ) (d : Deserializer)
      → 1 + length d.input < fuel
      → Takes 0 d (de_entries fuel acc len d)
  de_entries-Takes zero acc len d h = absurd (omega arith)
  de_entries-Takes (suc fuel) acc len d h = elim (Bool-cases (len == 0)) [
    | inl e ↦ rw e (omega arith)
    | inr e ↦ rw e (
        Takes-weaken 0 2 d _ (omega arith) (
          Takes-bind 1 1 d (counted len de_short_str d) _
            (counted-Takes 1 len d de_short_str (de_short_str-Takes d))
            λ k d' h'.
              Takes-bind 1 0 d' (counted k.1 (de_value fuel) d') _
                (counted-Takes 1 k.1 d' (de_value fuel) (de_value-Takes fuel d' (omega arith)))
                λ v d'' h''.
                  de_entries-Takes fuel (insert_entry k.0 v.0 acc) v.1 d'' (omega arith)))
  ]
