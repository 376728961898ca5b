-- ===== src/Serde/Utf8.antt =====
-- `std::str::from_utf8`, which amqp_serde/src/de.rs calls: whether bytes are well-formed UTF-8.
use amqprs.Prelude.{
  ℕ, ◌-◌, ◌≤◌, ◌<◌, arith, ◌≡◌, refl, ap, Bool, true, false, ◌&&◌, List, [], ◌∷◌, Option, none,
  some, ltb, leb, ◌==◌, if◌then◌else◌,
}

-- The continuation bytes still to come, and the range of the next one.
pub record Utf8State : Type 0 where
  pub need : ℕ
  pub lo : ℕ
  pub hi : ℕ

abbrev between : ℕ → ℕ → ℕ → Bool
between lo b hi = leb lo b && leb b hi

abbrev cont : ℕ → ℕ → ℕ → Option Utf8State
cont need lo hi = some (record { need = need; lo = lo; hi = hi })

lead : ℕ → Option Utf8State
lead b =
    if ltb b 0x80
    then cont 0 0x80 0xbf
    else if between 0xc2 b 0xdf
    then cont 1 0x80 0xbf
    else if b == 0xe0
    then cont 2 0xa0 0xbf
    else if b == 0xed
    then cont 2 0x80 0x9f
    else if between 0xe1 b 0xef
    then cont 2 0x80 0xbf
    else if b == 0xf0
    then cont 3 0x90 0xbf
    else if between 0xf1 b 0xf3
    then cont 3 0x80 0xbf
    else if b == 0xf4
    then cont 3 0x80 0x8f
    else none

utf8_step : Utf8State → ℕ → Option Utf8State
unfolding lead
utf8_step s b =
    if s.need == 0
    then lead b
    else if between s.lo b s.hi
    then cont (s.need - 1) 0x80 0xbf
    else none

utf8_run : Utf8State → List ℕ → Bool
utf8_run s [] = s.need == 0
utf8_run s (b ∷ bs) = elim (utf8_step s b) [ none ↦ false | some s' ↦ utf8_run s' bs ]

unfoldable pub from_utf8 : List ℕ → Bool
unfolding utf8_run utf8_step
from_utf8 bs = utf8_run (record { need = 0; lo = 0x80; hi = 0xbf }) bs

lead-none : (b : ℕ) → 0x80 ≤ b → b < 0xc2 → lead b ≡ none
unfolding lead
lead-none b low high = ground arith

pub from_utf8-not_lead : (b : ℕ) (bs : List ℕ) → 0x80 ≤ b → b < 0xc2 → from_utf8 (b ∷ bs) ≡ false
unfolding from_utf8 utf8_run utf8_step
from_utf8-not_lead b bs low high =
    ap {A = Option Utf8State} (λ o. elim o [ none ↦ false | some s' ↦ utf8_run s' bs ])
      (lead-none b low high)

-- "é€" is well formed; an overlong form, a surrogate and a cut character are not.
from_utf8_samples :
    (from_utf8 (0xc3 ∷ 0xa9 ∷ 0xe2 ∷ 0x82 ∷ 0xac ∷ []) ≡ true)
    × (from_utf8 (0xc0 ∷ 0x80 ∷ []) ≡ false)
    × (from_utf8 (0xed ∷ 0xa0 ∷ 0x80 ∷ []) ≡ false)
    × (from_utf8 (0x41 ∷ 0xe2 ∷ 0x82 ∷ []) ≡ false)
unfolding from_utf8
from_utf8_samples = (refl, refl, refl, refl)
