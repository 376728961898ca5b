-- ===== src/Net/ChannelIdRepo/Bitmap.antt =====
-- The bitmap of channel_id_repo.rs as a set of ids: what a write of one byte and the search for a
-- byte that is not full do to the set.
use amqprs.Prelude.{
  ℕ, zero, suc, ◌+◌, ◌-◌, ◌*◌, ◌/◌, ◌%◌, ◌≤◌, ◌<◌, ◌≡◌, ◌≢◌, refl, sym, ap, ◌⊎◌, inl, inr, Bool,
  true, false, not, List, [], ◌∷◌, Option, none, some, ◌==◌, ==_iff, if◌then◌else◌, bit_and, arith,
  get_elem?, set, length, get_elem?-set_self, get_elem?-set_ne, lt_of_get_elem?, Bool-cases, ◌&&◌,
  ltb,
}
use amqprs.Prelude.Bits.{mask, has, all_below, all_below_sound}
use amqprs.Net.ChannelIdRepo.{position}

abbrev pub has_at : Option ℕ → ℕ → Bool
has_at none m = false
has_at (some v) m = has v m

-- Whether the bit of an id is set; ids count from 1.
abbrev pub occupied : List ℕ → ℕ → Bool
occupied bytes id = has_at (get_elem? bytes ((id - 1) / 8)) (mask ((id - 1) % 8))

pub occupied_at :
    (bytes : List ℕ) (pos i v : ℕ)
    → i < 8
    → get_elem? bytes pos ≡ some v
    → occupied bytes (pos * 8 + i + 1) ≡ has v (mask i)
occupied_at bytes pos i v hi e =
    let q : (pos * 8 + i + 1 - 1) / 8 ≡ pos = omega arith in
    let r : (pos * 8 + i + 1 - 1) % 8 ≡ i = omega arith in rw (q, r, e)

-- A byte that differs from the old one in bit `i` alone changes one id.
pub occupied-set :
    (bytes : List ℕ) (pos i v w : ℕ) (b : Bool) (j : ℕ)
    → get_elem? bytes pos ≡ some v
    → i < 8
    → ((r : ℕ) → r < 8 → has w (mask r) ≡ (if i == r then b else has v (mask r)))
    → 1 ≤ j
    → occupied (set bytes pos w) j ≡ (if pos * 8 + i + 1 == j then b else occupied bytes j)
occupied-set bytes pos i v w b j e hi h hj = elim (Bool-cases ((j - 1) / 8 == pos)) [
  | inl same ↦
      let q : (j - 1) / 8 ≡ pos = (==_iff _ pos).0 same in
      rw (q, get_elem?-set_self bytes pos w (lt_of_get_elem? bytes pos v e), e)
        (ground (arith, h ((j - 1) % 8) (omega arith)))
  | inr other ↦
      let q : pos ≢ (j - 1) / 8 = λ p. cc (other, (==_iff ((j - 1) / 8) pos).1 (sym p)) in
      rw (get_elem?-set_ne bytes pos ((j - 1) / 8) w q) (ground arith)
]

full_table : all_below 8 (λ j. has 255 (mask j)) ≡ true
unfolding all_below has
full_table = refl

pub has-full : (j : ℕ) → j < 8 → has 255 (mask j) ≡ true
has-full j h = all_below_sound 8 (λ j. has 255 (mask j)) j full_table h

pub occupied-full :
    (bytes : List ℕ) (j : ℕ) → get_elem? bytes ((j - 1) / 8) ≡ some 255 → occupied bytes j ≡ true
occupied-full bytes j e = rw e (has-full ((j - 1) % 8) (omega arith))

-- The first clear bit among the last `k` of a byte.
unfoldable pub first_free : ℕ → ℕ → Option ℕ
first_free zero v = none
first_free (suc k) v =
    let rest = first_free k v in if bit_and (mask (7 - k)) v == 0 then some (7 - k) else rest

abbrev first_free_checked : Option ℕ → ℕ → Bool
first_free_checked none v = v == 255
first_free_checked (some i) v = ltb i 8 && not (has v (mask i)) && all_below i (λ j. has v (mask j))

first_free_table : all_below 256 (λ v. first_free_checked (first_free 8 v) v) ≡ true
unfolding all_below first_free has
first_free_table = refl

checked_cases :
    (o : Option ℕ) (v : ℕ)
    → v ≢ 255
    → first_free_checked o v ≡ true
    → (i : ℕ) × (o ≡ some i)
      × (i < 8)
      × (has v (mask i) ≡ false)
      × (all_below i (λ j. has v (mask j)) ≡ true)
checked_cases none v h e = absurd (h ((==_iff v 255).0 e))
checked_cases (some i) v h e = (i, refl, ground arith, ground arith, ground arith)

-- A byte other than 255 has a first clear bit, and the bits before it are set.
pub first_free_lem :
    (v : ℕ)
    → v < 256
    → v ≢ 255
    → (i : ℕ) × (first_free 8 v ≡ some i)
      × (i < 8)
      × (has v (mask i) ≡ false)
      × ((j : ℕ) → j < i → has v (mask j) ≡ true)
first_free_lem v hv h =
    let (i, e, lt, clear, before) =
      checked_cases (first_free 8 v) v h
        (all_below_sound 256 (λ v. first_free_checked (first_free 8 v) v) v first_free_table hv) in
    (i, e, lt, clear, λ j hj. all_below_sound i (λ j. has v (mask j)) j before hj)

-- What `position` finds from index `p` on, or that there is nothing to find.
pub record Found (bytes : List ℕ) (p q : ℕ) : Type 0 where
  pub k : ℕ
  pub v : ℕ
  pub index : q ≡ p + k
  pub here : get_elem? bytes k ≡ some v
  pub not_full : v ≢ 255
  pub before : (i : ℕ) → i < k → get_elem? bytes i ≡ some 255

before_step :
    (bytes : List ℕ) (b k : ℕ)
    → b ≡ 255
    → ((i : ℕ) → i < k → get_elem? bytes i ≡ some 255)
    → (i : ℕ) → i < suc k
    → get_elem? (b ∷ bytes) i ≡ some 255
before_step bytes b k e h zero lt = ap some e
before_step bytes b k e h (suc i) lt = h i (omega arith)

pub position_cases :
    (bytes : List ℕ) (p : ℕ)
    → ((position bytes p ≡ none) × ((i : ℕ) → i < length bytes → get_elem? bytes i ≡ some 255))
      ⊎ ((q : ℕ) × (position bytes p ≡ some q) × Found bytes p q)
unfolding position
position_cases [] p = inl (refl, λ i h. elim h [ ])
position_cases (b ∷ bytes) p = elim (Bool-cases (b == 255)) [
  | inl full ↦
      let e : b ≡ 255 = (==_iff b 255).0 full in
      elim (position_cases bytes (suc p)) [
        | inl (n, all) ↦ inl (rw full n, before_step bytes b (length bytes) e all)
        | inr (q, s, f) ↦ inr (
          q,
          rw full s,
          record {
            k = suc f.k;
            v = f.v;
            index = omega (arith, f.index);
            here = f.here;
            not_full = f.not_full;
            before = before_step bytes b f.k e f.before;
          },
        )
      ]
  | inr free ↦ inr (
    p,
    rw free refl,
    record {
      k = 0;
      v = b;
      index = omega arith;
      here = refl;
      not_full = λ e. cc (free, (==_iff b 255).1 e);
      before = λ i h. elim h [ ];
    },
  )
]
