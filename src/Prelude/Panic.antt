-- ===== src/Prelude/Panic.antt =====
-- What a Rust function that may panic returns. A failed `assert!`, `unwrap`, `expect`, index or
-- overflow check is `panic`, and so are `unreachable!` and `unimplemented!`.
use mathlib.Core.Bool.{Bool, true, false}
use mathlib.Core.Path.{◌≡◌, subst}
use amqprs.Prelude.Tests.{if◌then◌else◌}
use mathlib.Core.Option.{Option, none, some}

pub data Outcome {ℓ} (A : Type ℓ) : Type ℓ where
  done : A → Outcome A
  panic : Outcome A

infixl 5 ◌>>=◌ ◌>>◌
abbrev pub ◌>>=◌ {ℓ κ} : {A : Type ℓ} {B : Type κ} → Outcome A → (A → Outcome B) → Outcome B
done a >>= f = f a
panic >>= f = panic

abbrev pub ◌>>◌ {ℓ} : {B : Type ℓ} → Outcome (Unit {0}) → Outcome B → Outcome B
m >> k = m >>= λ _. k

-- `assert!(b)`.
abbrev pub assert : Bool → Outcome (Unit {0})
assert true = done tt
assert false = panic

-- `o.unwrap()`, `o.expect(..)`, and an index that is checked.
abbrev pub unwrap {ℓ} : {A : Type ℓ} → Option A → Outcome A
unwrap none = panic
unwrap (some a) = done a

-- What holds of the value if the call returns.
pub data Keeps {ℓ κ} {A : Type ℓ} (Good : A → Type κ) : Outcome A → Type (ℓ ⊔ κ) where
  stopped : Keeps Good panic
  kept : {a : A} → Good a → Keeps Good (done a)

module _ {ℓ κ μ} {A : Type ℓ} {B : Type κ} {Good : B → Type μ} where
  pub Keeps-bind :
      (o : Outcome A) {f : A → Outcome B} → ((a : A) → Keeps Good (f a)) → Keeps Good (o >>= f)
  Keeps-bind panic h = stopped
  Keeps-bind (done a) h = h a

-- With what holds of the first value.
module _ {ℓ κ μ ν} {A : Type ℓ} {B : Type κ} {First : A → Type ν} {Good : B → Type μ} where
  pub Keeps-then :
      (o : Outcome A) {f : A → Outcome B}
      → Keeps First o
      → ((a : A) → First a → Keeps Good (f a))
      → Keeps Good (o >>= f)
  Keeps-then panic k h = stopped
  Keeps-then (done a) (kept g) h = h a g

module _ {ℓ κ} {A : Type ℓ} {Good : A → Type κ} where
  pub Keeps-if :
      (b : Bool) {x y : Outcome A} → Keeps Good x → Keeps Good y → Keeps Good (if b then x else y)
  Keeps-if true hx hy = hx
  Keeps-if false hx hy = hy

  pub keeps_done : (o : Outcome A) (a : A) → o ≡ done a → Keeps Good o → Good a
  keeps_done panic a e k = absurd (cc)
  keeps_done (done x) a e (kept g) = let same : x ≡ a = cc in subst Good same g
