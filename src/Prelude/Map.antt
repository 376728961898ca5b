-- ===== src/Prelude/Map.antt =====
-- A map as an association list, for the standard library's HashMap and BTreeMap. The order of the
-- entries is an order of iteration.
use mathlib.Core.Path.{◌≡◌, refl, subst}
use mathlib.Core.Bool.{Bool, true, false}
use mathlib.Core.Option.{Option, none, some}
use mathlib.Core.List.{List, [], ◌∷◌}
use native.Mathlib.Omega.{arith}
use amqprs.Prelude.Tests.{if◌then◌else◌}
use amqprs.Prelude.Keys.{Eq}

module _ {ℓ κ} {K : Type ℓ} {V : Type κ} ⦃e : Eq K⦄ where
  abbrev pub lookup : K → List (K × V) → Option V
  lookup k [] = none
  lookup k ((j, v) ∷ m) = if e.beq j k then some v else lookup k m

  -- The new entry takes the place of an old one.
  abbrev pub insert : K → V → List (K × V) → List (K × V)
  insert k v [] = (k, v) ∷ []
  insert k v ((j, w) ∷ m) = if e.beq j k then (k, v) ∷ m else (j, w) ∷ insert k v m

  abbrev pub remove : K → List (K × V) → List (K × V)
  remove k [] = []
  remove k ((j, w) ∷ m) = let rest = remove k m in if e.beq j k then rest else (j, w) ∷ rest

  pub lookup-insert :
      (k j : K) (v : V) (m : List (K × V))
      → lookup j (insert k v m) ≡ (if e.beq k j then some v else lookup j m)
  lookup-insert k j v [] = refl
  lookup-insert k j v ((i, w) ∷ m) =
      ground (arith, e.beq_iff k j, e.beq_iff i k, e.beq_iff i j, lookup-insert k j v m)

  pub lookup-remove :
      (k j : K) (m : List (K × V))
      → lookup j (remove k m) ≡ (if e.beq k j then none else lookup j m)
  lookup-remove k j [] = ground arith
  lookup-remove k j ((i, w) ∷ m) =
      ground (arith, e.beq_iff k j, e.beq_iff i k, e.beq_iff i j, lookup-remove k j m)

-- A predicate on the values of a map.
module _ {ℓ κ μ} {K : Type ℓ} {V : Type κ} ⦃e : Eq K⦄ (Good : V → Type μ) where
  abbrev pub AllValues : List (K × V) → Type μ
  AllValues [] = Unit {μ}
  AllValues ((k, v) ∷ m) = Good v × AllValues m

  pub AllValues-lookup :
      (k : K) (m : List (K × V)) (v : V) → AllValues m → lookup k m ≡ some v → Good v
  AllValues-lookup k [] v a found = absurd (cc found)
  AllValues-lookup k ((j, w) ∷ m) v a found = go (e.beq j k) found (AllValues-lookup k m v a.1)
    where
      go :
          (b : Bool)
          → (if b then some w else lookup k m) ≡ some v
          → (lookup k m ≡ some v → Good v)
          → Good v
      go true eq rest = let same : w ≡ v = cc eq in subst Good same a.0
      go false eq rest = rest eq

  pub AllValues-insert :
      (k : K) (v : V) (m : List (K × V)) → AllValues m → Good v → AllValues (insert k v m)
  AllValues-insert k v [] a g = (g, tt)
  AllValues-insert k v ((j, w) ∷ m) a g = go (e.beq j k) (AllValues-insert k v m a.1 g)
    where
      go :
          (b : Bool)
          → AllValues (insert k v m)
          → AllValues (if b then (k, v) ∷ m else (j, w) ∷ insert k v m)
      go true rest = (g, a.1)
      go false rest = (a.0, rest)

  pub AllValues-remove : (k : K) (m : List (K × V)) → AllValues m → AllValues (remove k m)
  AllValues-remove k [] a = tt
  AllValues-remove k ((j, w) ∷ m) a = go (e.beq j k) (AllValues-remove k m a.1)
    where
      go :
          (b : Bool)
          → AllValues (remove k m)
          → AllValues (if b then remove k m else (j, w) ∷ remove k m)
      go true rest = rest
      go false rest = (a.0, rest)
