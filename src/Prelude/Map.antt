-- ===== src/Prelude/Map.antt =====
-- Hash maps and hash sets, as association lists without an order that the program can see.
use Prim.Native.Nat.{◌+◌, ◌≤◌}
use mathlib.Core.Path.{◌≡◌, refl, subst}
use mathlib.Core.Logic.{◌≢◌, inl, inr}
use mathlib.Core.Bool.{Bool, true, false}
use mathlib.Core.Option.{Option, none, some}
use mathlib.Core.List.{List, [], ◌∷◌}
use native.Mathlib.Omega.{arith}
use crosspaste_server.Prelude.Tests.{Comparable, ◌==◌, if◌then◌else◌, is_some, Bool-cases}
use crosspaste_server.Prelude.Lists.{length, keep_if}

abbrev pub Map {ℓ κ} : Type ℓ → Type κ → Type (ℓ ⊔ κ)
Map K V = List (K × V)

module _ {ℓ} {K : Type ℓ} ⦃e : Comparable K⦄ where
  pub same_refl : (k : K) → (k == k) ≡ true
  same_refl k = (e.same_iff k k).1 refl

  pub same_ne : (a b : K) → a ≢ b → (a == b) ≡ false
  same_ne a b h = ground (arith, e.same_iff a b)

module _ {ℓ κ} {K : Type ℓ} {V : Type κ} ⦃e : Comparable K⦄ where
  unfoldable pub lookup : K → Map K V → Option V
  lookup k [] = none
  lookup k ((j, v) ∷ m) = if j == k then some v else lookup k m

  unfoldable pub without : K → Map K V → Map K V
  without k [] = []
  without k ((j, v) ∷ m) = let rest = without k m in if j == k then rest else (j, v) ∷ rest

  unfoldable pub insert : K → V → Map K V → Map K V
  unfolding without
  insert k v m = (k, v) ∷ without k m

  abbrev pub contains_key : K → Map K V → Bool
  contains_key k m = is_some (lookup k m)

  pub lookup-without :
      (k j : K) (m : Map K V) → lookup j (without k m) ≡ (if k == j then none else lookup j m)
  unfolding lookup without
  lookup-without k j [] = ground arith
  lookup-without k j ((i, v) ∷ m) =
      ground (arith, lookup-without k j m, e.same_iff i k, e.same_iff i j, e.same_iff k j)

  pub lookup-insert :
      (k j : K) (v : V) (m : Map K V)
      → lookup j (insert k v m) ≡ (if k == j then some v else lookup j m)
  unfolding lookup insert
  lookup-insert k j v m = ground (arith, lookup-without k j m)

  pub lookup-insert_self : (k : K) (v : V) (m : Map K V) → lookup k (insert k v m) ≡ some v
  lookup-insert_self k v m = simp (lookup-insert, same_refl)

  pub length-without-le : (k : K) (m : Map K V) → length (without k m) ≤ length m
  unfolding without
  length-without-le k [] = omega arith
  length-without-le k ((j, v) ∷ m) = ground (arith, length-without-le k m)

  pub length-insert-le : (k : K) (v : V) (m : Map K V) → length (insert k v m) ≤ length m + 1
  unfolding insert
  length-insert-le k v m = omega (arith, length-without-le k m)

  pub lookup-insert_ne :
      (k j : K) (v : V) (m : Map K V) → k ≢ j → lookup j (insert k v m) ≡ lookup j m
  lookup-insert_ne k j v m h = rw (lookup-insert k j v m, same_ne k j h)

  pub lookup-without_self : (k : K) (m : Map K V) → lookup k (without k m) ≡ none
  lookup-without_self k m = rw (lookup-without k k m, same_refl k)

  pub lookup-without_ne : (k j : K) (m : Map K V) → k ≢ j → lookup j (without k m) ≡ lookup j m
  lookup-without_ne k j m h = rw (lookup-without k j m, same_ne k j h)

pub ruleset map_laws = (lookup-insert, lookup-without)

-- A predicate on every value of a map.
abbrev pub Values {ℓ κ μ} : {K : Type ℓ} {V : Type κ} → (V → Type μ) → Map K V → Type μ
Values P [] = Unit
Values P ((k, v) ∷ m) = P v × Values P m

module _ {ℓ κ μ} {K : Type ℓ} {V : Type κ} ⦃e : Comparable K⦄ (P : V → Type μ) where
  pub Values-without : (k : K) (m : Map K V) → Values P m → Values P (without k m)
  unfolding without
  Values-without k [] h = tt
  Values-without k ((j, v) ∷ m) h = elim (Bool-cases (j == k)) [
    | inl hit ↦ rw hit (Values-without k m h.1)
    | inr miss ↦ rw miss (h.0, Values-without k m h.1)
  ]

  pub Values-insert : (k : K) (v : V) (m : Map K V) → P v → Values P m → Values P (insert k v m)
  unfolding insert
  Values-insert k v m p h = (p, Values-without k m h)

  pub Values-lookup : (k : K) (m : Map K V) (v : V) → Values P m → lookup k m ≡ some v → P v
  unfolding lookup
  Values-lookup k [] v h found = cc
  Values-lookup k ((j, w) ∷ m) v h found = elim (Bool-cases (j == k)) [
    | inl hit ↦ let same : w ≡ v = ground arith in subst P same h.0
    | inr miss ↦ Values-lookup k m v h.1 (rw miss at found)
  ]

module _ {ℓ κ μ} {K : Type ℓ} {V : Type κ} (P : V → Type μ) where
  pub Values-keep_if : (p : K × V → Bool) (m : Map K V) → Values P m → Values P (keep_if p m)
  Values-keep_if p [] h = tt
  Values-keep_if p ((j, v) ∷ m) h = elim (Bool-cases (p (j, v))) [
    | inl hit ↦ rw hit (h.0, Values-keep_if p m h.1)
    | inr miss ↦ rw miss (Values-keep_if p m h.1)
  ]
