-- ===== src/Prelude/HashSet.antt =====
-- A `HashSet`: a list without repetition, whose order the program does not see.
use Prim.Native.Nat.{◌+◌, ◌≤◌}
use mathlib.Core.Path.{◌≡◌, refl}
use mathlib.Core.Bool.{Bool, false, ◌||◌}
use mathlib.Core.List.{List, [], ◌∷◌}
use native.Mathlib.Omega.{arith}
use crosspaste_server.Prelude.Tests.{Comparable, ◌==◌, if◌then◌else◌}
use crosspaste_server.Prelude.Lists.{length}

module _ {A : Type 0} ⦃e : Comparable A⦄ where
  unfoldable pub member : A → List A → Bool
  member a [] = false
  member a (x ∷ xs) = x == a || member a xs

  unfoldable pub set_insert : A → List A → List A
  unfolding member
  set_insert a xs = if member a xs then xs else a ∷ xs

  unfoldable pub set_remove : A → List A → List A
  set_remove a [] = []
  set_remove a (x ∷ xs) = let rest = set_remove a xs in if x == a then rest else x ∷ rest

  -- No element stands twice.
  abbrev pub IsDistinct : List A → Type 0
  IsDistinct [] = Unit
  IsDistinct (x ∷ xs) = (member x xs ≡ false) × IsDistinct xs

  pub member-set_insert :
      (a b : A) (xs : List A) → member b (set_insert a xs) ≡ (a == b || member b xs)
  unfolding member set_insert
  member-set_insert a b [] = refl
  member-set_insert a b (x ∷ xs) =
      ground (arith, e.same_iff a b, e.same_iff x a, e.same_iff x b, lem xs)
    where
      lem : (ys : List A) → a ≡ b → member a ys ≡ member b ys
      lem ys p = cc

  pub member-set_remove :
      (a b : A) (xs : List A) → member b (set_remove a xs) ≡ (if a == b then false else member b xs)
  unfolding member set_remove
  member-set_remove a b [] = ground arith
  member-set_remove a b (x ∷ xs) =
      ground (arith, member-set_remove a b xs, e.same_iff a b, e.same_iff x a, e.same_iff x b)

  pub set_insert-IsDistinct : (a : A) (xs : List A) → IsDistinct xs → IsDistinct (set_insert a xs)
  unfolding set_insert
  set_insert-IsDistinct a xs h = ground arith

  pub set_remove-IsDistinct : (a : A) (xs : List A) → IsDistinct xs → IsDistinct (set_remove a xs)
  unfolding set_remove
  set_remove-IsDistinct a [] h = tt
  set_remove-IsDistinct a (x ∷ xs) h =
      ground (arith, set_remove-IsDistinct a xs h.1, member-set_remove a x xs)

  pub length-set_insert-le : (a : A) (xs : List A) → length (set_insert a xs) ≤ length xs + 1
  unfolding set_insert
  length-set_insert-le a xs = ground arith

  pub length-set_remove-le : (a : A) (xs : List A) → length (set_remove a xs) ≤ length xs
  unfolding set_remove
  length-set_remove-le a [] = omega arith
  length-set_remove-le a (x ∷ xs) = ground (arith, length-set_remove-le a xs)
