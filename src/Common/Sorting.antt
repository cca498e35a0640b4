-- ===== src/Common/Sorting.antt =====
-- Insertion sort, for `ORDER BY` and `sort.Slice`: it keeps the items and their number.
use Prim.Native.Nat.{suc}
use native.Mathlib.Omega.{arith}
use mathlib.Core.List.{List, [], ◌∷◌}
use mathlib.Core.Bool.{Bool}
use mathlib.Core.Logic.{◌↔◌}
use mathlib.Core.Path.{◌≡◌, refl, ap, ◌∙◌}
use terraform_suite_identity.Common.Tests.{if◌then◌else◌}
use terraform_suite_identity.Common.Lists.{In, length}

module _ {A : Type 0} (before : A → A → Bool) where
  unfoldable pub insert_by : A → List A → List A
  insert_by x [] = x ∷ []
  insert_by x (y ∷ ys) = let rest = insert_by x ys in if before y x then y ∷ rest else x ∷ y ∷ ys

  unfoldable pub sort_by : List A → List A
  unfolding insert_by
  sort_by [] = []
  sort_by (x ∷ xs) = insert_by x (sort_by xs)

  In-insert_by : (x y : A) (ys : List A) → In x (insert_by y ys) ↔ In x (y ∷ ys)
  unfolding insert_by
  In-insert_by x y [] = (λ i. i, λ i. i)
  In-insert_by x y (z ∷ zs) = ground (arith, In-insert_by x y zs)

  pub In-sort_by : (x : A) (xs : List A) → In x (sort_by xs) ↔ In x xs
  unfolding sort_by
  In-sort_by x [] = (λ i. i, λ i. i)
  In-sort_by x (y ∷ ys) = ground (arith, In-insert_by x y (sort_by ys), In-sort_by x ys)

  length-insert_by : (x : A) (xs : List A) → length (insert_by x xs) ≡ suc (length xs)
  unfolding insert_by
  length-insert_by x [] = refl
  length-insert_by x (y ∷ ys) = ground (arith, length-insert_by x ys)

  pub length-sort_by : (xs : List A) → length (sort_by xs) ≡ length xs
  unfolding sort_by
  length-sort_by [] = refl
  length-sort_by (x ∷ xs) = length-insert_by x (sort_by xs) ∙ ap suc (length-sort_by xs)
