-- ===== src/Common/Counting.antt =====
-- How many items of a list pass a test, under the functions on lists.
use Prim.Native.Nat.{ℕ, zero, suc, ◌+◌, ◌<◌, ◌≤◌}
use native.Mathlib.Omega.{arith}
use mathlib.Core.List.{List, [], ◌∷◌, ◌++◌, map}
use mathlib.Core.Bool.{Bool, true}
use mathlib.Core.Logic.{inl, inr}
use mathlib.Core.Path.{◌≡◌, refl, sym, subst, ◌∙◌}
use terraform_suite_identity.Common.Tests.{Bool-cases}
use terraform_suite_identity.Common.Lists.{In, take, filter, count_if}
use terraform_suite_identity.Common.Sorting.{insert_by, sort_by}

pub count_if-map :
    {A B : Type 0} (p : B → Bool) (f : A → B) (xs : List A)
    → count_if p (map f xs) ≡ count_if (λ x. p (f x)) xs
unfolding count_if
count_if-map p f [] = refl
count_if-map p f (x ∷ xs) = ground (arith, count_if-map p f xs)

module _ {A : Type 0} (p : A → Bool) where
  pub count_if-append : (xs ys : List A) → count_if p (xs ++ ys) ≡ count_if p xs + count_if p ys
  unfolding count_if
  count_if-append [] ys = omega arith
  count_if-append (x ∷ xs) ys = ground (arith, count_if-append xs ys)

  pub count_if-filter : (q : A → Bool) (xs : List A) → count_if p (filter q xs) ≤ count_if p xs
  unfolding count_if filter
  count_if-filter q [] = omega arith
  count_if-filter q (x ∷ xs) = ground (arith, count_if-filter q xs)

  pub count_if-take : (n : ℕ) (xs : List A) → count_if p (take n xs) ≤ count_if p xs
  unfolding count_if take
  count_if-take zero xs = omega arith
  count_if-take (suc n) [] = omega arith
  count_if-take (suc n) (x ∷ xs) = ground (arith, count_if-take n xs)

  count_if-insert_by :
      (before : A → A → Bool) (x : A) (xs : List A)
      → count_if p (insert_by before x xs) ≡ count_if p (x ∷ xs)
  unfolding count_if insert_by
  count_if-insert_by before x [] = refl
  count_if-insert_by before x (y ∷ ys) = ground (arith, count_if-insert_by before x ys)

  pub count_if-sort_by :
      (before : A → A → Bool) (xs : List A) → count_if p (sort_by before xs) ≡ count_if p xs
  unfolding count_if sort_by
  count_if-sort_by before [] = refl
  count_if-sort_by before (x ∷ xs) =
      ground (arith, count_if-insert_by before x (sort_by before xs), count_if-sort_by before xs)

  pub In-count_if : (x : A) (xs : List A) → In x xs → p x ≡ true → 0 < count_if p xs
  unfolding count_if
  In-count_if x [] i t = elim i [ ]
  In-count_if x (y ∷ ys) (inl same) t =
      let t' = subst (λ z. p z ≡ true) (sym same) t in ground (arith, t')
  In-count_if x (y ∷ ys) (inr later) t = let rest = In-count_if x ys later t in ground (arith, rest)

  pub count_if-In : (xs : List A) → 0 < count_if p xs → (x : A) × In x xs × (p x ≡ true)
  unfolding count_if
  count_if-In [] h = elim h [ ]
  count_if-In (x ∷ xs) h = elim (Bool-cases (p x)) [
    | inl t ↦ (x, inl refl, t)
    | inr f ↦ let (y, there, t) = count_if-In xs (ground (arith, f)) in (y, inr there, t)
  ]

  -- Where at most one item passes, two that pass are one.
  pub count_if_unique :
      (xs : List A) (x y : A)
      → count_if p xs ≤ 1
      → In x xs
      → In y xs
      → p x ≡ true
      → p y ≡ true
      → x ≡ y
  unfolding count_if
  count_if_unique [] x y h i j s t = elim i [ ]
  count_if_unique (z ∷ zs) x y h (inl i) (inl j) s t = sym i ∙ j
  count_if_unique (z ∷ zs) x y h (inl i) (inr j) s t =
      let more = In-count_if y zs j t in
      let s' = subst (λ w. p w ≡ true) (sym i) s in absurd (ground (arith, more, s'))
  count_if_unique (z ∷ zs) x y h (inr i) (inl j) s t =
      let more = In-count_if x zs i s in
      let t' = subst (λ w. p w ≡ true) (sym j) t in absurd (ground (arith, more, t'))
  count_if_unique (z ∷ zs) x y h (inr i) (inr j) s t = count_if_unique zs x y (ground arith) i j s t

-- What `omega` needs of the counts; `arith` among it.
pub ruleset counting =
    (arith, count_if-map, count_if-append, count_if-filter, count_if-take, count_if-sort_by)
