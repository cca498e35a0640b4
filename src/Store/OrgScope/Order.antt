-- ===== src/Store/OrgScope/Order.antt =====
-- The order of strings, and sorted lists.
use terraform_suite_identity.Common.{
  All-In, Str, List, [], ◌∷◌, In, All, ◌≡◌, ◌≢◌, ◌↔◌, ◌⊎◌, inl, inr, refl, sym, subst, true, false,
  arith,
}
use terraform_suite_identity.Store.OrgScope.{str_lt}

pub str_lt_irrefl : (s : Str) → str_lt s s ≡ false
unfolding str_lt
str_lt_irrefl [] = refl
str_lt_irrefl (a ∷ s) = ground (arith, str_lt_irrefl s)

pub str_lt_trans : (s t u : Str) → str_lt s t ≡ true → str_lt t u ≡ true → str_lt s u ≡ true
unfolding str_lt
str_lt_trans s t [] h k = cc
str_lt_trans s [] (c ∷ u) h k = cc
str_lt_trans [] (b ∷ t) (c ∷ u) h k = refl
str_lt_trans (a ∷ s) (b ∷ t) (c ∷ u) h k = ground (arith, str_lt_trans s t u)

pub str_lt-total : (s t : Str) → str_lt s t ≡ false → s ≢ t → str_lt t s ≡ true
unfolding str_lt
str_lt-total [] [] h ne = absurd (ne refl)
str_lt-total (a ∷ s) [] h ne = refl
str_lt-total [] (b ∷ t) h ne = cc
str_lt-total (a ∷ s) (b ∷ t) h ne = ground (arith, str_lt-total s t)

abbrev pub Above : Str → List Str → Type 0
Above x = All (λ y. str_lt x y ≡ true)

abbrev pub IsSorted : List Str → Type 0
IsSorted [] = Unit
IsSorted (x ∷ xs) = Above x xs × IsSorted xs

-- Nothing lies above itself.
Above-irrefl : (x : Str) (xs : List Str) → Above x xs → In x xs → ⊥
Above-irrefl x xs h i =
    let up = All-In (λ y. str_lt x y ≡ true) xs h x i in
    let flat = str_lt_irrefl x in ground (arith, up, flat)

abbrev pub SameMembers : List Str → List Str → Type 0
SameMembers xs ys = (s : Str) → In s xs ↔ In s ys

-- The heads of two sorted lists with the same members are equal.
heads :
    (x y : Str) (xs ys : List Str)
    → Above x xs
    → Above y ys
    → (x ≡ y) ⊎ In y xs
    → (y ≡ x) ⊎ In x ys
    → x ≡ y
heads x y xs ys hx hy (inl e) d = e
heads x y xs ys hx hy (inr i) (inl e) = sym e
heads x y xs ys hx hy (inr i) (inr j) =
    let up = All-In (λ z. str_lt x z ≡ true) xs hx y i in
    let down = All-In (λ z. str_lt y z ≡ true) ys hy x j in
    let flat = str_lt_irrefl x in
    let round = str_lt_trans x y x up down in ground (arith, flat, round)

tail_member :
    (x : Str) (xs ys : List Str) (s : Str) → Above x xs → In s xs → (x ≡ s) ⊎ In s ys → In s ys
tail_member x xs ys s h i (inr j) = j
tail_member x xs ys s h i (inl e) = absurd (Above-irrefl x xs h (subst (λ w. In w xs) (sym e) i))

tails :
    (x : Str) (xs ys : List Str)
    → Above x xs
    → Above x ys
    → SameMembers (x ∷ xs) (x ∷ ys)
    → SameMembers xs ys
tails x xs ys hx hy same s = (
  λ i. tail_member x xs ys s hx i ((same s).0 (inr i)),
  λ i. tail_member x ys xs s hy i ((same s).1 (inr i)),
)

-- Two sorted lists with the same members are one list.
pub sorted_ext : (xs ys : List Str) → IsSorted xs → IsSorted ys → SameMembers xs ys → xs ≡ ys
sorted_ext [] [] hx hy same = refl
sorted_ext [] (y ∷ ys) hx hy same = absurd ((same y).1 (inl refl))
sorted_ext (x ∷ xs) [] hx hy same = absurd ((same x).0 (inl refl))
sorted_ext (x ∷ xs) (y ∷ ys) hx hy same =
    let e = heads x y xs ys hx.0 hy.0 ((same y).1 (inl refl)) ((same x).0 (inl refl)) in
    let above : Above x ys = subst (λ w. Above w ys) (sym e) hy.0 in
    let both : SameMembers (x ∷ xs) (x ∷ ys) =
      subst (λ w. SameMembers (x ∷ xs) (w ∷ ys)) (sym e) same in
    let rest = sorted_ext xs ys hx.1 hy.1 (tails x xs ys hx.0 above both) in cc (e, rest)
