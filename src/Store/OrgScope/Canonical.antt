-- ===== src/Store/OrgScope/Canonical.antt =====
-- The ids of `OrgScopeOrganizations`: the set of the ids that are not empty, in one order.
use terraform_suite_identity.Common.{
  Str, eq_iff, eq_refl, contains, contains_iff, List, [], ◌∷◌, In, ◌≡◌, ◌≢◌, ◌↔◌, ◌⊎◌, inl, inr,
  true, false, Bool-cases, arith,
}
use terraform_suite_identity.Store.OrgScope.{str_lt, insert, sort, clean, org_scope_organizations}
use terraform_suite_identity.Store.OrgScope.Order.{
  str_lt_trans, str_lt-total, Above, IsSorted, sorted_ext,
}

In-insert : (x s : Str) (ys : List Str) → In s (insert x ys) ↔ ((x ≡ s) ⊎ In s ys)
unfolding insert
In-insert x s [] = (λ i. i, λ i. i)
In-insert x s (y ∷ ys) = ground (arith, In-insert x s ys)

In-sort : (s : Str) (xs : List Str) → In s (sort xs) ↔ In s xs
unfolding sort
In-sort s [] = (λ i. i, λ i. i)
In-sort s (x ∷ xs) = ground (arith, In-insert x s (sort xs), In-sort s xs)

-- What `clean` keeps: the ids that are neither empty nor seen.
In-clean :
    (s : Str) (seen ids : List Str)
    → In s (clean seen ids) ↔ (In s ids × (s ≢ []) × (contains seen s ≡ false))
unfolding clean contains
In-clean s seen [] = (λ i. elim i [ ], λ i. elim (i.0) [ ])
In-clean s seen (id ∷ ids) = ground (
  arith,
  eq_iff id [],
  eq_iff id s,
  contains_iff seen s,
  contains_iff seen id,
  In-clean s seen ids,
  In-clean s (id ∷ seen) ids,
)

-- No id is kept twice.
abbrev IsNodup : List Str → Type 0
IsNodup [] = Unit
IsNodup (x ∷ xs) = (In x xs → ⊥) × IsNodup xs

clean-IsNodup : (seen ids : List Str) → IsNodup (clean seen ids)
unfolding clean contains
clean-IsNodup seen [] = tt
clean-IsNodup seen (id ∷ ids) = ground (
  arith,
  eq_refl id,
  clean-IsNodup seen ids,
  clean-IsNodup (id ∷ seen) ids,
  In-clean id (id ∷ seen) ids,
)

Above-insert : (x y : Str) (ys : List Str) → str_lt y x ≡ true → Above y ys → Above y (insert x ys)
unfolding insert
Above-insert x y [] h k = (h, tt)
Above-insert x y (z ∷ zs) h k = ground (arith, Above-insert x y zs h k.1)

Above-lower : (x y : Str) (ys : List Str) → str_lt x y ≡ true → Above y ys → Above x ys
Above-lower x y [] h k = tt
Above-lower x y (z ∷ zs) h k = (str_lt_trans x y z h k.0, Above-lower x y zs h k.1)

insert-IsSorted : (x : Str) (ys : List Str) → (In x ys → ⊥) → IsSorted ys → IsSorted (insert x ys)
unfolding insert
insert-IsSorted x [] out h = (tt, tt)
insert-IsSorted x (y ∷ ys) out h = elim (Bool-cases (str_lt y x)) [
  | inl below ↦
      rw (below, insert)
        (Above-insert x y ys below h.0, insert-IsSorted x ys (λ i. out (inr i)) h.1)
  | inr not_below ↦
      let above : str_lt x y ≡ true = str_lt-total y x not_below (λ e. out (inl e)) in
      rw (not_below, insert) ((above, Above-lower x y ys above h.0), h)
]

sort-IsSorted : (xs : List Str) → IsNodup xs → IsSorted (sort xs)
unfolding sort
sort-IsSorted [] h = tt
sort-IsSorted (x ∷ xs) h =
    insert-IsSorted x (sort xs) (λ i. h.0 ((In-sort x xs).0 i)) (sort-IsSorted xs h.1)

pub organizations-IsSorted : (ids : List Str) → IsSorted (org_scope_organizations ids).org_ids
unfolding org_scope_organizations
organizations-IsSorted ids = sort-IsSorted (clean [] ids) (clean-IsNodup [] ids)

pub In-organizations :
    (s : Str) (ids : List Str) → In s (org_scope_organizations ids).org_ids ↔ (In s ids × (s ≢ []))
unfolding org_scope_organizations contains
In-organizations s ids = ground (arith, In-sort s (clean [] ids), In-clean s [] ids)

-- The scope that `OrgScopeOrganizations` builds is a function of the set of its ids that are not
-- empty: order, duplicates and empty ids make no difference. Its ids are sorted, each id once.
organizations_canonical :
    (xs ys : List Str)
    → ((s : Str) → (In s xs × (s ≢ [])) ↔ (In s ys × (s ≢ [])))
    → (org_scope_organizations xs ≡ org_scope_organizations ys)
      × IsSorted (org_scope_organizations xs).org_ids
organizations_canonical xs ys same =
    let ids =
      sorted_ext (org_scope_organizations xs).org_ids (org_scope_organizations ys).org_ids
        (organizations-IsSorted xs) (organizations-IsSorted ys)
        (λ s. (
          λ i. (In-organizations s ys).1 ((same s).0 ((In-organizations s xs).0 i)),
          λ i. (In-organizations s xs).1 ((same s).1 ((In-organizations s ys).0 i)),
        )) in
    (unfold org_scope_organizations in cc ids, organizations-IsSorted xs)
