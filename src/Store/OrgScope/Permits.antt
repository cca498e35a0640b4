-- ===== src/Store/OrgScope/Permits.antt =====
-- Which rows a scope permits.
use terraform_suite_identity.Common.{
  Str, ◌==◌, eq_iff, contains, contains_iff, List, [], ◌∷◌, In, All, ◌≡◌, ◌≢◌, ◌↔◌, ◌⊎◌, inl, inr,
  refl, Bool, true, false, Bool-cases, arith,
}
use terraform_suite_identity.Store.OrgScope.{
  OrgScope, org_scope_organizations, org_scope_organizations_and_unowned,
  org_scope_all_organizations, permits_organization, matches_nothing,
}
use terraform_suite_identity.Store.OrgScope.Canonical.{In-organizations}

pub permits_iff :
    (s : OrgScope) (org : Str)
    → (permits_organization s org ≡ true)
      ↔ ((s.all ≡ true) ⊎ ((org ≡ []) × (s.unowned ≡ true)) ⊎ ((org ≢ []) × In org s.org_ids))
unfolding permits_organization
permits_iff s org = ground (arith, eq_iff org [], contains_iff s.org_ids org)

-- What the three constructors permit: an allowlist exactly the rows of its ids, an allowlist with
-- unowned rows also exactly the rows without an owner, and the platform-wide scope every row. A row
-- without an owner is never permitted by naming the empty id.
pub constructors_permit :
    (ids : List Str) (org : Str)
    → ((permits_organization (org_scope_organizations ids) org ≡ true) ↔ (In org ids × (org ≢ [])))
      × ((permits_organization (org_scope_organizations_and_unowned ids) org ≡ true)
          ↔ ((org ≡ []) ⊎ (In org ids × (org ≢ []))))
      × (permits_organization org_scope_all_organizations org ≡ true)
unfolding org_scope_organizations_and_unowned org_scope_all_organizations permits_organization
constructors_permit ids org =
    let s = org_scope_organizations ids in
    let member = In-organizations org ids in
    let kept = contains_iff s.org_ids org in
    (ground (arith, eq_iff org [], member, kept), ground (arith, eq_iff org [], member, kept), refl)

-- No id of the scope is empty, as `OrgScopeOrganizations` leaves it.
abbrev pub HasOwners : OrgScope → Type 0
HasOwners s = All (λ id. id ≢ []) s.org_ids

abbrev scope : List Str → Bool → Bool → OrgScope
scope ids all unowned = record { org_ids = ids; all = all; unowned = unowned }

-- The scope's first way to permit a row, if it has one.
some_permitted :
    (ids : List Str) (all unowned : Bool)
    → HasOwners (scope ids all unowned)
    → matches_nothing (scope ids all unowned) ≡ false
    → (org : Str) × (permits_organization (scope ids all unowned) org ≡ true)
unfolding matches_nothing permits_organization
some_permitted ids true unowned h some = ([], refl)
some_permitted ids false true h some = ([], unfold ◌==◌ in refl)
some_permitted [] false false h some = cc
some_permitted (id ∷ ids) false false h some =
    (id, ground (arith, eq_iff id [], contains_iff (id ∷ ids) id))

none_permitted :
    (ids : List Str) (all unowned : Bool) (org : Str)
    → matches_nothing (scope ids all unowned) ≡ true
    → permits_organization (scope ids all unowned) org ≡ false
unfolding matches_nothing permits_organization contains
none_permitted [] all unowned org h = ground arith
none_permitted (id ∷ ids) all unowned org h = ground arith

-- `MatchesNothing` is exact: a scope whose ids are not empty matches nothing exactly when it permits
-- no row.
matches_nothing_iff :
    (s : OrgScope)
    → HasOwners s
    → (matches_nothing s ≡ true) ↔ ((org : Str) → permits_organization s org ≡ false)
matches_nothing_iff s h = (
  λ none org. none_permitted s.org_ids s.all s.unowned org none,
  λ denied. elim (Bool-cases (matches_nothing s)) [
    | inl e ↦ e
    | inr some ↦
        let (org, e) = some_permitted s.org_ids s.all s.unowned h some in cc (e, denied org)
  ],
)
