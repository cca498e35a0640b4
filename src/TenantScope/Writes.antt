-- ===== src/TenantScope/Writes.antt =====
-- `ActingOrganization`: the one organization that a write belongs to.
use terraform_suite_identity.Common.{
  Str, ◌==◌, eq_iff, contains, trim_space, List, [], ◌∷◌, All, length, ◌≤◌, ◌≡◌, ◌≢◌, ◌↔◌, ◌⊎◌, inl,
  inr, Bool, true, false, Bool-cases, arith,
}
use terraform_suite_identity.TenantScope.{
  Scope, permits, acting_organization, only_organization, acting, refused, no_acting_organization,
  ambiguous_acting_organization, acting_organization_not_permitted,
}

-- Every organization of the scope is named, with no space around its name.
abbrev pub IsTrimmed : Scope → Type 0
IsTrimmed s = All (λ id. (trim_space id ≡ id) × (id ≢ [])) s.org_ids

only_permitted :
    (admin : Bool) (ids : List Str) (org : Str)
    → All (λ id. (trim_space id ≡ id) × (id ≢ [])) ids
    → only_organization ids ≡ acting org
    → permits (record { platform_admin = admin; org_ids = ids }) org ≡ true
unfolding only_organization permits contains
only_permitted admin [] org h e = cc
only_permitted admin (id ∷ []) org h e =
    ground (arith, eq_iff (trim_space id) [], eq_iff id (trim_space id), eq_iff id id)
only_permitted admin (id ∷ other ∷ more) org h e = cc

-- Every organization that a write is given is one that the scope permits, and where the request
-- names one it is that one.
acting_is_permitted :
    (s : Scope) (selected org : Str)
    → IsTrimmed s
    → acting_organization s selected ≡ acting org
    → (permits s org ≡ true) × ((trim_space selected ≡ []) ⊎ (org ≡ trim_space selected))
unfolding acting_organization
acting_is_permitted s selected org h e = elim (Bool-cases (trim_space selected == [])) [
  | inl unnamed ↦ (
    only_permitted s.platform_admin s.org_ids org h (ground arith),
    inl ((eq_iff (trim_space selected) []).0 unnamed),
  )
  | inr named ↦ (ground arith, inr (ground arith))
]

only_organization_cases :
    (ids : List Str)
    → ((only_organization ids ≡ refused no_acting_organization) ↔ (ids ≡ []))
      × ((only_organization ids ≡ refused ambiguous_acting_organization) ↔ (2 ≤ length ids))
      × (only_organization ids ≢ refused acting_organization_not_permitted)
unfolding only_organization
only_organization_cases [] = ground arith
only_organization_cases (id ∷ []) = ground arith
only_organization_cases (id ∷ other ∷ more) = ground arith

-- The refusals, each exactly in its case: a named organization that the scope does not permit; no
-- name and nothing to act in; no name from a platform administrator or among several organizations.
acting_refused_iff :
    (s : Scope) (selected : Str)
    → ((acting_organization s selected ≡ refused acting_organization_not_permitted)
        ↔ ((trim_space selected ≢ []) × (permits s (trim_space selected) ≡ false)))
      × ((acting_organization s selected ≡ refused no_acting_organization)
          ↔ ((trim_space selected ≡ []) × (s.platform_admin ≡ false) × (s.org_ids ≡ [])))
      × ((acting_organization s selected ≡ refused ambiguous_acting_organization)
          ↔ ((trim_space selected ≡ []) × ((s.platform_admin ≡ true) ⊎ (2 ≤ length s.org_ids))))
unfolding acting_organization
acting_refused_iff s selected =
    ground (arith, eq_iff (trim_space selected) [], only_organization_cases s.org_ids)
