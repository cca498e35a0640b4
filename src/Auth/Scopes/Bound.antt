-- ===== src/Auth/Scopes/Bound.antt =====
-- The org-aware checks of identity/auth/scopes.go, and the organization of the claims.
use terraform_suite_identity.Common.{
  Str, eq_iff, List, [], ◌≡◌, ◌≢◌, ◌↔◌, refl, ap, ◌∙◌, Bool, true, false, not, Option, none, some,
  arith, if◌then◌else◌,
}
use terraform_suite_identity.Auth.Claims.{Claims}
use terraform_suite_identity.Auth.Scopes.{
  ReadWritePairs, has_scope, has_any_scope, has_all_scopes, has_scope_in_org, has_any_scope_in_org,
  has_all_scopes_in_org, org_bound, claims_scopes,
}

-- Claims that are there and name this organization, which is not empty, and whose scopes pass.
abbrev pub InOrg : (List Str → Bool) → Option Claims → Str → Type 0
InOrg check claims org_id =
    (c : Claims) × (claims ≡ some c) × (org_id ≢ []) × (c.org_id ≡ org_id) × (check c.scopes ≡ true)

gate :
    (check : List Str → Bool) (claims : Option Claims) (org_id : Str)
    → ((if not (org_bound claims org_id) then false else check (claims_scopes claims)) ≡ true)
      ↔ InOrg check claims org_id
unfolding org_bound claims_scopes
gate check none org_id = (λ h. cc, λ h. cc (h.1))
gate check (some c) org_id = (
  λ h. (
    c,
    refl,
    ground (arith, eq_iff org_id []),
    ground (arith, eq_iff c.org_id org_id),
    ground arith,
  ),
  λ h.
      let same : c ≡ h.0 = cc (h.1) in
      let bound : c.org_id ≡ org_id = ap (λ (x : Claims). x.org_id) same ∙ h.3 in
      let passes : check c.scopes ≡ true = rw same h.4 in
      ground (arith, eq_iff org_id [], eq_iff c.org_id [], eq_iff c.org_id org_id),
)

-- Each org-aware check decides its flat counterpart on the claims' scopes, exactly for claims that
-- are bound to the organization: no token of another organization and none without one passes.
InOrg-iff :
    (claims : Option Claims) (org_id r : Str) (rs : List Str) (p : ReadWritePairs)
    → ((has_scope_in_org claims org_id r p ≡ true) ↔ InOrg (λ us. has_scope us r p) claims org_id)
      × ((has_any_scope_in_org claims org_id rs p ≡ true)
          ↔ InOrg (λ us. has_any_scope us rs p) claims org_id)
      × ((has_all_scopes_in_org claims org_id rs p ≡ true)
          ↔ InOrg (λ us. has_all_scopes us rs p) claims org_id)
unfolding has_scope_in_org has_any_scope_in_org has_all_scopes_in_org
InOrg-iff claims org_id r rs p = (
  gate (λ us. has_scope us r p) claims org_id,
  gate (λ us. has_any_scope us rs p) claims org_id,
  gate (λ us. has_all_scopes us rs p) claims org_id,
)
