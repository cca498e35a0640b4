-- ===== src/Auth/Scopes.antt =====
-- identity/auth/scopes.go: the scope checks, as functions by clauses. A Go map that is only read
-- by key is an association list.
pub mod Grants
pub mod Ceiling
pub mod Bound
mod Tests
use terraform_suite_identity.Common.{
  Str, lit, ◌==◌, List, [], ◌∷◌, Bool, true, false, not, ◌&&◌, Option, none, some, if◌then◌else◌,
}
use terraform_suite_identity.Auth.Claims.{Claims}

abbrev pub scope_admin : Str
scope_admin = lit "admin"

-- A read scope, and the write scope that implies it.
abbrev pub ReadWritePairs : Type 0
ReadWritePairs = List (Str × Str)

-- `rwPairs[key]`
pub lookup : Str → ReadWritePairs → Option Str
lookup key [] = none
lookup key ((k, v) ∷ pairs) = if k == key then some v else lookup key pairs

-- `writeScope, ok := rwPairs[required]; ok && s == writeScope`
pub write_implies : ReadWritePairs → Str → Str → Bool
write_implies rw_pairs required s = elim (lookup required rw_pairs) [
  | none ↦ false
  | some write_scope ↦ s == write_scope
]

-- The loop of `HasScope`.
pub scan : List Str → Str → ReadWritePairs → Bool
scan [] required rw_pairs = false
scan (s ∷ rest) required rw_pairs =
    if s == required
    then true
    else if s == scope_admin
    then true
    else if write_implies rw_pairs required s
    then true
    else scan rest required rw_pairs

unfoldable pub has_scope : List Str → Str → ReadWritePairs → Bool
unfolding scan write_implies lookup
has_scope user_scopes required rw_pairs =
    if required == [] then false else scan user_scopes required rw_pairs

unfoldable pub has_any_scope : List Str → List Str → ReadWritePairs → Bool
has_any_scope user_scopes [] rw_pairs = false
has_any_scope user_scopes (r ∷ required) rw_pairs =
    if has_scope user_scopes r rw_pairs then true else has_any_scope user_scopes required rw_pairs

-- The loop of `HasAllScopes`.
pub scan_all : List Str → List Str → ReadWritePairs → Bool
scan_all user_scopes [] rw_pairs = true
scan_all user_scopes (r ∷ required) rw_pairs =
    if not (has_scope user_scopes r rw_pairs) then false else scan_all user_scopes required rw_pairs

unfoldable pub has_all_scopes : List Str → List Str → ReadWritePairs → Bool
unfolding scan_all
has_all_scopes user_scopes [] rw_pairs = false
has_all_scopes user_scopes (r ∷ required) rw_pairs = scan_all user_scopes (r ∷ required) rw_pairs

-- The loop of `RoleScopesPermittedBy`.
pub scan_role : List Str → List Str → ReadWritePairs → Bool
scan_role caller_scopes [] rw_pairs = true
scan_role caller_scopes (s ∷ role_scopes) rw_pairs =
    if s == scope_admin
    then false
    else if not (has_scope caller_scopes s rw_pairs)
    then false
    else scan_role caller_scopes role_scopes rw_pairs

unfoldable pub role_scopes_permitted_by : List Str → List Str → ReadWritePairs → Bool
unfolding scan_role
role_scopes_permitted_by caller_scopes [] rw_pairs = true
role_scopes_permitted_by caller_scopes (s ∷ role_scopes) rw_pairs =
    if has_scope caller_scopes scope_admin rw_pairs
    then true
    else scan_role caller_scopes (s ∷ role_scopes) rw_pairs

-- The error names the one scope that is refused, so it carries nothing.
pub data ScopeError : Type 0 where
  not_provisionable : ScopeError

-- `none` is the nil error.
unfoldable pub validate_provisionable_scopes : List Str → Option ScopeError
validate_provisionable_scopes [] = none
validate_provisionable_scopes (s ∷ scopes) =
    if s == scope_admin then some not_provisionable else validate_provisionable_scopes scopes

-- `none` is the nil claims pointer.
unfoldable pub org_bound : Option Claims → Str → Bool
org_bound none org_id = false
org_bound (some claims) org_id =
    not (org_id == []) && not (claims.org_id == []) && claims.org_id == org_id

-- The scopes that the three org-aware checks read once the binding holds.
unfoldable pub claims_scopes : Option Claims → List Str
claims_scopes none = []
claims_scopes (some claims) = claims.scopes

unfoldable pub has_scope_in_org : Option Claims → Str → Str → ReadWritePairs → Bool
unfolding org_bound claims_scopes
has_scope_in_org claims org_id required rw_pairs =
    if not (org_bound claims org_id)
    then false
    else has_scope (claims_scopes claims) required rw_pairs

unfoldable pub has_any_scope_in_org : Option Claims → Str → List Str → ReadWritePairs → Bool
unfolding org_bound claims_scopes
has_any_scope_in_org claims org_id required rw_pairs =
    if not (org_bound claims org_id)
    then false
    else has_any_scope (claims_scopes claims) required rw_pairs

unfoldable pub has_all_scopes_in_org : Option Claims → Str → List Str → ReadWritePairs → Bool
unfolding org_bound claims_scopes
has_all_scopes_in_org claims org_id required rw_pairs =
    if not (org_bound claims org_id)
    then false
    else has_all_scopes (claims_scopes claims) required rw_pairs
