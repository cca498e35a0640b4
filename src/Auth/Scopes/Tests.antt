-- ===== src/Auth/Scopes/Tests.antt =====
-- Scopes: tests, and the theorems at concrete inputs.
use terraform_suite_identity.Common.{
  Str, lit, ◌==◌, eq_iff, [], ◌∷◌, ◌≡◌, refl, true, false, none, some, arith,
}
use terraform_suite_identity.Auth.Claims.{Claims}
use terraform_suite_identity.Auth.Scopes.{
  ReadWritePairs, lookup, has_scope, has_all_scopes, role_scopes_permitted_by, has_scope_in_org,
  scope_admin,
}
use terraform_suite_identity.Auth.Scopes.Ceiling.{IsFlat, permitted_role_no_escalation}

abbrev users_read : Str
users_read = lit "users:read"

abbrev users_write : Str
users_write = lit "users:write"

abbrev pairs : ReadWritePairs
pairs = (users_read, users_write) ∷ []

write_satisfies_read : has_scope (users_write ∷ []) users_read pairs ≡ true
unfolding has_scope ◌==◌
write_satisfies_read = refl

read_fails_write : has_scope (users_read ∷ []) users_write pairs ≡ false
unfolding has_scope ◌==◌
read_fails_write = refl

nothing_required_denies : has_all_scopes (scope_admin ∷ []) [] pairs ≡ false
unfolding has_all_scopes
nothing_required_denies = refl

lookup-pairs : (r w : Str) → lookup r pairs ≡ some w → w ≡ users_write
unfolding lookup
lookup-pairs r w h = ground (arith, eq_iff users_read r)

pairs_unchained : (r w : Str) → lookup r pairs ≡ some w → lookup w pairs ≡ none
pairs_unchained r w h = rw (lookup-pairs r w h) (unfold lookup ◌==◌ in refl)

pairs-IsFlat : IsFlat pairs
unfolding lookup ◌==◌
pairs-IsFlat = record { admin_unpaired = refl; unchained = pairs_unchained }

permitted_role_no_escalation_example : has_scope (users_write ∷ []) users_read pairs ≡ true
unfolding role_scopes_permitted_by has_scope ◌==◌
permitted_role_no_escalation_example =
    permitted_role_no_escalation (users_write ∷ []) (users_read ∷ []) pairs users_read pairs-IsFlat
      refl refl

abbrev chained : ReadWritePairs
chained = (lit "a:read", lit "a:write") ∷ (lit "a:write", lit "a:own") ∷ []

abbrev claims : Claims
claims = record {
  user_id = lit "u1";
  email = lit "u1@example.com";
  org_id = lit "org1";
  scopes = users_write ∷ [];
  jti = lit "t1";
  registered = record {
    issuer = lit "registry";
    subject = lit "u1";
    audience = [];
    expires_at = some 20;
    not_before = none;
    issued_at = some 10;
    id = lit "t1";
  };
}

other_org_denied : has_scope_in_org (some claims) (lit "org2") users_read pairs ≡ false
unfolding has_scope_in_org ◌==◌
other_org_denied = refl
