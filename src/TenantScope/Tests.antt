-- ===== src/TenantScope/Tests.antt =====
-- Tenant scopes: tests, and the theorems at concrete inputs.
use terraform_suite_identity.Common.{
  ℕ, Str, lit, ◌==◌, contains, trim_space, [], ◌∷◌, ◌≡◌, ◌↔◌, ◌⊎◌, refl, Bool, true, false, Option,
  none, some,
}
use terraform_suite_identity.Auth.Scopes.{ReadWritePairs}
use terraform_suite_identity.Store.OrgScope.{OrgScope}
use terraform_suite_identity.TenantScope.{
  session, api_key, Principal, Scope, permits, permits_ptr, AdminError,
  platformadmin_not_configured, admin_failure, Resolver, resolve,
}
use terraform_suite_identity.TenantScope.Authority.{
  Elevated, KeyBound, MemberOf, platform_admin_iff, resolve_reach_sound,
}

abbrev admins : Str → Bool × Option AdminError
admins user = (user == lit "root", none)

abbrev members : Str → Str → ReadWritePairs → OrgScope × Option ℕ
members user required pairs =
    (record { org_ids = lit "org1" ∷ []; all = false; unowned = false }, none)

abbrev resolver : Resolver
resolver = record {
  memberships = some members;
  admins = some admins;
  read_write_pairs = [];
  admins_apply_to_api_keys = false;
  key_binds_organization = true;
}

abbrev root : Principal
root = record { user_id = lit " root "; credential = session; key_org_id = [] }

abbrev service : Principal
service = record { user_id = lit "svc"; credential = api_key; key_org_id = lit "org2" }

root_elevated :
    resolve resolver root (lit "r") ≡ (record { platform_admin = true; org_ids = [] }, none)
unfolding resolve ◌==◌ trim_space
root_elevated = refl

root_by_key :
    resolve resolver (record root { credential = api_key }) (lit "r")
    ≡ (record { platform_admin = false; org_ids = lit "org1" ∷ [] }, none)
unfolding resolve ◌==◌ trim_space
root_by_key = refl

null_owner_denied :
    permits_ptr (record { platform_admin = false; org_ids = lit "org1" ∷ [] }) none ≡ false
unfolding permits_ptr
null_owner_denied = refl

platform_admin_iff_example :
    ((resolve resolver root (lit "r")).0.platform_admin ≡ true) ↔ Elevated resolver root
platform_admin_iff_example = platform_admin_iff resolver root (lit "r")

resolve_reach_sound_example :
    Elevated resolver service
    ⊎ KeyBound resolver service (lit "org2")
    ⊎ MemberOf resolver service (lit "r") (lit "org2")
unfolding resolve permits contains ◌==◌ trim_space
resolve_reach_sound_example = resolve_reach_sound resolver service (lit "r") (lit "org2") refl

abbrev failing : Resolver
failing = record resolver { admins = some (λ user. (true, some (admin_failure 3))) }

abbrev unwired : Str → Bool × Option AdminError
unwired user = (true, some platformadmin_not_configured)

abbrev one : Scope
one = record { platform_admin = false; org_ids = lit "org1" ∷ [] }
