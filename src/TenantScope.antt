-- ===== src/TenantScope.antt =====
-- identity/tenantscope: `Scope`, `Resolver.Resolve` (tenantscope.go) and `ActingOrganization`
-- (acting.go). The application's policy, which the source takes as interfaces, is a record of
-- functions; a Go result pair is a pair here, both parts given on every path. Contexts carry
-- nothing that the code reads and are left out.
pub mod Authority
pub mod Outcomes
pub mod Writes
mod Tests
use terraform_suite_identity.Common.{
  ℕ, Str, ◌==◌, contains, trim_space, List, [], ◌∷◌, is_empty, Bool, true, false, not, ◌&&◌, ◌||◌,
  Option, none, some, if◌then◌else◌,
}
use terraform_suite_identity.Auth.Scopes.{ReadWritePairs}
use terraform_suite_identity.Store.OrgScope.{OrgScope, organization_ids}

-- The zero value is `unspecified`.
pub data Credential : Type 0 where
  unspecified session api_key : Credential

pub is_session : Credential → Bool
is_session session = true
is_session _ = false

pub is_api_key : Credential → Bool
is_api_key api_key = true
is_api_key _ = false

pub record Principal : Type 0 where
  pub user_id : Str
  pub credential : Credential
  pub key_org_id : Str

pub record Scope : Type 0 where
  pub platform_admin : Bool
  pub org_ids : List Str

-- The zero value.
abbrev pub denied : Scope
denied = record { platform_admin = false; org_ids = [] }

unfoldable pub permits : Scope → Str → Bool
permits s org_id =
    if s.platform_admin
    then true
    else if trim_space org_id == []
    then false
    else contains s.org_ids (trim_space org_id)

-- `none` is the nil pointer of a NULL column.
unfoldable pub permits_ptr : Scope → Option Str → Bool
unfolding permits
permits_ptr s none = s.platform_admin
permits_ptr s (some org_id) = if s.platform_admin then true else permits s org_id

unfoldable pub empty : Scope → Bool
empty s = not s.platform_admin && is_empty s.org_ids

-- The error of a `PlatformAdmins`: either sentinel for a carrier that is not wired, or a failure.
pub data AdminError : Type 0 where
  admins_not_configured platformadmin_not_configured : AdminError
  admin_failure : ℕ → AdminError

pub data ResolveError : Type 0 where
  admin_lookup : ℕ → ResolveError
  membership_lookup : ℕ → ResolveError

-- `none` is the nil interface.
pub record Resolver : Type 0 where
  pub memberships : Option (Str → Str → ReadWritePairs → OrgScope × Option ℕ)
  pub admins : Option (Str → Bool × Option AdminError)
  pub read_write_pairs : ReadWritePairs
  pub admins_apply_to_api_keys : Bool
  pub key_binds_organization : Bool

pub from_membership : OrgScope × Option ℕ → Scope × Option ResolveError
unfolding organization_ids
from_membership (org_scope, some e) = (denied, some (membership_lookup e))
from_membership (org_scope, none) =
    (record { platform_admin = false; org_ids = organization_ids org_scope }, none)

pub ask_memberships :
    Option (Str → Str → ReadWritePairs → OrgScope × Option ℕ)
    → Str
    → Str
    → ReadWritePairs
    → Scope × Option ResolveError
unfolding from_membership
ask_memberships none user_id required rw_pairs = (denied, none)
ask_memberships (some org_scope_for_user) user_id required rw_pairs =
    from_membership (org_scope_for_user user_id required rw_pairs)

-- The rest of `Resolve` once no platform authority applies.
pub from_key : Resolver → Principal → Str → Str → Scope × Option ResolveError
unfolding ask_memberships is_api_key
from_key r p user_id required =
    if is_api_key p.credential && r.key_binds_organization && not (trim_space p.key_org_id == [])
    then (record { platform_admin = false; org_ids = trim_space p.key_org_id ∷ [] }, none)
    else ask_memberships r.memberships user_id required r.read_write_pairs

-- The switch on the answer of `IsPlatformAdmin`; the last argument is what follows the switch.
pub after_admins :
    Bool × Option AdminError → Scope × Option ResolveError → Scope × Option ResolveError
after_admins (is_admin, some admins_not_configured) rest = rest
after_admins (is_admin, some platformadmin_not_configured) rest = rest
after_admins (is_admin, some (admin_failure e)) rest = (denied, some (admin_lookup e))
after_admins (true, none) rest = (record { platform_admin = true; org_ids = [] }, none)
after_admins (false, none) rest = rest

-- The step of platform authority: a carrier, whether it applies to the credential, the user, and
-- what follows.
pub ask_admins :
    Option (Str → Bool × Option AdminError)
    → Bool
    → Str
    → Scope × Option ResolveError
    → Scope × Option ResolveError
unfolding after_admins
ask_admins none applies user_id rest = rest
ask_admins (some is_platform_admin) applies user_id rest =
    if applies then after_admins (is_platform_admin user_id) rest else rest

unfoldable pub resolve : Resolver → Principal → Str → Scope × Option ResolveError
unfolding ask_admins from_key is_session
resolve r p required =
    if trim_space p.user_id == []
    then (denied, none)
    else ask_admins r.admins (is_session p.credential || r.admins_apply_to_api_keys)
        (trim_space p.user_id) (from_key r p (trim_space p.user_id) required)

pub data ActingError : Type 0 where
  no_acting_organization ambiguous_acting_organization : ActingError
  acting_organization_not_permitted : ActingError

pub data ActingResult : Type 0 where
  acting : Str → ActingResult
  refused : ActingError → ActingResult

-- The switch on the number of organizations.
pub only_organization : List Str → ActingResult
only_organization [] = refused no_acting_organization
only_organization (org ∷ []) = acting org
only_organization (org ∷ other ∷ more) = refused ambiguous_acting_organization

unfoldable pub acting_organization : Scope → Str → ActingResult
unfolding only_organization
acting_organization scope selected =
    if not (trim_space selected == [])
    then (if not (permits scope (trim_space selected))
        then refused acting_organization_not_permitted
        else acting (trim_space selected))
    else if scope.platform_admin
    then refused ambiguous_acting_organization
    else only_organization scope.org_ids
