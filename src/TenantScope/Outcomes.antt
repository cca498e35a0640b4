-- ===== src/TenantScope/Outcomes.antt =====
-- Failures of `Resolve`, bound keys, carriers that are not wired.
use terraform_suite_identity.Common.{
  ℕ, Str, ◌==◌, eq_iff, contains, trim_space, [], ◌≡◌, ◌≢◌, ◌↔◌, ◌⊎◌, inl, inr, refl, Bool, true,
  false, ◌||◌, Option, none, some, Bool-cases, arith,
}
use terraform_suite_identity.Auth.Scopes.{ReadWritePairs}
use terraform_suite_identity.Store.OrgScope.{OrgScope}
use terraform_suite_identity.TenantScope.{
  api_key, is_session, Principal, Scope, denied, permits, AdminError, ResolveError, Resolver,
  admin_failure, admins_not_configured, platformadmin_not_configured, from_membership,
  ask_memberships, from_key, after_admins, ask_admins, resolve,
}

after_admins-denied :
    (a : Bool × Option AdminError) (rest : Scope × Option ResolveError) (e : ResolveError)
    → (rest.1 ≡ some e → rest.0 ≡ denied)
    → (after_admins a rest).1 ≡ some e
    → (after_admins a rest).0 ≡ denied
unfolding after_admins
after_admins-denied (true, none) rest e k h = cc
after_admins-denied (false, none) rest e k h = k h
after_admins-denied (b, some (admin_failure x)) rest e k h = refl
after_admins-denied (b, some _) rest e k h = k h

ask_admins-denied :
    (a : Option (Str → Bool × Option AdminError)) (applies : Bool) (user : Str)
    (rest : Scope × Option ResolveError) (e : ResolveError)
    → (rest.1 ≡ some e → rest.0 ≡ denied)
    → (ask_admins a applies user rest).1 ≡ some e
    → (ask_admins a applies user rest).0 ≡ denied
unfolding ask_admins
ask_admins-denied none applies user rest e k h = k h
ask_admins-denied (some f) true user rest e k h = after_admins-denied (f user) rest e k h
ask_admins-denied (some f) false user rest e k h = k h

from_membership-denied :
    (o : OrgScope × Option ℕ) (e : ResolveError)
    → (from_membership o).1 ≡ some e
    → (from_membership o).0 ≡ denied
unfolding from_membership
from_membership-denied (o, none) e h = cc
from_membership-denied (o, some x) e h = refl

ask_memberships-denied :
    (m : Option (Str → Str → ReadWritePairs → OrgScope × Option ℕ)) (user required : Str)
    (pairs : ReadWritePairs) (e : ResolveError)
    → (ask_memberships m user required pairs).1 ≡ some e
    → (ask_memberships m user required pairs).0 ≡ denied
unfolding ask_memberships
ask_memberships-denied none user required pairs e h = refl
ask_memberships-denied (some f) user required pairs e h =
    from_membership-denied (f user required pairs) e h

from_key-denied :
    (r : Resolver) (p : Principal) (user required : Str) (e : ResolveError)
    → (from_key r p user required).1 ≡ some e
    → (from_key r p user required).0 ≡ denied
unfolding from_key
from_key-denied r p user required e h =
    ground (arith, ask_memberships-denied r.memberships user required r.read_write_pairs e)

-- A lookup that fails comes with the zero scope, so a caller that ignores the error reaches
-- nothing.
resolve_error_denies :
    (r : Resolver) (p : Principal) (required : Str) (e : ResolveError)
    → (resolve r p required).1 ≡ some e
    → (resolve r p required).0 ≡ denied
unfolding resolve
resolve_error_denies r p required e h = elim (Bool-cases (trim_space p.user_id == [])) [
  | inl nobody ↦ rw nobody refl
  | inr named ↦ rw named (
      ask_admins-denied r.admins (is_session p.credential || r.admins_apply_to_api_keys)
        (trim_space p.user_id) (from_key r p (trim_space p.user_id) required) e
        (from_key-denied r p (trim_space p.user_id) required e) (rw (named, resolve) at h))
]

-- A named key principal, where keys bind and platform authority is not extended to keys, reaches
-- exactly the organization of its key, whatever its owner's memberships are.
key_reaches_its_organization :
    (r : Resolver) (p : Principal) (required org : Str)
    → trim_space p.user_id ≢ []
    → p.credential ≡ api_key
    → trim_space p.key_org_id ≢ []
    → r.key_binds_organization ≡ true
    → r.admins_apply_to_api_keys ≡ false
    → ((resolve r p required).1 ≡ none)
      × ((permits (resolve r p required).0 org ≡ true) ↔ (trim_space org ≡ trim_space p.key_org_id))
unfolding resolve permits contains
key_reaches_its_organization r p required org named key bound binds held = ground (
  arith,
  eq_iff (trim_space p.user_id) [],
  eq_iff (trim_space p.key_org_id) [],
  eq_iff (trim_space org) [],
  eq_iff (trim_space p.key_org_id) (trim_space org),
)

-- The two sentinels for a carrier that is not wired.
abbrev pub NotConfigured : AdminError → Type 0
NotConfigured e = (e ≡ admins_not_configured) ⊎ (e ≡ platformadmin_not_configured)

-- A carrier that reports that it is not wired withholds authority: the result is that of a resolver
-- without a carrier, also where the carrier says yes beside that error.
NotConfigured-falls_through :
    (r : Resolver) (p : Principal) (required : Str) (f : Str → Bool × Option AdminError) (b : Bool)
    (e : AdminError)
    → r.admins ≡ some f
    → f (trim_space p.user_id) ≡ (b, some e)
    → NotConfigured e
    → resolve r p required ≡ resolve (record r { admins = none }) p required
unfolding resolve
NotConfigured-falls_through r p required f b e wired answer sentinel = ground arith

-- Without a principal nothing is reached and nothing is reported, whatever the key says: a service
-- key without an owner does not reach the organization that it is bound to.
userless_key_denied :
    (r : Resolver) (p : Principal) (required org : Str)
    → trim_space p.user_id ≡ []
    → ((resolve r p required).1 ≡ none) × (permits (resolve r p required).0 org ≡ false)
unfolding resolve permits contains
userless_key_denied r p required org nobody = ground (arith, eq_iff (trim_space p.user_id) [])
