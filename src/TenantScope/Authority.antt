-- ===== src/TenantScope/Authority.antt =====
-- What `Resolve` grants: platform authority, the organization of a key, those of memberships.
use terraform_suite_identity.Common.{
  ℕ, Str, ◌==◌, eq_iff, ne_of_test, contains_iff, trim_space, [], ◌∷◌, In, ◌≡◌, ◌≢◌, ◌↔◌, ◌⊎◌, inl,
  inr, refl, sym, Bool, true, false, not, ◌&&◌, ◌||◌, Option, none, some, Bool-cases, arith,
}
use terraform_suite_identity.Auth.Scopes.{ReadWritePairs}
use terraform_suite_identity.Store.OrgScope.{OrgScope, organization_ids}
use terraform_suite_identity.TenantScope.{
  Credential, api_key, is_session, is_api_key, Principal, Scope, denied, permits, AdminError,
  ResolveError, Resolver, admin_failure, from_membership, ask_memberships, from_key, after_admins,
  ask_admins, resolve,
}

-- A scope permits what a platform administrator asks for, and otherwise exactly the organizations
-- of its list, surrounding space aside and the empty name excluded.
pub permits_iff :
    (s : Scope) (org : Str)
    → (permits s org ≡ true)
      ↔ ((s.platform_admin ≡ true) ⊎ ((trim_space org ≢ []) × In (trim_space org) s.org_ids))
unfolding permits
permits_iff s org =
    ground (arith, eq_iff (trim_space org) [], contains_iff s.org_ids (trim_space org))

-- The one way to platform authority: a named principal, a carrier that is wired, a credential it
-- applies to, and its answer yes with no error.
abbrev pub Elevated : Resolver → Principal → Type 0
Elevated r p =
    (trim_space p.user_id ≢ [])
    × ((is_platform_admin : Str → Bool × Option AdminError) × (r.admins ≡ some is_platform_admin)
        × ((is_session p.credential || r.admins_apply_to_api_keys) ≡ true)
        × (is_platform_admin (trim_space p.user_id) ≡ (true, none)))

-- The organization that is named on an API key, where the application binds keys.
abbrev pub KeyBound : Resolver → Principal → Str → Type 0
KeyBound r p org =
    (p.credential ≡ api_key)
    × (r.key_binds_organization ≡ true)
    × (trim_space p.key_org_id ≢ [])
    × (trim_space org ≡ trim_space p.key_org_id)

-- An organization that the membership lookup answered, without an error.
abbrev pub MemberOf : Resolver → Principal → Str → Str → Type 0
MemberOf r p required org =
    (org_scope_for_user : Str → Str → ReadWritePairs → OrgScope × Option ℕ) × (org_scope : OrgScope)
    × (r.memberships ≡ some org_scope_for_user)
    × (org_scope_for_user (trim_space p.user_id) required r.read_write_pairs ≡ (org_scope, none))
    × In (trim_space org) (organization_ids org_scope)

-- What a result that carries no platform authority may hold.
Confined : Resolver → Principal → Str → Scope → Type 0
Confined r p required s =
    (s.platform_admin ≡ false)
    × ((org : Str) → In (trim_space org) s.org_ids → KeyBound r p org ⊎ MemberOf r p required org)

denied-Confined : (r : Resolver) (p : Principal) (required : Str) → Confined r p required denied
unfolding Confined
denied-Confined r p required = (refl, λ org i. elim i [ ])

from_membership-Confined :
    (r : Resolver) (p : Principal) (required : Str)
    (f : Str → Str → ReadWritePairs → OrgScope × Option ℕ)
    → r.memberships ≡ some f
    → (o : OrgScope × Option ℕ) → f (trim_space p.user_id) required r.read_write_pairs ≡ o
    → Confined r p required (from_membership o).0
unfolding Confined from_membership
from_membership-Confined r p required f e (o, none) h = (refl, λ org i. inr (f, o, e, h, i))
from_membership-Confined r p required f e (o, some x) h = (refl, λ org i. elim i [ ])

ask_memberships-Confined :
    (r : Resolver) (p : Principal) (required : Str)
    (m : Option (Str → Str → ReadWritePairs → OrgScope × Option ℕ))
    → r.memberships ≡ m
    → Confined r p required (ask_memberships m (trim_space p.user_id) required r.read_write_pairs).0
unfolding ask_memberships
ask_memberships-Confined r p required none e = denied-Confined r p required
ask_memberships-Confined r p required (some f) e =
    from_membership-Confined r p required f e (f (trim_space p.user_id) required r.read_write_pairs)
      refl

is_api_key_lem : (c : Credential) → is_api_key c ≡ true → c ≡ api_key
unfolding is_api_key
is_api_key_lem c h = ground arith

abbrev bound_test : Resolver → Principal → Bool
bound_test r p =
    is_api_key p.credential && r.key_binds_organization && not (trim_space p.key_org_id == [])

bound_test-KeyBound :
    (r : Resolver) (p : Principal) (org : Str)
    → bound_test r p ≡ true
    → In (trim_space org) (trim_space p.key_org_id ∷ [])
    → KeyBound r p org
bound_test-KeyBound r p org h (inr i) = elim i [ ]
bound_test-KeyBound r p org h (inl e) = (
  is_api_key_lem p.credential (ground arith),
  ground arith,
  ground (arith, eq_iff (trim_space p.key_org_id) []),
  sym e,
)

key-Confined :
    (r : Resolver) (p : Principal) (required : Str)
    → bound_test r p ≡ true
    → Confined r p required
        (record { platform_admin = false; org_ids = trim_space p.key_org_id ∷ [] })
unfolding Confined
key-Confined r p required key = (refl, λ org i. inl (bound_test-KeyBound r p org key i))

from_key-Confined :
    (r : Resolver) (p : Principal) (required : Str)
    → Confined r p required (from_key r p (trim_space p.user_id) required).0
unfolding from_key
from_key-Confined r p required = elim (Bool-cases (bound_test r p)) [
  | inl key ↦ rw (key, from_key) (key-Confined r p required key)
  | inr other ↦ rw (other, from_key) (ask_memberships-Confined r p required r.memberships refl)
]

-- The result of the call, elevated or confined.
Granted : Resolver → Principal → Str → Scope → Type 0
Granted r p required s = (Elevated r p × (s.platform_admin ≡ true)) ⊎ Confined r p required s

confined :
    (r : Resolver) (p : Principal) (required : Str) (s : Scope)
    → Confined r p required s
    → Granted r p required s
unfolding Granted
confined r p required s c = inr c

after_admins-Granted :
    (r : Resolver) (p : Principal) (required : Str) (f : Str → Bool × Option AdminError)
    → trim_space p.user_id ≢ []
    → r.admins ≡ some f
    → (is_session p.credential || r.admins_apply_to_api_keys) ≡ true
    → (a : Bool × Option AdminError) → f (trim_space p.user_id) ≡ a
    → (rest : Scope × Option ResolveError) → Confined r p required rest.0
    → Granted r p required (after_admins a rest).0
unfolding after_admins Granted
after_admins-Granted r p required f named wired applies (true, none) h rest c =
    inl ((named, (f, wired, applies, h)), refl)
after_admins-Granted r p required f named wired applies (false, none) h rest c = inr c
after_admins-Granted r p required f named wired applies (b, some (admin_failure e)) h rest c =
    inr (denied-Confined r p required)
after_admins-Granted r p required f named wired applies (b, some _) h rest c = inr c

ask_admins-Granted :
    (r : Resolver) (p : Principal) (required : Str)
    → trim_space p.user_id ≢ []
    → (a : Option (Str → Bool × Option AdminError)) → r.admins ≡ a
    → (applies : Bool) → (is_session p.credential || r.admins_apply_to_api_keys) ≡ applies
    → (rest : Scope × Option ResolveError) → Confined r p required rest.0
    → Granted r p required (ask_admins a applies (trim_space p.user_id) rest).0
unfolding ask_admins
ask_admins-Granted r p required named none e applies h rest c = confined r p required rest.0 c
ask_admins-Granted r p required named (some f) e true h rest c =
    after_admins-Granted r p required f named e h (f (trim_space p.user_id)) refl rest c
ask_admins-Granted r p required named (some f) e false h rest c = confined r p required rest.0 c

resolve-Granted :
    (r : Resolver) (p : Principal) (required : Str) → Granted r p required (resolve r p required).0
unfolding resolve
resolve-Granted r p required = elim (Bool-cases (trim_space p.user_id == [])) [
  | inl nobody ↦ rw nobody (confined r p required _ (denied-Confined r p required))
  | inr named ↦ rw named (
      ask_admins-Granted r p required (ne_of_test _ _ named) r.admins refl
        (is_session p.credential || r.admins_apply_to_api_keys) refl
        (from_key r p (trim_space p.user_id) required) (from_key-Confined r p required))
]

Granted-Elevated :
    (r : Resolver) (p : Principal) (required : Str) (s : Scope)
    → Granted r p required s
    → s.platform_admin ≡ true
    → Elevated r p
unfolding Granted Confined
Granted-Elevated r p required s (inl g) h = g.0
Granted-Elevated r p required s (inr c) h = cc (c.0, h)

-- Platform authority is resolved in one way only: exactly where a named principal, under a session
-- or where the application extends it to keys, has a yes without an error from a wired carrier.
-- A credential that is left unspecified counts as no session.
pub platform_admin_iff :
    (r : Resolver) (p : Principal) (required : Str)
    → ((resolve r p required).0.platform_admin ≡ true) ↔ Elevated r p
unfolding resolve
platform_admin_iff r p required = (
  Granted-Elevated r p required (resolve r p required).0 (resolve-Granted r p required),
  λ h. ground (arith, eq_iff (trim_space p.user_id) []),
)

Granted-reach :
    (r : Resolver) (p : Principal) (required org : Str) (s : Scope)
    → Granted r p required s
    → (s.platform_admin ≡ true) ⊎ ((trim_space org ≢ []) × In (trim_space org) s.org_ids)
    → Elevated r p ⊎ KeyBound r p org ⊎ MemberOf r p required org
unfolding Granted Confined
Granted-reach r p required org s (inl g) d = inl g.0
Granted-reach r p required org s (inr c) (inl d) = cc (c.0, d)
Granted-reach r p required org s (inr c) (inr d) = inr (c.1 org d.1)

-- A scope that was resolved permits an organization only to a platform administrator, to the key
-- that is bound to it where keys bind, or to a principal whose membership lookup answered it.
pub resolve_reach_sound :
    (r : Resolver) (p : Principal) (required org : Str)
    → permits (resolve r p required).0 org ≡ true
    → Elevated r p ⊎ KeyBound r p org ⊎ MemberOf r p required org
resolve_reach_sound r p required org h =
    Granted-reach r p required org (resolve r p required).0 (resolve-Granted r p required)
      ((permits_iff (resolve r p required).0 org).0 h)
