-- ===== src/Store/OrgScope/Resolver.antt =====
-- `OrgScopeForUser` of identity/store/org_scope.go: what the resolved scope permits.
use terraform_suite_identity.Common.{
  ℕ, Str, ◌==◌, eq_iff, ne_of_test, contains, List, [], ◌∷◌, In, ◌≡◌, ◌≢◌, ◌↔◌, ◌⊎◌, inl, inr, refl,
  sym, ap, subst, ◌∙◌, true, false, Bool, none, some, Bool-cases, arith,
}
use terraform_suite_identity.Auth.Scopes.{ReadWritePairs, has_scope}
use terraform_suite_identity.Store.OrgScope.{
  zero_scope, permits_organization, org_scope_organizations, UserMembership, DbResult, found,
  failed, qualifying, org_scope_for_user,
}
use terraform_suite_identity.Store.OrgScope.Permits.{constructors_permit}

-- A membership in the organization whose role template grants the required scope.
abbrev pub Qualifies : List UserMembership → Str → ReadWritePairs → Str → Type 0
Qualifies ms required rw_pairs org =
    (m : UserMembership) × In m ms
    × (m.organization_id ≡ org)
    × (has_scope m.role_template_scopes required rw_pairs ≡ true)

In-qualifying :
    (ms : List UserMembership) (r : Str) (p : ReadWritePairs) (org : Str)
    → In org (qualifying ms r p)
    → Qualifies ms r p org
unfolding qualifying
In-qualifying [] r p org i = elim i [ ]
In-qualifying (m ∷ ms) r p org i =
    let later = In-qualifying ms r p org in
    elim (Bool-cases (has_scope m.role_template_scopes r p)) [
      | inl held ↦ first (rw (held, qualifying) at i) later held
      | inr other ↦ let (n, j, e, h) = later (rw (other, qualifying) at i) in (n, inr j, e, h)
    ]
  where
    first :
        (m.organization_id ≡ org) ⊎ In org (qualifying ms r p)
        → (In org (qualifying ms r p) → Qualifies ms r p org)
        → has_scope m.role_template_scopes r p ≡ true
        → Qualifies (m ∷ ms) r p org
    first (inl e) later held = (m, inl refl, e, held)
    first (inr j) later held = let (n, k, e, h) = later j in (n, inr k, e, h)

qualifying-In :
    (ms : List UserMembership) (r : Str) (p : ReadWritePairs) (org : Str) (m : UserMembership)
    → In m ms
    → m.organization_id ≡ org
    → has_scope m.role_template_scopes r p ≡ true
    → In org (qualifying ms r p)
unfolding qualifying
qualifying-In [] r p org m i e h = elim i [ ]
qualifying-In (x ∷ ms) r p org m (inl same) e h =
    let here : has_scope x.role_template_scopes r p ≡ true =
      subst (λ (y : UserMembership). has_scope y.role_template_scopes r p ≡ true) (sym same) h in
    let named : x.organization_id ≡ org = ap (λ (y : UserMembership). y.organization_id) same ∙ e in
    ground arith
qualifying-In (x ∷ ms) r p org m (inr i) e h = ground (arith, qualifying-In ms r p org m i e h)

permits_qualifying :
    (ms : List UserMembership) (r : Str) (p : ReadWritePairs) (org : Str)
    → (permits_organization (org_scope_organizations (qualifying ms r p)) org ≡ true)
      ↔ ((org ≢ []) × Qualifies ms r p org)
permits_qualifying ms r p org =
    let permit = (constructors_permit (qualifying ms r p) org).0 in
    (
      λ h. let (i, ne) = permit.0 h in (ne, In-qualifying ms r p org i),
      λ h. let (m, i, e, held) = h.1 in permit.1 (qualifying-In ms r p org m i e held, h.0),
    )

permits_zero : (org : Str) → permits_organization zero_scope org ≡ false
unfolding permits_organization contains
permits_zero org = ground arith

-- The three ways of the resolver, by the answer of the lookup.
no_user :
    (get : Str → DbResult (List UserMembership)) (user r : Str) (p : ReadWritePairs)
    → user ≡ []
    → org_scope_for_user get user r p ≡ (zero_scope, none)
unfolding org_scope_for_user
no_user get user r p e = rw ((eq_iff user []).1 e)

lookup_found :
    (get : Str → DbResult (List UserMembership)) (user r : Str) (p : ReadWritePairs)
    (ms : List UserMembership)
    → user ≢ []
    → get user ≡ found ms
    → org_scope_for_user get user r p ≡ (org_scope_organizations (qualifying ms r p), none)
unfolding org_scope_for_user
lookup_found get user r p ms ne e = ground (arith, eq_iff user [])

lookup_failed :
    (get : Str → DbResult (List UserMembership)) (user r : Str) (p : ReadWritePairs) (e : ℕ)
    → user ≢ []
    → get user ≡ failed e
    → org_scope_for_user get user r p ≡ (zero_scope, some e)
unfolding org_scope_for_user
lookup_failed get user r p e ne f = ground (arith, eq_iff user [])

-- A user whose memberships are found, one of which qualifies in the organization.
abbrev pub HoldsIn :
    (Str → DbResult (List UserMembership)) → Str → Str → ReadWritePairs → Str → Type 0
HoldsIn get user r p org =
    (user ≢ [])
    × ((ms : List UserMembership) × (get user ≡ found ms) × (org ≢ []) × Qualifies ms r p org)

data Lookup (d : DbResult (List UserMembership)) : Type 0 where
  was_found : (ms : List UserMembership) → d ≡ found ms → Lookup d
  was_failed : (e : ℕ) → d ≡ failed e → Lookup d

Lookup-cases : (d : DbResult (List UserMembership)) → Lookup d
Lookup-cases (found ms) = was_found ms refl
Lookup-cases (failed e) = was_failed e refl

Bool-only : {b : Bool} {P : Type 0} → b ≡ false → (P → ⊥) → (b ≡ true) ↔ P
Bool-only e out = (λ h. cc, λ x. absurd (out x))

-- The resolved scope permits an organization exactly when the user is named, the memberships are
-- found, and the role template of a membership in that organization, which is not empty, grants the
-- required scope. The call reports an error exactly when the lookup failed, and that error.
org_scope_for_user_lem :
    (get : Str → DbResult (List UserMembership)) (user r : Str) (p : ReadWritePairs) (org : Str)
    (e : ℕ)
    → ((permits_organization (org_scope_for_user get user r p).0 org ≡ true)
        ↔ HoldsIn get user r p org)
      × (((org_scope_for_user get user r p).1 ≡ some e) ↔ ((user ≢ []) × (get user ≡ failed e)))
org_scope_for_user_lem get user r p org e = elim (Bool-cases (user == [])) [
  | inl empty ↦
      let nobody = (eq_iff user []).0 empty in
      rw (no_user get user r p nobody)
        (Bool-only (permits_zero org) (λ h. h.0 nobody), (λ h. cc, λ h. absurd (h.0 nobody)))
  | inr named ↦ elim (Lookup-cases (get user)) [
    | was_found ms f ↦
        let someone : user ≢ [] = ne_of_test user [] named in
        let permit = permits_qualifying ms r p org in
        rw (lookup_found get user r p ms someone f) (
          (
            λ h. (someone, (ms, f, (permit.0 h).0, (permit.0 h).1)),
            λ h.
                let same : h.1.0 ≡ ms = cc (f, h.1.1) in
                permit.1 (h.1.2, subst (λ x. Qualifies x r p org) same h.1.3),
          ),
          (λ h. cc, λ h. cc (f, h.1)),
        )
    | was_failed e' f ↦
        let someone : user ≢ [] = ne_of_test user [] named in
        rw (lookup_failed get user r p e' someone f) (
          Bool-only (permits_zero org) (λ h. cc (f, (h.1).1)),
          (λ h. (someone, cc (f, h)), λ h. cc (f, h.1)),
        )
  ]
]
