-- ===== src/Auth/Scopes/Ceiling.antt =====
-- The ceiling of `RoleScopesPermittedBy` (identity/auth/scopes.go), against `HasScope`.
use terraform_suite_identity.Common.{
  Str, eq_iff, eq_refl, List, [], ◌∷◌, In, ◌≡◌, ◌≢◌, sym, subst, inl, inr, true, none, some, arith,
  ◌⊎◌, Bool-cases, false,
}
use terraform_suite_identity.Auth.Scopes.{
  scope_admin, ReadWritePairs, lookup, has_scope, scan_role, role_scopes_permitted_by,
}
use terraform_suite_identity.Auth.Scopes.Grants.{Grants, has_scope_iff}

-- A table of read and write scopes in which no write scope is itself implied by another, and the
-- wildcard is no read scope.
pub record IsFlat (p : ReadWritePairs) : Type 0 where
  pub admin_unpaired : lookup scope_admin p ≡ none
  pub unchained : (r w : Str) → lookup r p ≡ some w → lookup w p ≡ none

module _ (caller : List Str) (p : ReadWritePairs) where
  -- Every scope of a role that passes the loop is held, and is not the wildcard.
  scan_role-In :
      (role : List Str) (s : Str)
      → scan_role caller role p ≡ true
      → In s role
      → (s ≢ scope_admin) × (has_scope caller s p ≡ true)
  unfolding scan_role
  scan_role-In [] s h i = elim i [ ]
  scan_role-In (x ∷ role) s h i = ground (arith, eq_iff x scope_admin, scan_role-In role s)

  -- A caller with the wildcard satisfies every scope that is not empty.
  admin_satisfies :
      (r : Str)
      → IsFlat p
      → has_scope caller scope_admin p ≡ true
      → r ≢ []
      → has_scope caller r p ≡ true
  admin_satisfies r flat h ne =
      let (s, i, g) = ((has_scope_iff caller scope_admin p).0 h).1 in
      (has_scope_iff caller r p).1 (ne, (s, i, inr (inl (wildcard s g))))
    where
      wildcard : (s : Str) → Grants p s scope_admin → s ≡ scope_admin
      wildcard s (inl e) = e
      wildcard s (inr (inl e)) = e
      wildcard s (inr (inr e)) = cc (flat.admin_unpaired)

  -- What a held scope grants, the caller has.
  held_satisfies :
      (s r : Str)
      → IsFlat p
      → s ≢ scope_admin
      → has_scope caller s p ≡ true
      → r ≢ []
      → Grants p s r
      → has_scope caller r p ≡ true
  held_satisfies s r flat plain held ne (inl e) = subst (λ x. has_scope caller x p ≡ true) e held
  held_satisfies s r flat plain held ne (inr (inl e)) = absurd (plain e)
  held_satisfies s r flat plain held ne (inr (inr e)) =
      let (t, i, g) = ((has_scope_iff caller s p).0 held).1 in
      (has_scope_iff caller r p).1 (ne, (t, i, through t g))
    where
      through : (t : Str) → Grants p t s → Grants p t r
      through t (inl d) = inr (inr (subst (λ x. lookup r p ≡ some x) (sym d) e))
      through t (inr (inl d)) = inr (inl d)
      through t (inr (inr d)) = cc (flat.unchained r s e)

pub permitted_cases :
    (caller role : List Str) (p : ReadWritePairs) (s : Str)
    → role_scopes_permitted_by caller role p ≡ true
    → In s role
    → (has_scope caller scope_admin p ≡ true) ⊎ ((s ≢ scope_admin) × (has_scope caller s p ≡ true))
unfolding role_scopes_permitted_by
permitted_cases caller [] p s h i = elim i [ ]
permitted_cases caller (x ∷ role) p s h i = elim (Bool-cases (has_scope caller scope_admin p)) [
  | inl admin ↦ inl admin
  | inr plain ↦
      inr (scan_role-In caller p (x ∷ role) s (rw (plain, role_scopes_permitted_by) at h) i)
]

-- No escalation by assignment: over a flat table, whoever is permitted to assign a role already
-- satisfies every scope that the role satisfies.
pub permitted_role_no_escalation :
    (caller role : List Str) (p : ReadWritePairs) (r : Str)
    → IsFlat p
    → role_scopes_permitted_by caller role p ≡ true
    → has_scope role r p ≡ true
    → has_scope caller r p ≡ true
permitted_role_no_escalation caller role p r flat h k =
    let (ne, granted) = (has_scope_iff role r p).0 k in
    let (s, i, g) = granted in
    elim (permitted_cases caller role p s h i) [
      | inl admin ↦ admin_satisfies caller p r flat admin ne
      | inr (plain, held) ↦ held_satisfies caller p s r flat plain held ne g
    ]

-- Where the table chains two pairs, the read scope of the first is gained by assignment: the
-- holder of the last scope alone may assign a role with the middle one, which satisfies a scope
-- that the caller does not satisfy.
chained_pairs_escalate :
    (p : ReadWritePairs) (r w v : Str)
    → lookup r p ≡ some w
    → lookup w p ≡ some v
    → r ≢ []
    → w ≢ []
    → w ≢ scope_admin
    → v ≢ scope_admin
    → v ≢ r
    → v ≢ w
    → (role_scopes_permitted_by (v ∷ []) (w ∷ []) p ≡ true)
      × (has_scope (w ∷ []) r p ≡ true)
      × (has_scope (v ∷ []) r p ≡ false)
unfolding role_scopes_permitted_by has_scope
chained_pairs_escalate p r w v first second nr nw wa va vr vw = ground (
  arith,
  eq_iff r [],
  eq_iff w [],
  eq_iff w scope_admin,
  eq_iff v scope_admin,
  eq_iff v r,
  eq_iff v w,
  eq_refl v,
  eq_refl w,
  eq_iff w r,
  eq_iff scope_admin [],
)
