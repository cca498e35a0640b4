-- ===== src/Auth/Scopes/Grants.antt =====
-- What one held scope grants, and what the three checks of scopes.go decide in these terms.
use terraform_suite_identity.Common.{
  Str, eq_iff, List, [], ◌∷◌, In, All, ◌≡◌, ◌≢◌, refl, ◌↔◌, ◌⊎◌, inl, inr, true, none, some, arith,
  Bool-cases, Option-cases, subst,
}
use terraform_suite_identity.Auth.Scopes.{
  scope_admin, ReadWritePairs, lookup, write_implies, scan, has_scope, has_any_scope, scan_all,
  has_all_scopes, validate_provisionable_scopes,
}

-- A held scope grants a required one by name, as the wildcard, or as its write scope.
abbrev pub Grants : ReadWritePairs → Str → Str → Type 0
Grants rw_pairs s required =
    (s ≡ required) ⊎ (s ≡ scope_admin) ⊎ (lookup required rw_pairs ≡ some s)

abbrev pub Granted : List Str → Str → ReadWritePairs → Type 0
Granted user_scopes required rw_pairs = (s : Str) × In s user_scopes × Grants rw_pairs s required

write_implies_lem :
    (rw_pairs : ReadWritePairs) (required s : Str)
    → (write_implies rw_pairs required s ≡ true) ↔ (lookup required rw_pairs ≡ some s)
unfolding write_implies
write_implies_lem rw_pairs required s = elim (Option-cases (lookup required rw_pairs)) [
  | inl e ↦ ground arith
  | inr (w, e) ↦ ground (arith, eq_iff s w)
]

-- The loop stops at a granting scope or goes on.
scan-cons :
    (s : Str) (us : List Str) (r : Str) (p : ReadWritePairs)
    → scan (s ∷ us) r p ≡ true
    → Grants p s r ⊎ (scan us r p ≡ true)
unfolding scan
scan-cons s us r p h = ground (arith, eq_iff s r, eq_iff s scope_admin, write_implies_lem p r s)

scan-Granted : (us : List Str) (r : Str) (p : ReadWritePairs) → scan us r p ≡ true → Granted us r p
unfolding scan
scan-Granted [] r p h = cc
scan-Granted (s ∷ us) r p h = elim (scan-cons s us r p h) [
  | inl g ↦ (s, inl refl, g)
  | inr more ↦ let (t, i, g) = scan-Granted us r p more in (t, inr i, g)
]

Granted-scan :
    (us : List Str) (r : Str) (p : ReadWritePairs) (s : Str)
    → In s us
    → Grants p s r
    → scan us r p ≡ true
unfolding scan
Granted-scan [] r p s i g = elim i [ ]
Granted-scan (x ∷ us) r p s i g =
    ground (arith, eq_iff x r, eq_iff x scope_admin, write_implies_lem p r x, Granted-scan us r p s)

-- `HasScope` holds exactly when the required scope is not empty and some held scope grants it:
-- by name, as the wildcard "admin", or as the write scope that the pairs give for it.
pub has_scope_iff :
    (us : List Str) (r : Str) (p : ReadWritePairs)
    → (has_scope us r p ≡ true) ↔ ((r ≢ []) × Granted us r p)
unfolding has_scope
has_scope_iff us r p = (
  λ h. (ground (arith, eq_iff r []), scan-Granted us r p (ground arith)),
  λ h. let (s, i, g) = h.1 in ground (arith, eq_iff r [], Granted-scan us r p s i g),
)

has_any_scope-In :
    (us rs : List Str) (p : ReadWritePairs)
    → has_any_scope us rs p ≡ true
    → (r : Str) × In r rs × (has_scope us r p ≡ true)
unfolding has_any_scope
has_any_scope-In us [] p h = cc
has_any_scope-In us (r ∷ rs) p h = elim (Bool-cases (has_scope us r p)) [
  | inl held ↦ (r, inl refl, held)
  | inr other ↦
      let (t, i, g) = has_any_scope-In us rs p (rw (other, has_any_scope) at h) in (t, inr i, g)
]

In-has_any_scope :
    (us rs : List Str) (p : ReadWritePairs) (r : Str)
    → In r rs
    → has_scope us r p ≡ true
    → has_any_scope us rs p ≡ true
unfolding has_any_scope
In-has_any_scope us [] p r i h = elim i [ ]
In-has_any_scope us (x ∷ rs) p r i h = ground (arith, In-has_any_scope us rs p r)

scan_all_iff :
    (us rs : List Str) (p : ReadWritePairs)
    → (scan_all us rs p ≡ true) ↔ All (λ r. has_scope us r p ≡ true) rs
unfolding scan_all
scan_all_iff us [] p = (λ h. tt, λ h. refl)
scan_all_iff us (r ∷ rs) p = ground (arith, scan_all_iff us rs p)

-- `HasAnyScope` holds exactly when one of the required scopes is held, and `HasAllScopes` exactly
-- when there is a required scope and every one is held.
required_scopes_iff :
    (us rs : List Str) (p : ReadWritePairs)
    → ((has_any_scope us rs p ≡ true) ↔ ((r : Str) × In r rs × (has_scope us r p ≡ true)))
      × ((has_all_scopes us rs p ≡ true) ↔ ((rs ≢ []) × All (λ r. has_scope us r p ≡ true) rs))
unfolding has_all_scopes
required_scopes_iff us [] p = (
  (has_any_scope-In us [] p, λ h. In-has_any_scope us [] p h.0 h.1 h.2),
  (λ h. cc, λ h. absurd (h.0 refl)),
)
required_scopes_iff us (r ∷ rs) p = (
  (has_any_scope-In us (r ∷ rs) p, λ h. In-has_any_scope us (r ∷ rs) p h.0 h.1 h.2),
  (λ h. (λ e. cc, (scan_all_iff us (r ∷ rs) p).0 h), λ h. (scan_all_iff us (r ∷ rs) p).1 h.1),
)

validate-In :
    (us : List Str) (s : Str) → validate_provisionable_scopes us ≡ none → In s us → s ≢ scope_admin
unfolding validate_provisionable_scopes
validate-In [] s v i = elim i [ ]
validate-In (x ∷ us) s v i = ground (arith, eq_iff x scope_admin, validate-In us s)

-- A scope list that `ValidateProvisionableScopes` accepts holds no wildcard: what it satisfies
-- under `HasScope` it holds by name, or through the write scope of a pair.
validated_grants_explicit :
    (us : List Str) (r : Str) (p : ReadWritePairs)
    → validate_provisionable_scopes us ≡ none
    → has_scope us r p ≡ true
    → In r us ⊎ ((w : Str) × In w us × (lookup r p ≡ some w))
validated_grants_explicit us r p v h =
    let (s, i, g) = ((has_scope_iff us r p).0 h).1 in explicit s i g
  where
    explicit :
        (s : Str) → In s us → Grants p s r → In r us ⊎ ((w : Str) × In w us × (lookup r p ≡ some w))
    explicit s i (inl e) = inl (subst (λ x. In x us) e i)
    explicit s i (inr (inl e)) = absurd (validate-In us s v i e)
    explicit s i (inr (inr e)) = inr (s, i, e)
