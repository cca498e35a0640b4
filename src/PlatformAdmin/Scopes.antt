-- ===== src/PlatformAdmin/Scopes.antt =====
-- The scopes of a session and of a key (identity/platformadmin/scopes.go).
use terraform_suite_identity.Common.{
  Str, eq_iff, List, [], ◌∷◌, ◌++◌, In, In-append, In-append_left, In-append_last, Bool, true,
  false, Option, none, some, Result, ok, err, ◌≡◌, ◌≢◌, ◌↔◌, inl, inr, refl, sym, arith,
}
use terraform_suite_identity.Auth.Scopes.{scope_admin}
use terraform_suite_identity.PlatformAdmin.{
  Carrier, CarrierError, Surroundings, is_platform_admin, without_admin, key_scopes, session_scopes,
}

without_admin-In :
    (s : Str) (scopes : List Str) → In s (without_admin scopes) ↔ (In s scopes × (s ≢ scope_admin))
unfolding without_admin
without_admin-In s [] = (λ i. elim i [ ], λ i. elim (i.0) [ ])
without_admin-In s (x ∷ scopes) =
    ground (arith, without_admin-In s scopes, eq_iff x scope_admin, eq_iff s scope_admin)

-- The scopes of a key never contain the platform's, and all others stay.
pub key_scopes_iff :
    (s : Str) (scopes : List Str) → In s (key_scopes scopes) ↔ (In s scopes × (s ≢ scope_admin))
unfolding key_scopes
key_scopes_iff s scopes = without_admin-In s scopes

-- What a session is given of the platform's scope depends on the carrier alone: the session has it
-- exactly when the carrier answers that the user is an administrator, whatever its scopes said
-- before, and every other scope is kept.
session_scopes_iff :
    (around : Surroundings) (user_id : Str) (scopes : List Str) (c : Carrier)
    → let granted = (session_scopes around user_id scopes c).0 in
      (In scope_admin granted ↔ (is_platform_admin around user_id c ≡ ok true))
      × ((s : Str) → s ≢ scope_admin → In s granted ↔ In s scopes)
unfolding session_scopes
session_scopes_iff around user_id scopes c = by_answer (is_platform_admin around user_id c)
  where
    outcome : Result CarrierError Bool → List Str × Option CarrierError
    outcome o = elim o [
      | err e ↦ (without_admin scopes, some e)
      | ok false ↦ (without_admin scopes, none)
      | ok true ↦ (without_admin scopes ++ scope_admin ∷ [], none)
    ]

    plain : (s : Str) → s ≢ scope_admin → In s (without_admin scopes) ↔ In s scopes
    plain s other =
        (λ i. ((without_admin-In s scopes).0 i).0, λ i. (without_admin-In s scopes).1 (i, other))

    never : In scope_admin (without_admin scopes) → ⊥
    never i = ((without_admin-In scope_admin scopes).0 i).1 refl

    by_answer :
        (o : Result CarrierError Bool)
        → (In scope_admin (outcome o).0 ↔ (o ≡ ok true))
          × ((s : Str) → s ≢ scope_admin → In s (outcome o).0 ↔ In s scopes)
    by_answer (err e) = ((λ i. absurd (never i), λ k. cc k), plain)
    by_answer (ok false) = ((λ i. absurd (never i), λ k. cc k), plain)
    by_answer (ok true) = (
      (λ i. refl, λ k. In-append_last scope_admin (without_admin scopes)),
      λ s other. (
        λ i. elim (In-append s (without_admin scopes) (scope_admin ∷ []) i) [
          | inl before ↦ (plain s other).0 before
          | inr (inl same) ↦ absurd (other (sym same))
          | inr (inr nothing) ↦ elim nothing [ ]
        ],
        λ i. In-append_left s (without_admin scopes) (scope_admin ∷ []) ((plain s other).1 i),
      ),
    )
