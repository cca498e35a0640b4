-- ===== src/Store/Reduction/Tests.antt =====
-- Runs of the reductions of identity/store/authority_reduction.go on small tables, and witnesses.
use terraform_suite_identity.Common.{
  lit, ◌==◌, contains, filter, count_if, In, [], ◌∷◌, true, none, some, ok, commits, ◌≡◌, inl, inr,
  refl, ap, sym, ◌∙◌, ne_of_test,
}
use terraform_suite_identity.Common.Assoc.{get, delete}
use terraform_suite_identity.Auth.Scopes.{has_scope}
use terraform_suite_identity.Store.OrgScope.{
  OrgScope, org_scope_organizations, permits_organization, matches_nothing,
}
use terraform_suite_identity.Store.Tables.{Key, Db, member_scopes, without_keys, Faults}
use terraform_suite_identity.Store.Sweep.{decide_key}
use terraform_suite_identity.Store.Sweep.Decisions.{IsCovered, IsDistinct}
use terraform_suite_identity.Store.Reduction.{Reduced, Reducer, no_app_credentials, run}
use terraform_suite_identity.Store.Reduction.Retained.{authority}
use terraform_suite_identity.Store.Reduction.Operations.{
  Request, update_member_role_template, perform,
}
use terraform_suite_identity.Store.Reduction.Tenant.{
  reduction_contained, reduction_tenant, reduction_spares,
}

abbrev no_faults : Faults
no_faults = record {
  begins = none;
  lookup = none;
  reduces = none;
  reduced_rows = none;
  reads_authority = none;
  reads_keys = none;
  deletes_keys = none;
  deleted_rows = none;
  commit = commits;
}

abbrev reducer : Reducer
reducer = record { has_db = true; rw_pairs = (lit "read", lit "write") ∷ [] }

abbrev writer_key : Key
writer_key = record {
  id = lit "k";
  org_id = lit "a";
  user_id = some (lit "u");
  scopes = some (lit "write" ∷ []);
}

abbrev reader_key : Key
reader_key = record {
  id = lit "l";
  org_id = lit "a";
  user_id = some (lit "u");
  scopes = some (lit "read" ∷ []);
}

abbrev service_key : Key
service_key = record {
  id = lit "s";
  org_id = lit "a";
  user_id = none;
  scopes = some (lit "write" ∷ []);
}

abbrev tables : Db
tables = record {
  members =
      record { org_id = lit "a"; user_id = lit "u"; role_template_id = some (lit "t") }
      ∷ record { org_id = lit "b"; user_id = lit "u"; role_template_id = some (lit "t") }
      ∷ [];
  templates =
      record { id = lit "t"; name = lit "writer"; scopes = some (lit "write" ∷ []) }
      ∷ record { id = lit "v"; name = lit "reader"; scopes = some (lit "read" ∷ []) }
      ∷ [];
  keys = writer_key ∷ reader_key ∷ service_key ∷ [];
  own = [];
}

unfoldable in_a : OrgScope
unfolding org_scope_organizations
in_a = org_scope_organizations (lit "a" ∷ [])

abbrev narrow : Request
narrow = update_member_role_template (lit "a") (lit "u") (some (lit "v"))

-- Narrowing a writer to a reader revokes the one key that writes.
abbrev narrowed : Reduced
narrowed = record {
  user_id = lit "u";
  organizations = lit "a" ∷ [];
  keys_revoked = 1;
  keys_retained = 1;
}

narrow_revokes :
    (perform (some reducer) no_faults in_a (some no_app_credentials) narrow tables).1 ≡ ok narrowed
unfolding perform in_a no_app_credentials ◌==◌ contains get delete has_scope permits_organization
    matches_nothing filter count_if run member_scopes decide_key
narrow_revokes = refl

reduction_contained_example :
    IsCovered
      (λ k.
        authority
          (perform (some reducer) no_faults in_a (some no_app_credentials) narrow tables).0
          (lit "u")
          k.org_id)
      ((lit "read", lit "write") ∷ [])
      reader_key
unfolding perform in_a no_app_credentials ◌==◌ contains get delete has_scope permits_organization
    matches_nothing filter count_if run member_scopes decide_key without_keys
reduction_contained_example =
    reduction_contained reducer no_faults in_a (some no_app_credentials) narrow tables narrowed
      narrow_revokes reader_key (inl refl) refl

-- The membership in the other organization stays.
reduction_tenant_example :
    In
      (record { org_id = lit "b"; user_id = lit "u"; role_template_id = some (lit "t") })
      (perform (some reducer) no_faults in_a (some no_app_credentials) narrow tables).0.members
unfolding in_a permits_organization contains ◌==◌
reduction_tenant_example =
    reduction_tenant (some reducer) no_faults in_a (some no_app_credentials) narrow tables
      (record { org_id = lit "b"; user_id = lit "u"; role_template_id = some (lit "t") }) (inr refl)
      (inr (inl refl))

-- With no decision on the application's credentials nothing is changed.

tables-IsDistinct : IsDistinct tables.keys
unfolding ◌==◌
tables-IsDistinct k j a b e = elim a [
  | inl ka ↦ elim b [
    | inl ja ↦ sym ka ∙ ja
    | inr (inl ja) ↦ elim (ne_of_test (lit "k") (lit "l") refl (ids ka ja)) [ ]
    | inr (inr (inl ja)) ↦ elim (ne_of_test (lit "k") (lit "s") refl (ids ka ja)) [ ]
    | inr (inr (inr nothing)) ↦ elim nothing [ ]
  ]
  | inr (inl ka) ↦ elim b [
    | inl ja ↦ elim (ne_of_test (lit "l") (lit "k") refl (ids ka ja)) [ ]
    | inr (inl ja) ↦ sym ka ∙ ja
    | inr (inr (inl ja)) ↦ elim (ne_of_test (lit "l") (lit "s") refl (ids ka ja)) [ ]
    | inr (inr (inr nothing)) ↦ elim nothing [ ]
  ]
  | inr (inr (inl ka)) ↦ elim b [
    | inl ja ↦ elim (ne_of_test (lit "s") (lit "k") refl (ids ka ja)) [ ]
    | inr (inl ja) ↦ elim (ne_of_test (lit "s") (lit "l") refl (ids ka ja)) [ ]
    | inr (inr (inl ja)) ↦ sym ka ∙ ja
    | inr (inr (inr nothing)) ↦ elim nothing [ ]
  ]
  | inr (inr (inr nothing)) ↦ elim nothing [ ]
]
  where
    ids : {x y : Key} → x ≡ k → y ≡ j → x.id ≡ y.id
    ids ka ja = ap (λ (z : Key). z.id) ka ∙ e ∙ ap (λ (z : Key). z.id) (sym ja)

reduction_spares_example :
    In service_key
      (perform (some reducer) no_faults in_a (some no_app_credentials) narrow tables).0.keys
reduction_spares_example =
    reduction_spares reducer no_faults in_a (some no_app_credentials) narrow tables service_key
      tables-IsDistinct (inl refl) (inr (inr (inl refl)))
